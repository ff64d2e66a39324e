-- ===== src/System/Calls.antt =====
-- The calls that the crate makes of code outside it: wintun.dll, the Windows API, `netsh`. A run
-- is known by its trace, the calls made so far with the newest first.
use wintun_bindings.Base.{ℕ, Bool, List, Text}

pub data Call : Type 0 where
  -- wintun.dll
  create_adapter : Text → Text → ℕ → Call
  open_adapter : Text → Call
  close_adapter : ℕ → Call
  start_session : ℕ → ℕ → Call
  end_session : ℕ → Call
  get_read_wait_event : ℕ → Call
  receive_packet : ℕ → Call
  release_receive_packet : ℕ → ℕ → Call
  allocate_send_packet : ℕ → ℕ → Call
  send_packet : ℕ → ℕ → Call
  set_logger : Bool → Call
  get_running_driver_version : Call
  -- A write of bytes to an address that the driver handed out.
  copy_to : ℕ → List ℕ → Call
  -- Events of the Windows kernel.
  create_event : Bool → Bool → Call
  set_event : ℕ → Call
  close_handle : ℕ → Call
  wait_for_multiple_objects : List ℕ → Call
  -- A waiting task on the thread pool of the crate `blocking`, and a poll of one.
  unblock : List ℕ → Call
  poll_task : ℕ → Call
  -- A process that is run to its end.
  command : Text → List Text → Call
  -- The Windows library iphlpapi: the MTU of the interface with an index, and the DNS servers, as a
  -- wide string, of the interface with a GUID.
  set_if_entry : ℕ → ℕ → Call
  set_interface_dns_settings : ℕ → List ℕ → Call
  -- The Windows loader, for which a library is a handle, and the crate `libloading`, which opens and
  -- closes a library by the same means.
  load_library : List ℕ → Call
  free_library : ℕ → Call
  open_library : List ℕ → Call
  close_library : ℕ → Call
  -- wintrust and crypt32: a state action on a file, a file that is opened as a store and a message,
  -- a certificate that is found in a store, by its encoding, issuer and serial number, and freed.
  win_verify_trust : ℕ → List ℕ → Call
  crypt_query_object : List ℕ → Call
  find_certificate : ℕ → ℕ → ℕ → ℕ → Call
  free_certificate : ℕ → Call
  -- advapi32: a provider of random bytes is acquired, asked for a number of bytes, and released.
  acquire_context : Call
  gen_random : ℕ → ℕ → Call
  release_context : ℕ → Call
  -- The registry: a key below another one is deleted with all that it holds.
  delete_subkey_all : ℕ → Text → Call
  -- A message to the crate `log`, with its level: 0 for info, 1 for a warning, 2 for an error.
  log_message : ℕ → Text → Call

abbrev pub Trace : Type 0
Trace = List Call
