-- ===== src/Bindings.antt =====
-- src/wintun_raw.rs: the functions of wintun.dll, looked up in a library that is open.
pub mod Complete
pub mod Methods
use wintun_bindings.Base.{ℕ, List, Text, text, ◌⊎◌, inl, inr}
use wintun_bindings.System.{
  M, ◌>>=◌, ◌>>◌, pure, fail, invoke, observe, attempt, tell, Trace, open_library, close_library,
  from_result,
}

-- The crate `libloading`. An error is its text, a function is its address.
pub record Libraries : Type 0 where
  pub open_result : Trace → List ℕ → Text ⊎ ℕ
  pub symbol : Trace → ℕ → Text → Text ⊎ ℕ

-- The struct `wintun`.
pub record Wintun : Type 0 where
  pub library : ℕ
  pub wintun_create_adapter : ℕ
  pub wintun_close_adapter : ℕ
  pub wintun_open_adapter : ℕ
  pub wintun_get_adapter_luid : ℕ
  pub wintun_get_running_driver_version : ℕ
  pub wintun_delete_driver : ℕ
  pub wintun_set_logger : ℕ
  pub wintun_start_session : ℕ
  pub wintun_end_session : ℕ
  pub wintun_get_read_wait_event : ℕ
  pub wintun_receive_packet : ℕ
  pub wintun_release_receive_packet : ℕ
  pub wintun_allocate_send_packet : ℕ
  pub wintun_send_packet : ℕ

-- The methods of `wintun`.
pub data Method : Type 0 where
  to_create_adapter : Method
  to_close_adapter : Method
  to_open_adapter : Method
  to_get_adapter_luid : Method
  to_get_running_driver_version : Method
  to_delete_driver : Method
  to_set_logger : Method
  to_start_session : Method
  to_end_session : Method
  to_get_read_wait_event : Method
  to_receive_packet : Method
  to_release_receive_packet : Method
  to_allocate_send_packet : Method
  to_send_packet : Method

-- The function that a method calls, with the arguments of the method.
unfoldable pub callee : Wintun → Method → ℕ
callee w to_create_adapter = w.wintun_create_adapter
callee w to_close_adapter = w.wintun_close_adapter
callee w to_open_adapter = w.wintun_open_adapter
callee w to_get_adapter_luid = w.wintun_get_adapter_luid
callee w to_get_running_driver_version = w.wintun_get_running_driver_version
callee w to_delete_driver = w.wintun_delete_driver
callee w to_set_logger = w.wintun_set_logger
callee w to_start_session = w.wintun_start_session
callee w to_end_session = w.wintun_end_session
callee w to_get_read_wait_event = w.wintun_get_read_wait_event
callee w to_receive_packet = w.wintun_receive_packet
callee w to_release_receive_packet = w.wintun_release_receive_packet
callee w to_allocate_send_packet = w.wintun_allocate_send_packet
callee w to_send_packet = w.wintun_send_packet

module _ (libraries : Libraries) where
  -- `__library.get(name).map(|sym| *sym)?`
  unfoldable pub get_symbol : ℕ → Text → M Text ℕ
  get_symbol library name = do r ← observe (λ t. libraries.symbol t library name); from_result r

  -- The lookups of `from_library`, in their order.
  unfoldable pub resolve : ℕ → M Text Wintun
  unfolding get_symbol
  resolve library = do
    create ← get_symbol library (text "WintunCreateAdapter")
    close ← get_symbol library (text "WintunCloseAdapter")
    opens ← get_symbol library (text "WintunOpenAdapter")
    luid ← get_symbol library (text "WintunGetAdapterLUID")
    version ← get_symbol library (text "WintunGetRunningDriverVersion")
    delete ← get_symbol library (text "WintunDeleteDriver")
    logger ← get_symbol library (text "WintunSetLogger")
    start ← get_symbol library (text "WintunStartSession")
    end_it ← get_symbol library (text "WintunEndSession")
    wait_event ← get_symbol library (text "WintunGetReadWaitEvent")
    receive ← get_symbol library (text "WintunReceivePacket")
    release ← get_symbol library (text "WintunReleaseReceivePacket")
    allocate ← get_symbol library (text "WintunAllocateSendPacket")
    send ← get_symbol library (text "WintunSendPacket")
    pure (record {
      library = library;
      wintun_create_adapter = create;
      wintun_close_adapter = close;
      wintun_open_adapter = opens;
      wintun_get_adapter_luid = luid;
      wintun_get_running_driver_version = version;
      wintun_delete_driver = delete;
      wintun_set_logger = logger;
      wintun_start_session = start;
      wintun_end_session = end_it;
      wintun_get_read_wait_event = wait_event;
      wintun_receive_packet = receive;
      wintun_release_receive_packet = release;
      wintun_allocate_send_packet = allocate;
      wintun_send_packet = send;
    })

  -- The library is owned, so that it is closed where a function is missing.
  unfoldable pub from_library : ℕ → M Text Wintun
  from_library library = do
    r ← attempt (resolve library)
    elim r [ inr wintun ↦ pure wintun | inl e ↦ do tell (close_library library); fail e ]

  unfoldable pub new_from_path : List ℕ → M Text Wintun
  unfolding from_library
  new_from_path path = do
    opened ← invoke (open_library path) (λ t. libraries.open_result t path)
    library ← from_result opened
    from_library library
