-- ===== src/Examples/Machine.antt =====
-- Drivers for the runs: one that always has a packet, one that has none until the shutdown event is
-- signalled, one that has no room for a packet and gives no error, and one without events.
use wintun_bindings.Adapter.{Adapter}
use wintun_bindings.Base.{true, false, ltb, length, if◌then◌else◌, ◌%◌}
use wintun_bindings.Session.Packet.{Session, Packet, receive_packet_kind}
use wintun_bindings.System.{Platform, Build}

abbrev pub release_build : Build
release_build = record {
  panic_on_unsent_packets = false;
  enable_inner_logging = true;
  debug_assertions = false;
  verify_binary_signature = true;
  winreg = true;
}

abbrev pub busy : Platform
busy = record {
  build = release_build;
  last_error = λ t. 259;
  memory = λ t a. a % 256;
  start_session = λ t a n. 5;
  get_read_wait_event = λ t h. 11;
  receive_packet = λ t h. record { address = 4096; size = 3 };
  allocate_send_packet = λ t h n. 8192;
  get_running_driver_version = λ t. 14;
  create_event = λ t. 21;
  set_event = λ t e. 1;
  close_handle = λ t e. 1;
  wait_for_multiple_objects = λ t hs. 0;
}

abbrev pub quiet : Platform
quiet = record busy {
  receive_packet = λ t h. record { address = 0; size = 0 };
  wait_for_multiple_objects = λ t hs. if ltb (length t) 8 then 0 else 1;
}

abbrev pub silent : Platform
silent = record busy { allocate_send_packet = λ t h n. 0; last_error = λ t. 0 }

abbrev pub no_events : Platform
no_events = record busy { create_event = λ t. 0; last_error = λ t. 8 }

abbrev pub adapter : Adapter
adapter = record { handle = 3; guid = 77; index = 12; luid = 9 }

abbrev pub session : Session
session = record { inner = 5; read_event = 0; shutdown_event = 21; adapter = adapter }

abbrev pub packet : Packet
packet = record { kind = receive_packet_kind; address = 4096; size = 3; session = session }
