-- ===== src/Lib.antt =====
-- wintun-bindings: bindings to the Wintun driver of Windows, a layer 3 tunnel. A program creates or
-- opens an adapter, starts a session on it, and receives and sends IP packets through the two rings
-- of the session. The crate owns handles of the driver and of the Windows kernel; what it has to get
-- right is which calls it makes on them, in which order, and what it makes of the answers.
--
-- How the program is modelled
--
-- A function of the crate is a function on a `World` that ends in a value, an error or a panic, which
-- also stands for an access violation:
-- `M E A` is `World → Outcome E A × World`. A world holds the trace, which is the list of all calls of
-- code outside the crate with the newest first, the `OnceLock` cells of the sessions, and the two
-- statics of the logger. What is outside (wintun.dll, the Windows API, `netsh`, the thread pool of the
-- crate `blocking`) is a parameter: the records `Platform`, `IpHelper`, `Executor`, `Messages`,
-- `AdapterTable`, `InterfaceTable`, `InfoApi`, `Console`, `DnsApi`, `MaskApi`, `Registry`, `TrustApi`,
-- `CryptApi`, `Loader`, `Libraries`, `RandomApi`, `Pcap`, `Shell`, `Files` and `Surroundings` answer
-- each call as a function of the trace, so that the driver and the world may change between any two
-- calls; `PacketCrate` and `PingCrate` are the crate `packet`, and `Futures` is the crate `futures`, of
-- which some theorems assume that it reads and writes by polling the session. A handle or an address is
-- a number, and null is 0; memory is what the driver has left there, overwritten by what the crate has
-- copied there in its last call. A Rust string is the list of its scalar values.
--
--   Base, System      shared lists and tests; calls, traces, the world and its monad
--   Failure           src/error.rs: the errors, and those of `std::io`
--   Handle            src/handle.rs: `SafeEvent` (new, set_event is `signal`, close_handle is `close`)
--   Log               src/log.rs: the logger of the driver and the log that explains a failed call
--   Ffi               src/ffi.rs, with two functions of src/util.rs on the same foreign code
--   Util              src/util.rs: LastError, Utf16, Utf8, DllPath, Guid, Netmask, SockAddr, FormatMessage,
--                     Interfaces (the walk over the adapters), InterfaceInfo, Command, Dns and Mtu
--   Adapter           src/adapter.rs: Lifecycle (create, open as `open_named`, start_session as
--                     `start_session_on`), Addresses (the getters), Settings (the setters), Registry
--                     (the drop, which cleans the registry)
--   Session           src/session.rs and src/packet.rs: Packet, Calls (what does not block; the method
--                     allocate_send_packet is `allocate`, send_packet is `send_packet_of`), Loops
--                     (what blocks), Ring (the account of the packets that are handed out and not
--                     given back), Arrivals (the bytes that were received), Stream (a session as its
--                     user sees it) and Lifetime (the shared ownership of a session)
--   AsyncSession      src/async_session.rs: Defs (recv, send, poll_write, poll_flush, poll_close) and
--                     PollRead
--   Signature         src/verify_binary_signature.rs: Trust, Signer and Path, one for each function
--   Bindings          src/wintun_raw.rs: the functions of a library (`new` is `new_from_path`), and
--                     which of them each method calls (`callee`)
--   FnHolder          src/fn_holder.rs: a function that is looked up when it is first used
--   Loading           src/lib.rs: how the driver's library is verified and loaded
--   Version           src/lib.rs: the version of the driver
--   Programs          examples/: Basic (basic.rs), Configured, Echo and Server (udp-echo.rs: the start
--                     of its session, the rounds of its loops, and its threads), Routes, Capture and
--                     Tunnel (wireshark.rs: the routes, its reader, and its start, writer and end),
--                     Async and Tasks (basic-async.rs, udp-echo-async.rs), Readers and Stopping (what the
--                     readers take and how they end), Closing (the whole `main` of basic.rs) and Finding
--                     (which DLL they load), which use the crate
--   Examples          concrete runs
--
-- Session.Ring is the contract of a session with its driver: which addresses are held by the program
-- and which are allocated and unsent, read off the trace alone. Session.Lifetime is a step relation
-- on the owners of one session: the handles that a program holds, clones included, and the packets
-- that are alive. A step is a call of the session or a drop, and the last owner ends the session.
--
-- Bounds and fuel
--
-- Sizes that the code casts are reduced modulo a power of two where it casts them (`buf.len() as u32`,
-- `as u16`). The loops of the blocking calls and of `poll_read` take fuel for their rounds, and
-- answer `none` where they go on: as long as no packet comes and nobody shuts the session down, they
-- do wait. The results that end them are stated under the condition that the waits end. The loop of a
-- netmask has sixteen rounds for a prefix of eight bits, that of a decimal number twenty digits. The
-- loop over registry keys has one round for each key, and one more.
--
-- Not modelled
--
-- The messages that the crate itself sends to the crate `log`, but for those of the driver's logger;
-- allocation failures and poisoned mutexes, but for the lock of a waiting task; the reference counts
-- of the adapter and of the loaded library; the text of an error. Of the programs under examples, the end of
-- basic-async.rs, which shuts the session down and awaits its reader, and what the programs print.
-- The tasks of udp-echo-async.rs interleave by rounds: a read or a write that is awaited is one step.
pub mod Base
pub mod System
pub mod Failure
pub mod Util
pub mod Handle
pub mod Adapter
pub mod Session
pub mod AsyncSession
pub mod Log
pub mod Ffi
pub mod Signature
pub mod Bindings
pub mod Loading
pub mod FnHolder
pub mod Programs
pub mod Version
pub mod Examples
