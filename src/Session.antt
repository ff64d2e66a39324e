-- ===== src/Session.antt =====
-- src/session.rs and src/packet.rs: a session with its ring buffer, and the packets of the ring.
pub mod Arrivals
pub mod Packet
pub mod Calls
pub mod Loops
pub mod Ring
pub mod Stream
pub mod Lifetime
