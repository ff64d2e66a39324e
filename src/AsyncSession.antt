-- ===== src/AsyncSession.antt =====
-- src/async_session.rs: a session for the traits `AsyncRead` and `AsyncWrite`. The tasks of the crate
-- `blocking` are numbers, and what becomes of them is a parameter.
pub mod Defs
pub mod PollRead
