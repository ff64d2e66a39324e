-- ===== src/Signature.antt =====
-- src/verify_binary_signature.rs: the signature of a DLL, a module for each of its functions. A path is
-- the list of its 16-bit units.
pub mod Trust
pub mod Signer
pub mod Path
