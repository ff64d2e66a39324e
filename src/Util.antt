-- ===== src/Util.antt =====
-- src/util.rs: the free functions of the crate, a module for each subject.
pub mod LastError
pub mod Utf16
pub mod Utf8
pub mod Guid
pub mod Netmask
pub mod Dns
pub mod SockAddr
pub mod FormatMessage
pub mod Interfaces
pub mod InterfaceInfo
pub mod Command
pub mod Mtu
pub mod DllPath
