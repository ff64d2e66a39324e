-- ===== src/Examples.antt =====
-- Concrete runs of the crate, at which the theorems with conditions apply.
mod Machine
mod Sessions
mod Sharing
mod Tasks
mod Adapters
mod Texts
mod Network
mod Libraries
mod Driver
mod Machines
mod Readers
mod Rounds
mod Echoes
mod Tunnels
mod Asyncs
