-- ===== src/Firecracker.antt =====
-- src/keycard/backends/firecracker.py: rooms as microVMs.
pub mod Preflight
pub mod Debris
pub mod Backend
pub mod Host
pub mod Lifecycle
pub mod Room
pub mod Api
pub mod Stop
pub mod Exit
pub mod Images
pub mod Machine
mod Examples
