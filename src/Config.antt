-- ===== src/Config.antt =====
-- src/keycard/config.py: the configuration file and its defaults.
pub mod Toml
pub mod Types
pub mod Durations
pub mod Listen
pub mod Load
pub mod Warnings
pub mod Resolve
pub mod Backed
pub mod Examples
