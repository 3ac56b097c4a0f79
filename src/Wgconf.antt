-- ===== src/Wgconf.antt =====
-- internal/wgconf: an ordinary WireGuard configuration file is read.
pub mod Lines
pub mod Settings
pub mod Parse
pub mod Secret
pub mod Accepted
