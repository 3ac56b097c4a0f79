-- ===== src/Tunnel.antt =====
-- internal/tunnel: the life of one interface.
pub mod Failover
pub mod FirstAnswer
pub mod System
pub mod Life
pub mod Wiped
pub mod Held
pub mod Cleared
pub mod Fuel
