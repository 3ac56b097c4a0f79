-- ===== src/Runtime.antt =====
-- internal/runtime: what has to be routed around the tunnel.
pub mod Plan
pub mod Endpoints
pub mod Planned
pub mod Pins
pub mod Table
pub mod Restored
