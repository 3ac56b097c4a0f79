-- ===== src/Provision.antt =====
-- internal/provision: a configuration is written to the device.
pub mod Spec
pub mod Calls
pub mod Text
pub mod Accepted
pub mod Place
pub mod Run
pub mod Rollback
pub mod Tracked
pub mod Rolled
pub mod Verified
