-- ===== src/Config.antt =====
-- internal/config: the configuration is found in the device, resolved, and authenticated.
pub mod Records
pub mod Keys
pub mod Search
pub mod Identity
pub mod Load
pub mod Authentic
pub mod Provisioned
pub mod Paging
