-- ===== src/Mac.antt =====
-- internal/mac: the one MAC that authenticates a whole configuration tree.
pub mod Message
pub mod Refs
pub mod Records
pub mod Injective
pub mod SignVerify
pub mod AbsentTag
pub mod Length
