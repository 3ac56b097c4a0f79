-- ===== src/Descr.antt =====
-- internal/descr: the binary records that are stored in a key's descr field.
pub mod Tag
pub mod Records
pub mod Items
pub mod Encode
pub mod Decode
pub mod DecodePeer
pub mod Parse
pub mod Framing
pub mod Layout
pub mod Sorted
pub mod ReadBack
pub mod RoundTrip
pub mod Inversion
pub mod Progress
pub mod Canonical
pub mod Normalize
pub mod Kid
pub mod ZeroMac
pub mod Peer
