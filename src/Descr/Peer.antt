-- ===== src/Descr/Peer.antt =====
-- internal/descr/descr.go: `Peer.Encode` and `DecodePeer` beside the layout of a peer's items.
pub mod Layout
pub mod ReadBack
pub mod RoundTrip
pub mod Progress
pub mod Options
pub mod Canonical
