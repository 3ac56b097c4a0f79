-- ===== src/Handoff.antt =====
-- internal/handoff: what an operator is given for the other end of a tunnel.
pub mod Block
pub mod Ranges
