-- ===== src/Tests.antt =====
-- Runs of the model, and each theorem at a concrete input.
mod Records
mod Descr
mod Mac
mod Tunnel
mod Daemon
mod Config
mod Provision
mod Wgconf
mod Runtime
mod Life
mod Spec
mod Handoff
