-- ===== src/Daemon.antt =====
-- internal/daemon: the privileged half that runs one tunnel for one window.
pub mod Server
pub mod OneTunnel
