-- ===== src/Frpc.antt =====
-- internal/frpc: the tunnel client's configuration, and the process that runs it.
pub mod Config
pub mod Proxies
pub mod Process
