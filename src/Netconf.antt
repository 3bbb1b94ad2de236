-- ===== src/Netconf.antt =====
-- The NETCONF server's own logic: pkg/netconf.
pub mod Framing
pub mod RateLimit
pub mod Sessions
pub mod Handlers
