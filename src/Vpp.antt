-- ===== src/Vpp.antt =====
-- The VPP side of the router: pkg/vpp.
pub mod Naming
