-- ===== src/Host.antt =====
-- The host that the node service works on, as the driver sees it.
pub mod System
pub mod Contract
