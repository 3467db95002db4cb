-- ===== src/Rpc.antt =====
-- pkg/disk/rpcserver: the CSI services.
pub mod State
pub mod Placement
pub mod Requests
pub mod Controller
pub mod Node
pub mod Identity
pub mod Start
