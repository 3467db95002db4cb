-- ===== src/Rpc/Controller.antt =====
-- pkg/disk/rpcserver/controllerserver.go: the CSI controller service.
pub mod Server
pub mod Create
pub mod Attach
pub mod Expand
pub mod Snapshots
pub mod Times
pub mod Rest
pub mod Dispatch
