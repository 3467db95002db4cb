-- ===== src/Rpc/Node.antt =====
-- pkg/disk/rpcserver/nodeserver.go: the CSI node service.
pub mod Requests
pub mod Devices
pub mod Mounts
pub mod Server
pub mod Publish
pub mod Stage
pub mod Info
pub mod Expand
pub mod Dispatch
