-- ===== src/Cloud.antt =====
-- pkg/cloud: the client of the Zenlayer cloud. `W` is the state of everything outside the
-- process: the cloud, and the time.
pub mod Exec
pub mod Client
pub mod Types
pub mod Wait
pub mod Answers
pub mod Disks
pub mod Lookup
pub mod Snapshots
pub mod Instances
pub mod Manager
