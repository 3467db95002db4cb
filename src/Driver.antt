-- ===== src/Driver.antt =====
-- pkg/disk/driver: what the driver supports, disk types, topologies and storage classes.
pub mod VolumeType
pub mod Capability
pub mod Topology
pub mod StorageClass
pub mod SnapshotClass
