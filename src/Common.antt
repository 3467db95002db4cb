-- ===== src/Common.antt =====
-- pkg/common: capacity arithmetic, the per-resource locks and the volume identifiers.
pub mod Calculator
pub mod Lock
pub mod VolumeId
pub mod Mount
pub mod Environment
pub mod Hash
pub mod Trace
