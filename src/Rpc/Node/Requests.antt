-- ===== src/Rpc/Node/Requests.antt =====
-- The CSI messages that the node service reads and writes, the fields that it uses.
use zenlayer_cloud_csi_drive.Prelude.{Bool, Option, Text, ℤ}
use zenlayer_cloud_csi_drive.Common.Calculator.{CapacityRange}
use zenlayer_cloud_csi_drive.Driver.Capability.{VolumeCapability}
use zenlayer_cloud_csi_drive.Rpc.Placement.{Segments}

pub record NodePublishRequest : Type 0 where
  pub volume_id : Text
  pub staging_target_path : Text
  pub target_path : Text
  pub volume_capability : Option VolumeCapability
  pub readonly : Bool

-- Of NodeUnpublishVolume and of NodeUnstageVolume, with the path that each cleans up.
pub record NodeCleanupRequest : Type 0 where
  pub volume_id : Text
  pub path : Text

pub record NodeStageRequest : Type 0 where
  pub volume_id : Text
  pub staging_target_path : Text
  pub volume_capability : Option VolumeCapability

pub record NodeExpandRequest : Type 0 where
  pub volume_id : Text
  pub volume_path : Text
  pub capacity_range : Option CapacityRange
  pub volume_capability : Option VolumeCapability

pub record NodeStatsRequest : Type 0 where
  pub volume_id : Text
  pub volume_path : Text

pub record NodeInfo : Type 0 where
  pub node_id : Text
  pub max_volumes_per_node : ℤ
  pub accessible_topology : Segments

-- csi.VolumeUsage in bytes; what is not set is 0.
pub record VolumeUsage : Type 0 where
  pub available : ℤ
  pub total : ℤ
  pub used : ℤ
