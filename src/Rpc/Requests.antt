-- ===== src/Rpc/Requests.antt =====
-- The CSI messages that the controller service reads and writes, the fields that it uses.
use zenlayer_cloud_csi_drive.Prelude.{Bool, List, Option, Text, ℤ}
use zenlayer_cloud_csi_drive.Common.Calculator.{CapacityRange}
use zenlayer_cloud_csi_drive.Driver.Capability.{VolumeCapability}
use zenlayer_cloud_csi_drive.Rpc.Placement.{Segments, TopologyRequirement}

-- csi.VolumeContentSource: a snapshot, a volume, or neither.
pub data ContentSource : Type 0 where
  from_snapshot : Text → ContentSource
  from_volume : Text → ContentSource
  unset : ContentSource

-- `capabilities` is `none` for a nil list.
pub record CreateVolumeRequest : Type 0 where
  pub name : Text
  pub capacity_range : Option CapacityRange
  pub volume_capabilities : Option (List VolumeCapability)
  pub parameters : List (Text × Text)
  pub content_source : Option ContentSource
  pub accessibility_requirements : Option TopologyRequirement

-- csi.Volume
pub record Volume : Type 0 where
  pub volume_id : Text
  pub capacity_bytes : ℤ
  pub volume_context : List (Text × Text)
  pub content_source : Option ContentSource
  pub accessible_topology : List Segments

pub record PublishRequest : Type 0 where
  pub volume_id : Text
  pub node_id : Text
  pub volume_capability : Option VolumeCapability
  pub readonly : Bool

pub record UnpublishRequest : Type 0 where
  pub volume_id : Text
  pub node_id : Text

pub record ExpandRequest : Type 0 where
  pub volume_id : Text
  pub capacity_range : Option CapacityRange
  pub volume_capability : Option VolumeCapability

pub record ExpandResponse : Type 0 where
  pub capacity_bytes : ℤ
  pub node_expansion_required : Bool

pub record CreateSnapshotRequest : Type 0 where
  pub source_volume_id : Text
  pub name : Text
  pub parameters : List (Text × Text)

-- csi.Snapshot; `create_time` is the text that parseSnapCreationTime turns into a timestamp.
pub record Snapshot : Type 0 where
  pub snapshot_id : Text
  pub source_volume_id : Text
  pub ready_to_use : Bool
  pub create_time : Text
  pub size_bytes : ℤ

pub record ValidateRequest : Type 0 where
  pub volume_id : Text
  pub volume_capabilities : List VolumeCapability
  pub volume_context : List (Text × Text)
  pub parameters : List (Text × Text)

-- What ValidateVolumeCapabilities confirms; without it the response is not confirmed.
pub record Confirmed : Type 0 where
  pub volume_context : List (Text × Text)
  pub volume_capabilities : List VolumeCapability
  pub parameters : List (Text × Text)
