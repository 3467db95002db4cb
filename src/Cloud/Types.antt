-- ===== src/Cloud/Types.antt =====
-- pkg/cloud/types.go, and how DescribeDisks and DescribeSnapshots answers are read.
use zenlayer_cloud_csi_drive.Prelude.{
  ℕ, Bool, false, Option, none, some, Text, [], codes, ℤ, negsuc,
}
use zenlayer_cloud_csi_drive.Driver.VolumeType.{string_to_type}
use zenlayer_cloud_csi_drive.Cloud.Client.{DiskInfo, SnapshotInfo}

abbrev pub vm_status_running : Text
vm_status_running = codes "RUNNING"

abbrev pub disk_status_in_use : Text
disk_status_in_use = codes "IN_USE"

abbrev pub disk_status_available : Text
disk_status_available = codes "AVAILABLE"

abbrev pub disk_status_deleted : Text
disk_status_deleted = codes "DELETED"

abbrev pub disk_status_stable : Text
disk_status_stable = codes "STABLE"

abbrev pub disk_status_recycled : Text
disk_status_recycled = codes "RECYCLED"

abbrev pub max_release_disk_times : ℕ
max_release_disk_times = 2

abbrev pub snap_status_available : Text
snap_status_available = codes "AVAILABLE"

abbrev pub snap_status_deleted : Text
snap_status_deleted = codes "DELETED"

-- Two of the codes of pkg/cloud/error.go.
abbrev pub operation_failed_resource_not_found : Text
operation_failed_resource_not_found = codes "OPERATION_FAILED_RESOURCE_NOT_FOUND"

abbrev pub invalid_disk_snapshot_not_found : Text
invalid_disk_snapshot_not_found = codes "INVALID_DISK_SNAPSHOT_NOT_FOUND"

pub record ZecVolume : Type 0 where
  pub id : Text
  pub name : Text
  pub size : ℤ
  pub type : ℤ
  pub status : Text
  pub zone : Text
  pub serial : Text
  pub instance_id : Text
  pub portable : Bool
  pub snapshot_ability : Bool
  pub resource_group_id : Text

abbrev pub new_zec_volume : ZecVolume
new_zec_volume = record {
  id = [];
  name = [];
  size = negsuc 0;
  type = negsuc 0;
  status = [];
  zone = [];
  serial = [];
  instance_id = [];
  portable = false;
  snapshot_ability = false;
  resource_group_id = [];
}

pub record ZecVolumeSnap : Type 0 where
  pub id : Text
  pub name : Text
  pub status : Text
  pub src_disk_id : Text
  pub disk_ability : Bool
  pub zone_id : Text
  pub resource_group_id : Text
  pub create_time : Text

abbrev pub new_zec_volume_snap : ZecVolumeSnap
new_zec_volume_snap = record {
  id = [];
  name = [];
  status = [];
  src_disk_id = [];
  disk_ability = false;
  zone_id = [];
  resource_group_id = [];
  create_time = [];
}

-- A field that the answer leaves out keeps its initial value.
abbrev pub or_initial : {A : Type 0} → A → Option A → A
or_initial a none = a
or_initial a (some b) = b

unfoldable pub zec_volume_of : DiskInfo → ZecVolume
zec_volume_of d = record new_zec_volume {
  id = or_initial [] d.disk_id;
  name = or_initial [] d.disk_name;
  size = or_initial (negsuc 0) d.disk_size;
  type = elim d.disk_category [ none ↦ negsuc 0 | some c ↦ string_to_type c ];
  status = or_initial [] d.disk_status;
  zone = or_initial [] d.zone_id;
  serial = or_initial [] d.serial;
  instance_id = or_initial [] d.instance_id;
  portable = or_initial false d.portable;
  snapshot_ability = or_initial false d.snapshot_ability;
  resource_group_id = or_initial [] d.resource_group_id;
}

unfoldable pub zec_volume_snap_of : SnapshotInfo → ZecVolumeSnap
zec_volume_snap_of d = record new_zec_volume_snap {
  id = or_initial [] d.snapshot_id;
  name = or_initial [] d.snapshot_name;
  status = or_initial [] d.status;
  src_disk_id = or_initial [] d.disk_id;
  disk_ability = or_initial false d.disk_ability;
  zone_id = or_initial [] d.zone_id;
  resource_group_id = or_initial [] (or_initial none d.resource_group);
  create_time = or_initial [] d.create_time;
}

pub record ZecVm : Type 0 where
  pub id : Text
  pub status : Text
  pub type : ℤ
  pub zone : Text
