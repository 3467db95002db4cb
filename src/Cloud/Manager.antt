-- ===== src/Cloud/Manager.antt =====
-- pkg/cloud/manager.go: the interface through which the servers use the cloud, and the manager of
-- cloud_manager.go behind it.
pub mod Contract
pub mod Names
pub mod Listing
pub mod Naming
use zenlayer_cloud_csi_drive.Prelude.{Bool, List, Option, Text, ℤ}
use zenlayer_cloud_csi_drive.Cloud.Exec.{Cloud}
use zenlayer_cloud_csi_drive.Cloud.Client.{ZecCloudManager}
use zenlayer_cloud_csi_drive.Cloud.Types.{ZecVolume, ZecVolumeSnap}
use zenlayer_cloud_csi_drive.Cloud.Lookup.{Lookup, find_volume_by_name, find_snapshot_by_name}
use zenlayer_cloud_csi_drive.Cloud.Disks
use zenlayer_cloud_csi_drive.Cloud.Snapshots
use zenlayer_cloud_csi_drive.Cloud.Instances

-- The methods that the servers call.
pub record CloudManager (W : Type 0) : Type 0 where
  pub create_volume : Text → ℤ → Text → Text → Text → Bool → Cloud W Text
  pub delete_volume : Text → Cloud W (Unit {0})
  pub attach_volume : Text → Text → Cloud W (Unit {0})
  pub detach_volume : Text → Cloud W (Unit {0})
  pub resize_volume : Text → ℤ → Cloud W (Unit {0})
  pub find_volume : Text → Cloud W (Option ZecVolume)
  pub find_volume_by_name : Text → Text → ℤ → Text → Text → W → Lookup ZecVolume × W
  pub get_zone_list : Cloud W (List Text)
  pub is_controller : Bool
  pub get_vm_status : Text → Cloud W (Option Text)
  pub find_snapshot : Text → Cloud W (Option ZecVolumeSnap)
  pub find_snapshot_by_name : Text → Text → Text → Text → W → Lookup ZecVolumeSnap × W
  pub create_snapshot : Text → Text → Cloud W Text
  pub delete_snapshot : Text → Cloud W (Unit {0})
  pub create_volume_from_snapshot : Text → ℤ → Text → Text → Text → Text → Bool → Cloud W Text

abbrev pub zec_cloud_manager : {W : Type 0} → ZecCloudManager W → CloudManager W
zec_cloud_manager cm = record {
  create_volume = Disks.create_volume cm;
  delete_volume = Disks.delete_volume cm;
  attach_volume = Disks.attach_volume cm;
  detach_volume = Disks.detach_volume cm;
  resize_volume = Disks.resize_volume cm;
  find_volume = Disks.find_volume cm;
  find_volume_by_name = find_volume_by_name cm;
  get_zone_list = Instances.get_zone_list cm;
  is_controller = Instances.is_controller cm;
  get_vm_status = Instances.get_vm_status cm;
  find_snapshot = Snapshots.find_snapshot cm;
  find_snapshot_by_name = find_snapshot_by_name cm;
  create_snapshot = Snapshots.create_snapshot cm;
  delete_snapshot = Snapshots.delete_snapshot cm;
  create_volume_from_snapshot = Disks.create_volume_from_snapshot cm;
}
