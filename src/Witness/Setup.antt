-- ===== src/Witness/Setup.antt =====
-- The controller service over the cloud with one disk.
use zenlayer_cloud_csi_drive.Prelude.{◌≡◌, refl, true, some, Text, codes, str_eq, pos}
use zenlayer_cloud_csi_drive.Common.Lock.{new_resource_locks}
use zenlayer_cloud_csi_drive.Common.VolumeId.{parse_csi_vol_id}
use zenlayer_cloud_csi_drive.Driver.Capability.{
  DiskDriver, VolumeCapability, block, single_node_writer, default_volume_access_mode_type,
  default_controller_service_capability, default_node_service_capability, default_plugin_capability,
}
use zenlayer_cloud_csi_drive.Cloud.Client.{DiskInfo}
use zenlayer_cloud_csi_drive.Cloud.Types.{zec_volume_of}
use zenlayer_cloud_csi_drive.Cloud.Manager.{zec_cloud_manager}
use zenlayer_cloud_csi_drive.Cloud.Manager.Contract.{
  IsFaithful, volumes, zec_cloud_manager-IsFaithful,
}
use zenlayer_cloud_csi_drive.Rpc.State.{Server}
use zenlayer_cloud_csi_drive.Rpc.Controller.Server.{ControllerServer}
use zenlayer_cloud_csi_drive.Witness.Cloud.{
  World, disk_id, serial, vm, zone, group, disk, simulated, manager, simulated-Tells,
  simulated-ReadsOnly,
}

abbrev pub driver : DiskDriver
driver = record {
  name = codes "diskplugin.csi.zenlayer.com";
  version = codes "v1";
  node_id = vm;
  zone_id = zone;
  max_volume = pos 10;
  volume_cap = default_volume_access_mode_type;
  controller_cap = default_controller_service_capability;
  node_cap = default_node_service_capability;
  plugin_cap = default_plugin_capability;
}

abbrev pub server : ControllerServer World
server = record {
  driver = driver;
  cloud = zec_cloud_manager manager;
  defaults = record { default_zone = zone; default_resource_group = group };
  proto_equal = λ a b. true;
}

abbrev pub start : World → Server World
start w = record { locks = new_resource_locks; world = w }

pub faithful : IsFaithful server.cloud (volumes disk)
faithful =
    zec_cloud_manager-IsFaithful simulated disk manager simulated-Tells simulated-ReadsOnly refl

abbrev pub volume_name : Text
volume_name = codes "1234567890123456789-abcdefghijklmnopqrst"

pub named : parse_csi_vol_id volume_name ≡ some (disk_id, serial)
unfolding parse_csi_vol_id
named = refl

pub there : (d : DiskInfo) → volumes disk (some d) disk_id ≡ some (zec_volume_of d)
unfolding str_eq
there d = refl

abbrev pub writer : VolumeCapability
writer = record { access_mode = some single_node_writer; access_type = some block }
