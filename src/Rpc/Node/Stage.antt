-- ===== src/Rpc/Node/Stage.antt =====
-- pkg/disk/rpcserver/nodeserver.go: NodeStageVolume and NodeUnstageVolume.
pub mod Laws
pub mod Quiet
pub mod Devices
use zenlayer_cloud_csi_drive.Prelude.{
  Bool, true, false, not, List, [], ◌∷◌, Option, none, some, Text, is_empty, if◌then◌else◌,
}
use zenlayer_cloud_csi_drive.Common.VolumeId.{parse_csi_vol_id}
use zenlayer_cloud_csi_drive.Common.Mount.{format_and_mount}
use zenlayer_cloud_csi_drive.Driver.Capability.{
  VolumeCapability, MountVolume, is_block, get_mount, validate_node_service_request,
  stage_unstage_volume,
}
use zenlayer_cloud_csi_drive.Rpc.State.{
  Rpc, respond, require, some_or, on_world, with_lock, ◌>>=◌, ◌>>◌, invalid_argument, not_found,
  unimplemented, internal,
}
use zenlayer_cloud_csi_drive.Rpc.Node.Requests.{NodeStageRequest, NodeCleanupRequest}
use zenlayer_cloud_csi_drive.Rpc.Node.Devices.{check_fs_type, get_dev_path_by_serial}
use zenlayer_cloud_csi_drive.Rpc.Node.Mounts.{not_mounted, resize_if_needed}
use zenlayer_cloud_csi_drive.Rpc.Node.Server.{NodeServer, add_mount_flags, fs_type_of, cleanup_key}

module _ {W : Type 0} (ns : NodeServer W) where
  unfoldable pub check_stage : Rpc W (Unit {0})
  unfolding validate_node_service_request
  check_stage = require (validate_node_service_request ns.driver stage_unstage_volume) unimplemented

  unfoldable pub mount_options : MountVolume → List Text
  unfolding add_mount_flags
  mount_options m = add_mount_flags ns.feature_gates m.mount_flags []

  unfoldable pub format_and_grow : NodeStageRequest → MountVolume → Text → Rpc W (Unit {0})
  unfolding mount_options fs_type_of format_and_mount resize_if_needed
  format_and_grow req m device = do
    on_world internal (
        format_and_mount ns.host device req.staging_target_path (fs_type_of (some m)) []
          (mount_options m) false)
    on_world internal (resize_if_needed ns.host device req.staging_target_path)

  unfoldable pub mount_device : NodeStageRequest → MountVolume → Text → Rpc W (Unit {0})
  unfolding format_and_grow
  mount_device req m serial = do
    device ← on_world not_found (get_dev_path_by_serial ns.host serial)
    format_and_grow req m device

  unfoldable pub unless_mounted : NodeStageRequest → MountVolume → Text → Bool → Rpc W (Unit {0})
  unfolding mount_device
  unless_mounted req m serial absent = if absent then mount_device req m serial else respond tt

  -- With the lock on the disk held.
  unfoldable pub stage_locked : NodeStageRequest → VolumeCapability → Text → Rpc W (Unit {0})
  unfolding get_mount check_fs_type fs_type_of not_mounted unless_mounted
  stage_locked req cap serial = do
    m ← some_or invalid_argument (get_mount cap)
    require (check_fs_type (fs_type_of (some m))) invalid_argument
    absent ← on_world internal (not_mounted ns.host req.staging_target_path)
    unless_mounted req m serial absent

  -- A block device is not staged.
  unfoldable pub stage_parsed : NodeStageRequest → VolumeCapability → Text × Text → Rpc W (Unit {0})
  unfolding is_block stage_locked with_lock
  stage_parsed req cap (id, serial) =
      if is_block cap then respond tt else with_lock id (stage_locked req cap serial)

  unfoldable pub node_stage_volume : NodeStageRequest → Rpc W (Unit {0})
  unfolding check_stage stage_parsed
  node_stage_volume req = do
    check_stage
    require (not (is_empty req.volume_id)) invalid_argument
    require (not (is_empty req.staging_target_path)) invalid_argument
    cap ← some_or invalid_argument req.volume_capability
    parts ← some_or not_found (parse_csi_vol_id req.volume_id)
    stage_parsed req cap parts

  unfoldable pub node_unstage_volume : NodeCleanupRequest → Rpc W (Unit {0})
  unfolding check_stage cleanup_key with_lock
  node_unstage_volume req = do
    check_stage
    require (not (is_empty req.volume_id)) invalid_argument
    require (not (is_empty req.path)) invalid_argument
    with_lock (cleanup_key req.volume_id) (on_world internal (ns.host.cleanup_mount_point req.path))
