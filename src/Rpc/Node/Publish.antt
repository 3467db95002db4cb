-- ===== src/Rpc/Node/Publish.antt =====
-- pkg/disk/rpcserver/nodeserver.go: NodePublishVolume and NodeUnpublishVolume.
pub mod Modes
pub mod Laws
pub mod Cleanup
use zenlayer_cloud_csi_drive.Prelude.{
  Bool, true, false, not, List, [], ◌∷◌, ◌++◌, Option, none, some, Text, codes, is_empty,
  if◌then◌else◌,
}
use zenlayer_cloud_csi_drive.Common.VolumeId.{parse_csi_vol_id}
use zenlayer_cloud_csi_drive.Driver.Capability.{
  VolumeCapability, MountVolume, is_block, get_mount, validate_volume_capability,
}
use zenlayer_cloud_csi_drive.Rpc.State.{
  Rpc, respond, require, some_or, on_world, with_lock, ◌>>=◌, ◌>>◌, invalid_argument, not_found,
  failed_precondition, internal,
}
use zenlayer_cloud_csi_drive.Rpc.Node.Requests.{NodePublishRequest, NodeCleanupRequest}
use zenlayer_cloud_csi_drive.Rpc.Node.Devices.{
  check_fs_type, get_dev_path_by_serial, create_target_mount_path_if_not_exists,
}
use zenlayer_cloud_csi_drive.Rpc.Node.Mounts.{already_mounted}
use zenlayer_cloud_csi_drive.Rpc.Node.Server.{NodeServer, add_mount_flags, fs_type_of, cleanup_key}

-- A block device is published without the mount flags.
unfoldable pub bind_options : List Text → Bool → Option MountVolume → List Text
unfolding add_mount_flags
bind_options gates readonly none = codes "bind" ∷ (if readonly then codes "ro" ∷ [] else [])
bind_options gates readonly (some m) =
    add_mount_flags gates m.mount_flags (codes "bind" ∷ (if readonly then codes "ro" ∷ [] else []))

module _ {W : Type 0} (ns : NodeServer W) where
  -- A block device is published itself, a file system by its staging path.
  unfoldable pub source_of : NodePublishRequest → VolumeCapability → Text → Rpc W Text
  source_of req cap serial =
      if is_block cap
      then on_world not_found (get_dev_path_by_serial ns.host serial)
      else respond req.staging_target_path

  unfoldable pub bind_mount : NodePublishRequest → VolumeCapability → Text → Bool → Rpc W (Unit {0})
  unfolding bind_options fs_type_of get_mount
  bind_mount req cap source there =
      if there
      then respond tt
      else on_world internal (
          ns.host.mount source req.target_path (fs_type_of (get_mount cap))
            (bind_options ns.feature_gates req.readonly (get_mount cap)))

  -- With the lock on the disk held.
  unfoldable pub publish_locked : NodePublishRequest → VolumeCapability → Text → Rpc W (Unit {0})
  unfolding source_of check_fs_type fs_type_of get_mount is_block already_mounted bind_mount
  publish_locked req cap serial = do
    source ← source_of req cap serial
    require (check_fs_type (fs_type_of (get_mount cap))) invalid_argument
    on_world internal
        (create_target_mount_path_if_not_exists ns.host req.target_path (is_block cap))
    there ← on_world internal (already_mounted ns.host (is_block cap) req.target_path)
    bind_mount req cap source there

  unfoldable pub node_publish_volume : NodePublishRequest → Rpc W (Unit {0})
  unfolding publish_locked with_lock validate_volume_capability
  node_publish_volume req = do
    require (not (is_empty req.volume_id)) invalid_argument
    require (not (is_empty req.target_path)) invalid_argument
    cap ← some_or invalid_argument req.volume_capability
    require (validate_volume_capability ns.driver cap) failed_precondition
    require (not (is_empty req.staging_target_path)) failed_precondition
    parts ← some_or not_found (parse_csi_vol_id req.volume_id)
    with_lock (parts.0) (publish_locked req cap (parts.1))

  unfoldable pub node_unpublish_volume : NodeCleanupRequest → Rpc W (Unit {0})
  unfolding cleanup_key with_lock
  node_unpublish_volume req = do
    require (not (is_empty req.path)) invalid_argument
    require (not (is_empty req.volume_id)) invalid_argument
    with_lock (cleanup_key req.volume_id) (on_world internal (ns.host.cleanup_mount_point req.path))
