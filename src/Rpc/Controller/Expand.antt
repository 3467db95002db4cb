-- ===== src/Rpc/Controller/Expand.antt =====
-- ControllerExpandVolume of pkg/disk/rpcserver/controllerserver.go.
pub mod Laws
use zenlayer_cloud_csi_drive.Prelude.{
  Bool, true, false, not, Option, none, some, Text, is_empty, if◌then◌else◌, ℤ, leb_ℤ,
}
use zenlayer_cloud_csi_drive.Common.Calculator.{CapacityRange, gib_to_byte, byte_ceil_to_gib}
use zenlayer_cloud_csi_drive.Common.VolumeId.{parse_csi_vol_id}
use zenlayer_cloud_csi_drive.Driver.Capability.{
  VolumeCapability, controller_expand_volume as expand_volume, is_block,
}
use zenlayer_cloud_csi_drive.Driver.StorageClass.{
  new_default_zec_storage_class_from_type, get_required_volume_size_byte,
}
use zenlayer_cloud_csi_drive.Cloud.Types.{ZecVolume}
use zenlayer_cloud_csi_drive.Rpc.State.{
  Rpc, respond, require, some_or, on_world, with_lock, ◌>>=◌, ◌>>◌, invalid_argument, not_found,
  internal, out_of_range,
}
use zenlayer_cloud_csi_drive.Rpc.Requests.{ExpandRequest, ExpandResponse}
use zenlayer_cloud_csi_drive.Rpc.Controller.Create.{size_of}
use zenlayer_cloud_csi_drive.Rpc.Controller.Server.{ControllerServer, check_capability}

-- GetVolumeCapability().GetBlock() == nil, which holds too if there is no capability.
unfoldable pub node_expansion : Option VolumeCapability → Bool
unfolding is_block
node_expansion none = true
node_expansion (some c) = not (is_block c)

module _ {W : Type 0} (cs : ControllerServer W) where
  unfoldable pub resize : ExpandRequest → Text → ℤ → Rpc W ExpandResponse
  unfolding node_expansion
  resize req id gib = do
    on_world internal (cs.cloud.resize_volume id gib)
    respond (record {
      capacity_bytes = gib_to_byte gib;
      node_expansion_required = node_expansion req.volume_capability;
    })

  -- A disk that is large enough stays as it is.
  unfoldable pub expand_to : ExpandRequest → Text → ZecVolume → ℤ → Rpc W ExpandResponse
  unfolding resize
  expand_to req id v gib =
      if leb_ℤ (gib_to_byte gib) (gib_to_byte v.size)
      then respond (record {
        capacity_bytes = gib_to_byte v.size;
        node_expansion_required = node_expansion req.volume_capability;
      })
      else resize req id gib

  -- With the lock on the disk held.
  unfoldable pub expand_locked : ExpandRequest → Text → Rpc W ExpandResponse
  unfolding expand_to
  expand_locked req id = do
    found ← on_world internal (cs.cloud.find_volume id)
    v ← some_or not_found found
    sc ← some_or internal (new_default_zec_storage_class_from_type v.type)
    size ← some_or out_of_range (size_of (get_required_volume_size_byte sc req.capacity_range))
    expand_to req id v (byte_ceil_to_gib size)

  unfoldable pub controller_expand_volume : ExpandRequest → Rpc W ExpandResponse
  unfolding check_capability with_lock expand_locked
  controller_expand_volume req = do
    check_capability cs expand_volume
    require (not (is_empty req.volume_id)) invalid_argument
    parts ← some_or not_found (parse_csi_vol_id req.volume_id)
    with_lock (parts.0) (expand_locked req (parts.0))
