-- ===== src/Rpc/Node/Expand.antt =====
-- pkg/disk/rpcserver/nodeserver.go: NodeExpandVolume.
pub mod Laws
use zenlayer_cloud_csi_drive.Prelude.{
  Bool, true, false, not, Option, none, some, Text, is_empty, if◌then◌else◌, ℤ, leb_ℤ,
}
use zenlayer_cloud_csi_drive.Common.Calculator.{get_request_size_bytes}
use zenlayer_cloud_csi_drive.Common.VolumeId.{parse_csi_vol_id}
use zenlayer_cloud_csi_drive.Driver.Capability.{VolumeCapability, is_block}
use zenlayer_cloud_csi_drive.Rpc.State.{
  Rpc, respond, require, some_or, on_world, with_lock, ◌>>=◌, ◌>>◌, invalid_argument, not_found,
  out_of_range, internal,
}
use zenlayer_cloud_csi_drive.Rpc.Controller.Create.{size_of}
use zenlayer_cloud_csi_drive.Rpc.Node.Requests.{NodeExpandRequest}
use zenlayer_cloud_csi_drive.Rpc.Node.Devices.{
  is_block_device_path, get_dev_path_by_serial, get_block_size_bytes,
}
use zenlayer_cloud_csi_drive.Rpc.Node.Server.{NodeServer}

module _ {W : Type 0} (ns : NodeServer W) where
  -- The capability tells whether the volume is a block device, or else the path does.
  unfoldable pub block_mode_of : Text → Option VolumeCapability → Rpc W Bool
  unfolding is_block
  block_mode_of path (some cap) = respond (is_block cap)
  block_mode_of path none = on_world not_found (is_block_device_path ns.host path)

  -- With the lock on the disk held; the answer is the size of the device.
  unfoldable pub expand_locked : Text → Text → ℤ → Rpc W (Option ℤ)
  unfolding get_dev_path_by_serial get_block_size_bytes
  expand_locked path serial size = do
    device ← on_world not_found (get_dev_path_by_serial ns.host serial)
    done ← on_world internal (ns.host.resize device path)
    require done internal
    actual ← on_world internal (get_block_size_bytes ns.host device)
    require (leb_ℤ size actual) internal
    respond (some actual)

  unfoldable pub expand_parsed : NodeExpandRequest → ℤ → Text × Text → Rpc W (Option ℤ)
  unfolding expand_locked with_lock
  expand_parsed req size (id, serial) = with_lock id (expand_locked req.volume_path serial size)

  unfoldable pub expand_file_system : NodeExpandRequest → Rpc W (Option ℤ)
  expand_file_system req = do
    size ← some_or out_of_range (size_of (get_request_size_bytes req.capacity_range))
    parts ← some_or not_found (parse_csi_vol_id req.volume_id)
    expand_parsed req size parts

  -- The answer has no capacity for a block device, which has nothing to grow.
  unfoldable pub node_expand_volume : NodeExpandRequest → Rpc W (Option ℤ)
  unfolding block_mode_of
  node_expand_volume req = do
    require (not (is_empty req.volume_id)) invalid_argument
    require (not (is_empty req.volume_path)) invalid_argument
    block ← block_mode_of req.volume_path req.volume_capability
    (if block then respond none else expand_file_system req)
