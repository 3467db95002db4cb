-- ===== src/Rpc/Node/Info.antt =====
-- pkg/disk/rpcserver/nodeserver.go: NodeGetInfo, NodeGetCapabilities and NodeGetVolumeStats.
pub mod Laws
use zenlayer_cloud_csi_drive.Prelude.{
  ℕ, ◌*◌, ◌%◌, ◌^◌, ◌-◌, Bool, true, false, not, List, [], ◌∷◌, Option, none, some, Text, is_empty,
  if◌then◌else◌, ℤ, pos, negsuc, signed64, to_uint64, to_int64, ◌-ℤ◌,
}
use zenlayer_cloud_csi_drive.Driver.Capability.{
  DiskDriver, NodeRpc, get_topology_vm_type_key, get_topology_zone_key,
}
use zenlayer_cloud_csi_drive.Driver.VolumeType.{basic_vm_type, vm_type_name}
use zenlayer_cloud_csi_drive.Host.System.{StatFs}
use zenlayer_cloud_csi_drive.Rpc.State.{
  Rpc, respond, require, some_or, on_world, ◌>>=◌, ◌>>◌, invalid_argument, not_found, internal,
}
use zenlayer_cloud_csi_drive.Rpc.Node.Requests.{NodeStatsRequest, NodeInfo, VolumeUsage}
use zenlayer_cloud_csi_drive.Rpc.Node.Devices.{is_block_device_path, get_block_size_bytes}
use zenlayer_cloud_csi_drive.Rpc.Node.Server.{NodeServer}

-- int64(n * uint64(bsize)), with the wrap-around of both.
unfoldable pub size_of_blocks : ℤ → ℕ → ℤ
size_of_blocks bsize n = signed64 ((n * to_uint64 bsize) % 2 ^ 64)

unfoldable pub usage_of : StatFs → VolumeUsage
unfolding size_of_blocks
usage_of s =
    let total = size_of_blocks s.bsize s.blocks in
    let free = size_of_blocks s.bsize s.bfree in
    record {
      available = size_of_blocks s.bsize s.bavail;
      total = total;
      used = to_int64 (total -ℤ free);
    }

module _ {W : Type 0} (ns : NodeServer W) where
  -- Every VM has the basic type.
  unfoldable pub node_get_info : Rpc W NodeInfo
  unfolding vm_type_name get_topology_vm_type_key get_topology_zone_key
  node_get_info = do
    vm_type ← some_or invalid_argument (vm_type_name basic_vm_type)
    respond (record {
      node_id = ns.driver.node_id;
      max_volumes_per_node = ns.driver.max_volume;
      accessible_topology =
          (get_topology_vm_type_key ns.driver, vm_type)
          ∷ (get_topology_zone_key ns.driver, ns.driver.zone_id)
          ∷ [];
    })

  unfoldable pub node_get_capabilities : Rpc W (List NodeRpc)
  node_get_capabilities = respond ns.driver.node_cap

  unfoldable pub block_stats : Text → Rpc W VolumeUsage
  unfolding get_block_size_bytes
  block_stats path = do
    size ← on_world internal (get_block_size_bytes ns.host path)
    respond (record { available = pos 0; total = size; used = pos 0 })

  unfoldable pub file_system_stats : Text → Rpc W VolumeUsage
  unfolding usage_of
  file_system_stats path = do s ← on_world internal (ns.host.statfs path); respond (usage_of s)

  -- NodeGetVolumeStats takes no lock.
  unfoldable pub node_get_volume_stats : NodeStatsRequest → Rpc W VolumeUsage
  unfolding is_block_device_path block_stats file_system_stats
  node_get_volume_stats req = do
    require (not (is_empty req.volume_id)) invalid_argument
    require (not (is_empty req.volume_path)) invalid_argument
    block ← on_world not_found (is_block_device_path ns.host req.volume_path)
    (if block then block_stats req.volume_path else file_system_stats req.volume_path)
