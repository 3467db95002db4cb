-- ===== src/Rpc/Node/Dispatch/Locks.antt =====
-- Each handler of pkg/disk/rpcserver/nodeserver.go gives back the locks that it takes.
use zenlayer_cloud_csi_drive.Prelude.{
  ◌≡◌, refl, ◌∙◌, Bool, Option, none, some, List, [], ◌∷◌, Text, ℤ, arith,
}
use zenlayer_cloud_csi_drive.Driver.Capability.{VolumeCapability, MountVolume}
use zenlayer_cloud_csi_drive.Rpc.State.{Server, Rpc, respond}
use zenlayer_cloud_csi_drive.Rpc.State.Locks.{
  KeepsLocks, KeepsLocks-bind, KeepsLocks-respond, keeps_locks,
}
use zenlayer_cloud_csi_drive.Rpc.Node.Requests.{
  NodePublishRequest, NodeCleanupRequest, NodeStageRequest, NodeExpandRequest, NodeStatsRequest,
}
use zenlayer_cloud_csi_drive.Rpc.Node.Server.{NodeServer}
use zenlayer_cloud_csi_drive.Rpc.Node.Publish.{
  node_publish_volume, node_unpublish_volume, publish_locked, source_of, bind_mount,
}
use zenlayer_cloud_csi_drive.Rpc.Node.Stage.{
  node_stage_volume, node_unstage_volume, check_stage, stage_parsed, stage_locked, unless_mounted,
  mount_device, format_and_grow,
}
use zenlayer_cloud_csi_drive.Rpc.Node.Expand.{
  node_expand_volume, block_mode_of, expand_locked, expand_parsed, expand_file_system,
}
use zenlayer_cloud_csi_drive.Rpc.Node.Info.{
  node_get_info, node_get_capabilities, node_get_volume_stats, block_stats, file_system_stats,
}
use zenlayer_cloud_csi_drive.Rpc.Node.Dispatch.{
  NodeRequest, node_stage, node_unstage, node_publish, node_unpublish, node_expand, node_stats,
  node_info, node_capabilities, NodeResponse, reply_with, handle_node, serve_node,
}

module _ {W : Type 0} (ns : NodeServer W) where
  KeepsLocks-source_of :
      (req : NodePublishRequest) (cap : VolumeCapability) (serial : Text)
      → KeepsLocks (source_of ns req cap serial)
  unfolding source_of
  KeepsLocks-source_of req cap serial = search keeps_locks

  KeepsLocks-bind_mount :
      (req : NodePublishRequest) (cap : VolumeCapability) (source : Text) (there : Bool)
      → KeepsLocks (bind_mount ns req cap source there)
  unfolding bind_mount
  KeepsLocks-bind_mount req cap source there = search keeps_locks

  KeepsLocks-node_publish : (req : NodePublishRequest) → KeepsLocks (node_publish_volume ns req)
  unfolding node_publish_volume publish_locked
  KeepsLocks-node_publish req =
      search (keeps_locks, KeepsLocks-source_of, KeepsLocks-bind_mount) depth 30

  KeepsLocks-node_unpublish : (req : NodeCleanupRequest) → KeepsLocks (node_unpublish_volume ns req)
  unfolding node_unpublish_volume
  KeepsLocks-node_unpublish req = search keeps_locks depth 20

  KeepsLocks-unless_mounted :
      (req : NodeStageRequest) (m : MountVolume) (serial : Text) (absent : Bool)
      → KeepsLocks (unless_mounted ns req m serial absent)
  unfolding unless_mounted mount_device format_and_grow
  KeepsLocks-unless_mounted req m serial absent = search keeps_locks depth 20

  KeepsLocks-stage_parsed :
      (req : NodeStageRequest) (cap : VolumeCapability) (p : Text × Text)
      → KeepsLocks (stage_parsed ns req cap p)
  unfolding stage_parsed stage_locked
  KeepsLocks-stage_parsed req cap (id, serial) =
      search (keeps_locks, KeepsLocks-unless_mounted) depth 30

  KeepsLocks-node_stage : (req : NodeStageRequest) → KeepsLocks (node_stage_volume ns req)
  unfolding node_stage_volume check_stage
  KeepsLocks-node_stage req = search (keeps_locks, KeepsLocks-stage_parsed) depth 30

  KeepsLocks-node_unstage : (req : NodeCleanupRequest) → KeepsLocks (node_unstage_volume ns req)
  unfolding node_unstage_volume check_stage
  KeepsLocks-node_unstage req = search keeps_locks depth 20

  KeepsLocks-block_mode_of :
      (path : Text) (cap : Option VolumeCapability) → KeepsLocks (block_mode_of ns path cap)
  unfolding block_mode_of
  KeepsLocks-block_mode_of path none = search keeps_locks
  KeepsLocks-block_mode_of path (some cap) = search keeps_locks

  KeepsLocks-expand_parsed :
      (req : NodeExpandRequest) (size : ℤ) (p : Text × Text)
      → KeepsLocks (expand_parsed ns req size p)
  unfolding expand_parsed expand_locked
  KeepsLocks-expand_parsed req size (id, serial) = search keeps_locks depth 30

  KeepsLocks-expand_file_system : (req : NodeExpandRequest) → KeepsLocks (expand_file_system ns req)
  unfolding expand_file_system
  KeepsLocks-expand_file_system req = search (keeps_locks, KeepsLocks-expand_parsed) depth 30

  KeepsLocks-node_expand : (req : NodeExpandRequest) → KeepsLocks (node_expand_volume ns req)
  unfolding node_expand_volume
  KeepsLocks-node_expand req =
      search (keeps_locks, KeepsLocks-block_mode_of, KeepsLocks-expand_file_system) depth 30

  KeepsLocks-node_stats : (req : NodeStatsRequest) → KeepsLocks (node_get_volume_stats ns req)
  unfolding node_get_volume_stats block_stats file_system_stats
  KeepsLocks-node_stats req = search keeps_locks depth 30

  KeepsLocks-reply_with :
      {A : Type 0}
      → (f : A → NodeResponse) (m : Rpc W A) → KeepsLocks m
      → KeepsLocks (reply_with f m)
  KeepsLocks-reply_with f m k =
      KeepsLocks-bind m (λ a. respond (f a)) k (λ a. KeepsLocks-respond (f a))

  KeepsLocks-handle_node : (r : NodeRequest) → KeepsLocks (handle_node ns r)
  unfolding handle_node node_get_info node_get_capabilities
  KeepsLocks-handle_node (node_stage req) = KeepsLocks-reply_with _ _ (KeepsLocks-node_stage req)
  KeepsLocks-handle_node (node_unstage req) =
      KeepsLocks-reply_with _ _ (KeepsLocks-node_unstage req)
  KeepsLocks-handle_node (node_publish req) =
      KeepsLocks-reply_with _ _ (KeepsLocks-node_publish req)
  KeepsLocks-handle_node (node_unpublish req) =
      KeepsLocks-reply_with _ _ (KeepsLocks-node_unpublish req)
  KeepsLocks-handle_node (node_expand req) = KeepsLocks-reply_with _ _ (KeepsLocks-node_expand req)
  KeepsLocks-handle_node (node_stats req) = KeepsLocks-reply_with _ _ (KeepsLocks-node_stats req)
  KeepsLocks-handle_node node_info = record { at = λ s. ground arith }
  KeepsLocks-handle_node node_capabilities = record { at = λ s. refl }

-- After any sequence of requests to the node service, whatever each answers, the locks are those of
-- before it: no branch of a handler leaves a lock behind or releases a lock of another.
pub serve_node-locks :
    {W : Type 0}
    → (ns : NodeServer W) (rs : List NodeRequest) (s : Server W)
    → (serve_node ns rs s).1.locks ≡ s.locks
unfolding serve_node
serve_node-locks ns [] s = refl
serve_node-locks ns (r ∷ rs) s =
    serve_node-locks ns rs (handle_node ns r s).1 ∙ (KeepsLocks-handle_node ns r).at s
