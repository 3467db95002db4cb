-- ===== src/Rpc/Node/Dispatch.antt =====
-- The requests that reach the node service of pkg/disk/rpcserver/nodeserver.go.
pub mod Locks
use zenlayer_cloud_csi_drive.Prelude.{List, [], ◌∷◌, Option, ℤ}
use zenlayer_cloud_csi_drive.Prelude.Result.{Result}
use zenlayer_cloud_csi_drive.Driver.Capability.{NodeRpc}
use zenlayer_cloud_csi_drive.Rpc.State.{Server, Rpc, Code, respond, ◌>>=◌}
use zenlayer_cloud_csi_drive.Rpc.Node.Requests.{
  NodePublishRequest, NodeCleanupRequest, NodeStageRequest, NodeExpandRequest, NodeStatsRequest,
  NodeInfo, VolumeUsage,
}
use zenlayer_cloud_csi_drive.Rpc.Node.Server.{NodeServer}
use zenlayer_cloud_csi_drive.Rpc.Node.Publish.{node_publish_volume, node_unpublish_volume}
use zenlayer_cloud_csi_drive.Rpc.Node.Stage.{node_stage_volume, node_unstage_volume}
use zenlayer_cloud_csi_drive.Rpc.Node.Expand.{node_expand_volume}
use zenlayer_cloud_csi_drive.Rpc.Node.Info.{
  node_get_info, node_get_capabilities, node_get_volume_stats,
}

pub data NodeRequest : Type 0 where
  node_stage : NodeStageRequest → NodeRequest
  node_unstage : NodeCleanupRequest → NodeRequest
  node_publish : NodePublishRequest → NodeRequest
  node_unpublish : NodeCleanupRequest → NodeRequest
  node_expand : NodeExpandRequest → NodeRequest
  node_stats : NodeStatsRequest → NodeRequest
  node_info node_capabilities : NodeRequest

pub data NodeResponse : Type 0 where
  nothing : NodeResponse
  expanded_to : Option ℤ → NodeResponse
  usage : VolumeUsage → NodeResponse
  about_node : NodeInfo → NodeResponse
  capabilities : List NodeRpc → NodeResponse

abbrev pub reply_with : {W A : Type 0} → (A → NodeResponse) → Rpc W A → Rpc W NodeResponse
reply_with f m = m >>= λ a. respond (f a)

-- The handler that a request is sent to.
unfoldable pub handle_node : {W : Type 0} → NodeServer W → NodeRequest → Rpc W NodeResponse
unfolding node_publish_volume node_unpublish_volume node_stage_volume node_unstage_volume
    node_expand_volume node_get_info node_get_capabilities node_get_volume_stats
handle_node ns (node_stage req) = reply_with (λ u. nothing) (node_stage_volume ns req)
handle_node ns (node_unstage req) = reply_with (λ u. nothing) (node_unstage_volume ns req)
handle_node ns (node_publish req) = reply_with (λ u. nothing) (node_publish_volume ns req)
handle_node ns (node_unpublish req) = reply_with (λ u. nothing) (node_unpublish_volume ns req)
handle_node ns (node_expand req) = reply_with expanded_to (node_expand_volume ns req)
handle_node ns (node_stats req) = reply_with usage (node_get_volume_stats ns req)
handle_node ns node_info = reply_with about_node (node_get_info ns)
handle_node ns node_capabilities = reply_with capabilities (node_get_capabilities ns)

-- The server after a sequence of requests, and what it answered.
unfoldable pub serve_node :
    {W : Type 0}
    → NodeServer W
    → List NodeRequest
    → Server W
    → List (Result Code NodeResponse) × Server W
unfolding handle_node
serve_node ns [] s = ([], s)
serve_node ns (r ∷ rs) s =
    let (answer, after) = handle_node ns r s in
    let (answers, last) = serve_node ns rs after in (answer ∷ answers, last)
