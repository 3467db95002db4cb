-- ===== src/Rpc/Controller/Dispatch.antt =====
-- The requests that reach the controller service of pkg/disk/rpcserver/controllerserver.go.
pub mod Locks
pub mod Pending
use zenlayer_cloud_csi_drive.Prelude.{Bool, List, [], ◌∷◌, Option, Text}
use zenlayer_cloud_csi_drive.Prelude.Result.{Result, ok, err}
use zenlayer_cloud_csi_drive.Rpc.State.{Server, Rpc, Code, respond, proceed, ◌>>=◌}
use zenlayer_cloud_csi_drive.Rpc.Requests.{
  CreateVolumeRequest, Volume, PublishRequest, UnpublishRequest, ExpandRequest, ExpandResponse,
  CreateSnapshotRequest, Snapshot, ValidateRequest, Confirmed,
}
use zenlayer_cloud_csi_drive.Rpc.Controller.Server as Server
use zenlayer_cloud_csi_drive.Rpc.Controller.Server.{ControllerServer}
use zenlayer_cloud_csi_drive.Rpc.Controller.Create as Create
use zenlayer_cloud_csi_drive.Rpc.Controller.Attach.{
  controller_publish_volume, controller_unpublish_volume,
}
use zenlayer_cloud_csi_drive.Rpc.Controller.Expand.{controller_expand_volume}
use zenlayer_cloud_csi_drive.Rpc.Controller.Snapshots as Snapshots

pub data Request : Type 0 where
  create : CreateVolumeRequest → Request
  remove : Text → Request
  publish : PublishRequest → Request
  unpublish : UnpublishRequest → Request
  expand : ExpandRequest → Request
  create_snap : CreateSnapshotRequest → Request
  remove_snap : Text → Request
  validate : ValidateRequest → Request

pub data Response : Type 0 where
  empty : Response
  volume : Volume → Response
  capacity : ExpandResponse → Response
  snapshot : Snapshot → Response
  verdict : Option Confirmed → Response

abbrev pub answer_with : {W A : Type 0} → (A → Response) → Rpc W A → Rpc W Response
answer_with f m = m >>= λ a. respond (f a)

-- The handler that a request is sent to.
unfoldable pub handle : {W : Type 0} → ControllerServer W → Request → Rpc W Response
unfolding Create.create_volume Server.delete_volume controller_publish_volume
    controller_unpublish_volume controller_expand_volume Snapshots.create_snapshot
    Snapshots.delete_snapshot Server.validate_volume_capabilities
handle cs (create req) = answer_with volume (Create.create_volume cs req)
handle cs (remove id) = answer_with (λ u. empty) (Server.delete_volume cs id)
handle cs (publish req) = answer_with (λ u. empty) (controller_publish_volume cs req)
handle cs (unpublish req) = answer_with (λ u. empty) (controller_unpublish_volume cs req)
handle cs (expand req) = answer_with capacity (controller_expand_volume cs req)
handle cs (create_snap req) = answer_with snapshot (Snapshots.create_snapshot cs req)
handle cs (remove_snap id) = answer_with (λ u. empty) (Snapshots.delete_snapshot cs id)
handle cs (validate req) = answer_with verdict (Server.validate_volume_capabilities cs req)

-- The server after a sequence of requests, and what it answered.
unfoldable pub serve :
    {W : Type 0}
    → ControllerServer W
    → List Request
    → Server W
    → List (Result Code Response) × Server W
unfolding handle
serve cs [] s = ([], s)
serve cs (r ∷ rs) s =
    let answer = handle cs r s in let rest = serve cs rs answer.1 in (answer.0 ∷ rest.0, rest.1)
