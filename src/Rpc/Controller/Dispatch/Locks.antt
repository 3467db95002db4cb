-- ===== src/Rpc/Controller/Dispatch/Locks.antt =====
-- Each handler of pkg/disk/rpcserver/controllerserver.go gives back the locks that it takes.
use zenlayer_cloud_csi_drive.Prelude.{◌≡◌, refl, ◌∙◌, Option, none, some, List, [], ◌∷◌, Text}
use zenlayer_cloud_csi_drive.Driver.StorageClass.{ZecStorageClass}
use zenlayer_cloud_csi_drive.Cloud.Types.{ZecVolume, ZecVolumeSnap}
use zenlayer_cloud_csi_drive.Cloud.Lookup.{Lookup, absent, found, conflict, failed}
use zenlayer_cloud_csi_drive.Rpc.State.{Server, Rpc, respond}
use zenlayer_cloud_csi_drive.Rpc.State.Locks.{
  KeepsLocks, KeepsLocks-bind, KeepsLocks-respond, keeps_locks,
}
use zenlayer_cloud_csi_drive.Rpc.Placement.{TopologyRequirement}
use zenlayer_cloud_csi_drive.Rpc.Requests.{
  ContentSource, from_snapshot, from_volume, unset, CreateVolumeRequest, PublishRequest,
  UnpublishRequest, ExpandRequest, CreateSnapshotRequest, ValidateRequest,
}
use zenlayer_cloud_csi_drive.Rpc.Controller.Server as Server
use zenlayer_cloud_csi_drive.Rpc.Controller.Server.{
  ControllerServer, delete_parsed, check_capability,
}
use zenlayer_cloud_csi_drive.Rpc.Controller.Create as Create
use zenlayer_cloud_csi_drive.Rpc.Controller.Create.{
  Plan, picked, place, plan, reuse, created, create_empty, restore, create_from_snapshot, make,
  settle, find_by_name, provision,
}
use zenlayer_cloud_csi_drive.Rpc.Controller.Attach.{
  controller_publish_volume, controller_unpublish_volume, attach, attach_to, publish_locked,
  detach_from, unpublish_locked, unpublish_parsed,
}
use zenlayer_cloud_csi_drive.Rpc.Controller.Expand.{
  controller_expand_volume, expand_locked, expand_to, resize,
}
use zenlayer_cloud_csi_drive.Rpc.Controller.Snapshots as Snapshots
use zenlayer_cloud_csi_drive.Rpc.Controller.Snapshots.{
  take_snapshot, settle_snapshot, find_snapshot_named, snapshot_locked, delete_found, delete_locked,
}
use zenlayer_cloud_csi_drive.Rpc.Controller.Dispatch.{
  Request, create, remove, publish, unpublish, expand, create_snap, remove_snap, validate, Response,
  answer_with, handle, serve,
}

module _ {W : Type 0} (cs : ControllerServer W) where
  KeepsLocks-delete_parsed : (p : Option (Text × Text)) → KeepsLocks (delete_parsed cs p)
  unfolding delete_parsed
  KeepsLocks-delete_parsed none = search keeps_locks
  KeepsLocks-delete_parsed (some (id, serial)) = search keeps_locks

  KeepsLocks-delete_volume : (id : Text) → KeepsLocks (Server.delete_volume cs id)
  unfolding Server.delete_volume check_capability
  KeepsLocks-delete_volume id = search (keeps_locks, KeepsLocks-delete_parsed)

  KeepsLocks-validate :
      (req : ValidateRequest) → KeepsLocks (Server.validate_volume_capabilities cs req)
  unfolding Server.validate_volume_capabilities
  KeepsLocks-validate req = search keeps_locks depth 20

  KeepsLocks-attach_to : (id vm i : Text) → KeepsLocks (attach_to cs id vm i)
  unfolding attach_to attach
  KeepsLocks-attach_to id vm i = search keeps_locks

  KeepsLocks-publish : (req : PublishRequest) → KeepsLocks (controller_publish_volume cs req)
  unfolding controller_publish_volume check_capability publish_locked
  KeepsLocks-publish req = search (keeps_locks, KeepsLocks-attach_to) depth 20

  KeepsLocks-detach_from :
      (id vm : Text) (v : Option ZecVolume) → KeepsLocks (detach_from cs id vm v)
  unfolding detach_from
  KeepsLocks-detach_from id vm none = search keeps_locks
  KeepsLocks-detach_from id vm (some v) = search keeps_locks depth 20

  KeepsLocks-unpublish_parsed :
      (vm : Text) (p : Option (Text × Text)) → KeepsLocks (unpublish_parsed cs vm p)
  unfolding unpublish_parsed unpublish_locked
  KeepsLocks-unpublish_parsed vm none = search keeps_locks
  KeepsLocks-unpublish_parsed vm (some (id, serial)) =
      search (keeps_locks, KeepsLocks-detach_from) depth 20

  KeepsLocks-unpublish : (req : UnpublishRequest) → KeepsLocks (controller_unpublish_volume cs req)
  unfolding controller_unpublish_volume check_capability
  KeepsLocks-unpublish req = search (keeps_locks, KeepsLocks-unpublish_parsed) depth 20

  KeepsLocks-expand : (req : ExpandRequest) → KeepsLocks (controller_expand_volume cs req)
  unfolding controller_expand_volume check_capability expand_locked expand_to resize
  KeepsLocks-expand req = search keeps_locks depth 30

  KeepsLocks-take_snapshot :
      (req : CreateSnapshotRequest) (src : Text) (v : ZecVolume)
      → KeepsLocks (take_snapshot cs req src v)
  unfolding take_snapshot
  KeepsLocks-take_snapshot req src v = search keeps_locks depth 20

  KeepsLocks-settle_snapshot :
      (req : CreateSnapshotRequest) (src : Text) (v : ZecVolume) (l : Lookup ZecVolumeSnap)
      → KeepsLocks (settle_snapshot cs req src v l)
  unfolding settle_snapshot
  KeepsLocks-settle_snapshot req src v absent = KeepsLocks-take_snapshot req src v
  KeepsLocks-settle_snapshot req src v (found s) = search keeps_locks
  KeepsLocks-settle_snapshot req src v (conflict s) = search keeps_locks
  KeepsLocks-settle_snapshot req src v (failed e) = search keeps_locks

  KeepsLocks-find_snapshot_named :
      (req : CreateSnapshotRequest) (src : Text) (v : ZecVolume)
      → KeepsLocks (find_snapshot_named cs req src v)
  unfolding find_snapshot_named
  KeepsLocks-find_snapshot_named req src v = record { at = λ s. refl }

  KeepsLocks-create_snapshot :
      (req : CreateSnapshotRequest) → KeepsLocks (Snapshots.create_snapshot cs req)
  unfolding Snapshots.create_snapshot check_capability snapshot_locked
  KeepsLocks-create_snapshot req =
      search (keeps_locks, KeepsLocks-settle_snapshot, KeepsLocks-find_snapshot_named) depth 30

  KeepsLocks-delete_found :
      (id : Text) (s : Option ZecVolumeSnap) → KeepsLocks (delete_found cs id s)
  unfolding delete_found
  KeepsLocks-delete_found id none = search keeps_locks
  KeepsLocks-delete_found id (some s) = search keeps_locks

  KeepsLocks-delete_snapshot : (id : Text) → KeepsLocks (Snapshots.delete_snapshot cs id)
  unfolding Snapshots.delete_snapshot check_capability delete_locked
  KeepsLocks-delete_snapshot id = search (keeps_locks, KeepsLocks-delete_found) depth 20

  KeepsLocks-place :
      (sc : ZecStorageClass) (ps : List (Text × Text)) (r : Option TopologyRequirement)
      → KeepsLocks (place cs sc ps r)
  unfolding place picked
  KeepsLocks-place sc ps r = search keeps_locks depth 20

  KeepsLocks-plan : (req : CreateVolumeRequest) → KeepsLocks (plan cs req)
  unfolding plan
  KeepsLocks-plan req = search (keeps_locks, KeepsLocks-place) depth 20

  KeepsLocks-created :
      (p : Plan) (c : Option ContentSource) (id : Text) → KeepsLocks (created cs p c id)
  unfolding created
  KeepsLocks-created p c id = search keeps_locks depth 20

  KeepsLocks-make :
      (req : CreateVolumeRequest) (p : Plan) (c : Option ContentSource)
      → KeepsLocks (make cs req p c)
  unfolding make create_empty create_from_snapshot check_capability restore
  KeepsLocks-make req p none = search (keeps_locks, KeepsLocks-created) depth 20
  KeepsLocks-make req p (some (from_snapshot snap)) =
      search (keeps_locks, KeepsLocks-created) depth 30
  KeepsLocks-make req p (some (from_volume vol)) = search keeps_locks
  KeepsLocks-make req p (some unset) = search keeps_locks

  KeepsLocks-settle :
      (req : CreateVolumeRequest) (p : Plan) (l : Lookup ZecVolume) → KeepsLocks (settle cs req p l)
  unfolding settle reuse
  KeepsLocks-settle req p absent = KeepsLocks-make req p req.content_source
  KeepsLocks-settle req p (found v) = search keeps_locks depth 20
  KeepsLocks-settle req p (conflict v) = search keeps_locks
  KeepsLocks-settle req p (failed e) = search keeps_locks

  KeepsLocks-find_by_name :
      (req : CreateVolumeRequest) (p : Plan) → KeepsLocks (find_by_name cs req p)
  unfolding find_by_name
  KeepsLocks-find_by_name req p = record { at = λ s. refl }

  pub KeepsLocks-create_volume :
      (req : CreateVolumeRequest) → KeepsLocks (Create.create_volume cs req)
  unfolding Create.create_volume check_capability provision
  KeepsLocks-create_volume req =
      search (keeps_locks, KeepsLocks-plan, KeepsLocks-find_by_name, KeepsLocks-settle) depth 30

  KeepsLocks-answer_with :
      {A : Type 0} → (f : A → Response) (m : Rpc W A) → KeepsLocks m → KeepsLocks (answer_with f m)
  KeepsLocks-answer_with f m k =
      KeepsLocks-bind m (λ a. respond (f a)) k (λ a. KeepsLocks-respond (f a))

  KeepsLocks-handle : (r : Request) → KeepsLocks (handle cs r)
  unfolding handle
  KeepsLocks-handle (create req) = KeepsLocks-answer_with _ _ (KeepsLocks-create_volume req)
  KeepsLocks-handle (remove id) = KeepsLocks-answer_with _ _ (KeepsLocks-delete_volume id)
  KeepsLocks-handle (publish req) = KeepsLocks-answer_with _ _ (KeepsLocks-publish req)
  KeepsLocks-handle (unpublish req) = KeepsLocks-answer_with _ _ (KeepsLocks-unpublish req)
  KeepsLocks-handle (expand req) = KeepsLocks-answer_with _ _ (KeepsLocks-expand req)
  KeepsLocks-handle (create_snap req) = KeepsLocks-answer_with _ _ (KeepsLocks-create_snapshot req)
  KeepsLocks-handle (remove_snap id) = KeepsLocks-answer_with _ _ (KeepsLocks-delete_snapshot id)
  KeepsLocks-handle (validate req) = KeepsLocks-answer_with _ _ (KeepsLocks-validate req)

-- After any sequence of requests to the controller service, whatever each answers, the locks are
-- those of before it: no branch of a handler leaves a lock behind or releases a lock of another.
pub serve-locks :
    {W : Type 0}
    → (cs : ControllerServer W) (rs : List Request) (s : Server W)
    → (serve cs rs s).1.locks ≡ s.locks
unfolding serve
serve-locks cs [] s = refl
serve-locks cs (r ∷ rs) s = serve-locks cs rs (handle cs r s).1 ∙ (KeepsLocks-handle cs r).at s
