-- ===== src/Rpc/Controller/Dispatch/Pending.antt =====
-- Requests for a resource that another request is working on.
use zenlayer_cloud_csi_drive.Prelude.{
  ◌≡◌, true, not, is_empty, Option, none, some, arith, Text, inl, inr, Option-cases,
}
use zenlayer_cloud_csi_drive.Prelude.Result.{err}
use zenlayer_cloud_csi_drive.Common.Lock.{has}
use zenlayer_cloud_csi_drive.Common.VolumeId.{parse_csi_vol_id}
use zenlayer_cloud_csi_drive.Driver.Capability.{
  validate_controller_service_request, create_delete_volume, publish_unpublish_volume,
}
use zenlayer_cloud_csi_drive.Rpc.State.{Server, Code, unimplemented, invalid_argument}
use zenlayer_cloud_csi_drive.Rpc.State.Refusals.{
  Refuses, refuses, Refuses-bind, Refuses-with_lock, Refuses-require,
}
use zenlayer_cloud_csi_drive.Rpc.Requests.{
  CreateVolumeRequest, PublishRequest, UnpublishRequest, ExpandRequest, CreateSnapshotRequest,
}
use zenlayer_cloud_csi_drive.Rpc.Controller.Server.{
  ControllerServer, check_capability, delete_volume, delete_parsed,
}
use zenlayer_cloud_csi_drive.Rpc.Controller.Create.{create_volume}
use zenlayer_cloud_csi_drive.Rpc.Controller.Attach.{
  controller_publish_volume, controller_unpublish_volume, unpublish_parsed,
}
use zenlayer_cloud_csi_drive.Rpc.Controller.Expand.{controller_expand_volume}
use zenlayer_cloud_csi_drive.Rpc.Controller.Snapshots.{create_snapshot, delete_snapshot}
use zenlayer_cloud_csi_drive.Rpc.Controller.Dispatch.{
  Request, create, remove, publish, unpublish, expand, create_snap, remove_snap, validate, handle,
}

-- The disk of an identifier of the driver.
abbrev disk_of : Text → Option Text
disk_of id = elim (parse_csi_vol_id id) [ none ↦ none | some (disk, serial) ↦ some disk ]

-- The resource whose lock the handler of a request takes first: the disk that is named, the name of the
-- volume to create, or the snapshot to delete. CreateVolume from a snapshot takes the lock of the
-- snapshot later, once the name is known to be free.
abbrev pub resource_of : Request → Option Text
resource_of (create req) = some req.name
resource_of (remove id) = disk_of id
resource_of (publish req) = disk_of req.volume_id
resource_of (unpublish req) = disk_of req.volume_id
resource_of (expand req) = disk_of req.volume_id
resource_of (create_snap req) = disk_of req.source_volume_id
resource_of (remove_snap id) = some id
resource_of (validate req) = none

module _ {W : Type 0} (cs : ControllerServer W) (s : Server W) (k : Text)
    (taken : has k s.locks.locks ≡ true) where
  -- The lock on the disk of the identifier is taken.
  disk_taken :
      (id : Text) (parts : Text × Text)
      → disk_of id ≡ some k
      → parse_csi_vol_id id ≡ some parts
      → has (parts.0) s.locks.locks ≡ true
  disk_taken id parts e p = ground (arith, e, p, taken)

  delete_parsed_pending :
      (id : Text) → disk_of id ≡ some k → Refuses s (delete_parsed cs (parse_csi_vol_id id))
  unfolding delete_parsed
  delete_parsed_pending id e = elim (Option-cases (parse_csi_vol_id id)) [
    | inl no_ ↦ absurd (ground (arith, no_, e))
    | inr (parts, p) ↦ rw p (search (Refuses-with_lock, disk_taken id parts e p))
  ]

  delete_pending : (id : Text) → disk_of id ≡ some k → Refuses s (delete_volume cs id)
  unfolding delete_volume check_capability
  delete_pending id e =
      Refuses-require s (validate_controller_service_request cs.driver create_delete_volume)
        unimplemented _
        (Refuses-require s (not (is_empty id)) invalid_argument _ (delete_parsed_pending id e))

  publish_pending :
      (req : PublishRequest)
      → disk_of req.volume_id ≡ some k
      → Refuses s (controller_publish_volume cs req)
  unfolding controller_publish_volume check_capability
  publish_pending req e = search (refuses, disk_taken req.volume_id) depth 20

  expand_pending :
      (req : ExpandRequest)
      → disk_of req.volume_id ≡ some k
      → Refuses s (controller_expand_volume cs req)
  unfolding controller_expand_volume check_capability
  expand_pending req e = search (refuses, disk_taken req.volume_id) depth 20

  create_snapshot_pending :
      (req : CreateSnapshotRequest)
      → disk_of req.source_volume_id ≡ some k
      → Refuses s (create_snapshot cs req)
  unfolding create_snapshot check_capability
  create_snapshot_pending req e = search (refuses, disk_taken req.source_volume_id) depth 20

  delete_snapshot_pending :
      (id : Text) → has id s.locks.locks ≡ true → Refuses s (delete_snapshot cs id)
  unfolding delete_snapshot check_capability
  delete_snapshot_pending id e = search refuses depth 20

  create_pending :
      (req : CreateVolumeRequest)
      → has req.name s.locks.locks ≡ true
      → Refuses s (create_volume cs req)
  unfolding create_volume check_capability
  create_pending req e = search refuses depth 20

  unpublish_parsed_pending :
      (vm id : Text)
      → disk_of id ≡ some k
      → Refuses s (unpublish_parsed cs vm (parse_csi_vol_id id))
  unfolding unpublish_parsed
  unpublish_parsed_pending vm id e = elim (Option-cases (parse_csi_vol_id id)) [
    | inl no_ ↦ absurd (ground (arith, no_, e))
    | inr (parts, p) ↦ rw p (search (Refuses-with_lock, disk_taken id parts e p))
  ]

  unpublish_pending :
      (req : UnpublishRequest)
      → disk_of req.volume_id ≡ some k
      → Refuses s (controller_unpublish_volume cs req)
  unfolding controller_unpublish_volume check_capability
  unpublish_pending req e =
      let parsed = unpublish_parsed_pending req.node_id req.volume_id e in
      Refuses-require s (validate_controller_service_request cs.driver publish_unpublish_volume)
        unimplemented _
        (Refuses-require s (not (is_empty req.volume_id)) invalid_argument _
          (Refuses-require s (not (is_empty req.node_id)) invalid_argument _ parsed))

  handle_pending : (r : Request) → resource_of r ≡ some k → Refuses s (handle cs r)
  unfolding handle
  handle_pending (create req) e = Refuses-bind s _ _ (create_pending req (ground (arith, e, taken)))
  handle_pending (remove id) e = Refuses-bind s _ _ (delete_pending id e)
  handle_pending (publish req) e = Refuses-bind s _ _ (publish_pending req e)
  handle_pending (unpublish req) e = Refuses-bind s _ _ (unpublish_pending req e)
  handle_pending (expand req) e = Refuses-bind s _ _ (expand_pending req e)
  handle_pending (create_snap req) e = Refuses-bind s _ _ (create_snapshot_pending req e)
  handle_pending (remove_snap id) e =
      Refuses-bind s _ _ (delete_snapshot_pending id (ground (arith, e, taken)))
  handle_pending (validate req) e = absurd (ground (arith, e))

-- While the lock is held that the handler of a request takes first, the request is answered with an
-- error and changes nothing: neither the cloud nor the locks. This lock is that of the disk that
-- the request names, of the name of the volume to create, or of the snapshot to delete; the lock of the
-- source snapshot, which CreateVolume takes later, is not meant, and ValidateVolumeCapabilities takes
-- none.
pub pending_refused :
    {W : Type 0} (cs : ControllerServer W) (r : Request) (s : Server W) (k : Text)
    → resource_of r ≡ some k
    → has k s.locks.locks ≡ true
    → (c : Code) × (handle cs r s ≡ (err c, s))
pending_refused cs r s k e taken =
    let refused = handle_pending cs s k taken r e in (refused.code, refused.at)
