-- ===== src/Rpc/Controller/Snapshots.antt =====
-- CreateSnapshot and DeleteSnapshot of pkg/disk/rpcserver/controllerserver.go. The snapshot class
-- is read and dropped, and reading it never fails, so it is left out.
pub mod Laws
use zenlayer_cloud_csi_drive.Prelude.{
  not, Option, none, some, Text, str_eq, is_empty, leb, length, if◌then◌else◌,
}
use zenlayer_cloud_csi_drive.Prelude.Result.{ok}
use zenlayer_cloud_csi_drive.Common.Calculator.{gib_to_byte}
use zenlayer_cloud_csi_drive.Common.VolumeId.{parse_csi_vol_id}
use zenlayer_cloud_csi_drive.Driver.Capability.{create_delete_snapshot}
use zenlayer_cloud_csi_drive.Cloud.Types.{ZecVolume, ZecVolumeSnap, snap_status_available}
use zenlayer_cloud_csi_drive.Cloud.Lookup.{Lookup, absent, found, conflict, failed}
use zenlayer_cloud_csi_drive.Rpc.State.{
  Rpc, respond, refuse, require, some_or, on_world, with_lock, ◌>>=◌, ◌>>◌, invalid_argument,
  not_found, internal, already_exists,
}
use zenlayer_cloud_csi_drive.Rpc.Requests.{CreateSnapshotRequest, Snapshot}
use zenlayer_cloud_csi_drive.Rpc.Controller.Server.{ControllerServer, check_capability}

-- The response for a snapshot of a volume.
unfoldable pub snapshot_response : ZecVolume → ZecVolumeSnap → Snapshot
snapshot_response v s = record {
  snapshot_id = s.id;
  source_volume_id = s.src_disk_id;
  ready_to_use = str_eq s.status snap_status_available;
  create_time = s.create_time;
  size_bytes = gib_to_byte v.size;
}

module _ {W : Type 0} (cs : ControllerServer W) where
  unfoldable pub take_snapshot : CreateSnapshotRequest → Text → ZecVolume → Rpc W Snapshot
  unfolding snapshot_response
  take_snapshot req src v = do
    new_id ← on_world internal (cs.cloud.create_snapshot req.name src)
    looked_up ← on_world internal (cs.cloud.find_snapshot new_id)
    s ← some_or internal looked_up
    respond (snapshot_response v s)

  -- By what the lookup of the name has found.
  unfoldable pub settle_snapshot :
      CreateSnapshotRequest → Text → ZecVolume → Lookup ZecVolumeSnap → Rpc W Snapshot
  unfolding take_snapshot
  settle_snapshot req src v absent = take_snapshot req src v
  settle_snapshot req src v (found s) =
      if str_eq s.src_disk_id src then respond (snapshot_response v s) else refuse already_exists
  settle_snapshot req src v (conflict s) = refuse already_exists
  settle_snapshot req src v (failed e) = refuse internal

  unfoldable pub find_snapshot_named :
      CreateSnapshotRequest → Text → ZecVolume → Rpc W (Lookup ZecVolumeSnap)
  find_snapshot_named req src v s =
      let r = cs.cloud.find_snapshot_by_name req.name src v.zone v.resource_group_id s.world in
      (ok r.0, record s { world = r.1 })

  -- With the lock on the source volume held.
  unfoldable pub snapshot_locked : CreateSnapshotRequest → Text → Rpc W Snapshot
  unfolding find_snapshot_named settle_snapshot
  snapshot_locked req src = do
    looked_up ← on_world internal (cs.cloud.find_volume src)
    v ← some_or not_found looked_up
    require v.snapshot_ability internal
    existing ← find_snapshot_named req src v
    settle_snapshot req src v existing

  unfoldable pub create_snapshot : CreateSnapshotRequest → Rpc W Snapshot
  unfolding check_capability with_lock snapshot_locked
  create_snapshot req = do
    check_capability cs create_delete_snapshot
    require (not (is_empty req.source_volume_id)) invalid_argument
    require (not (is_empty req.name)) invalid_argument
    require (leb (length req.name) 64) invalid_argument
    parts ← some_or not_found (parse_csi_vol_id req.source_volume_id)
    with_lock (parts.0) (snapshot_locked req (parts.0))

  unfoldable pub delete_found : Text → Option ZecVolumeSnap → Rpc W (Unit {0})
  delete_found id none = respond tt
  delete_found id (some s) = on_world internal (cs.cloud.delete_snapshot id)

  -- With the lock on the snapshot held.
  unfoldable pub delete_locked : Text → Rpc W (Unit {0})
  unfolding delete_found
  delete_locked id = do
    looked_up ← on_world internal (cs.cloud.find_snapshot id)
    delete_found id looked_up

  unfoldable pub delete_snapshot : Text → Rpc W (Unit {0})
  unfolding check_capability with_lock delete_locked
  delete_snapshot id = do
    check_capability cs create_delete_snapshot
    require (not (is_empty id)) invalid_argument
    with_lock id (delete_locked id)
