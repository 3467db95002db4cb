-- ===== src/Rpc/Controller/Snapshots/Laws.antt =====
-- The snapshots that CreateSnapshot answers with, and those that DeleteSnapshot leaves.
use zenlayer_cloud_csi_drive.Prelude.{
  ◌≡◌, refl, ap, ◌∙◌, sym, subst, not, Option, none, some, inl, inr, ◌⊎◌, arith, Text, str_eq,
  str_eq_iff, is_empty, leb, length, Bool-cases,
}
use zenlayer_cloud_csi_drive.Prelude.Result.{ok}
use zenlayer_cloud_csi_drive.Common.VolumeId.{parse_csi_vol_id}
use zenlayer_cloud_csi_drive.Driver.Capability.{
  create_delete_snapshot, validate_controller_service_request,
}
use zenlayer_cloud_csi_drive.Cloud.Exec.{CloudError}
use zenlayer_cloud_csi_drive.Cloud.Types.{ZecVolume, ZecVolumeSnap}
use zenlayer_cloud_csi_drive.Cloud.Lookup.{Lookup, absent, found, conflict, failed}
use zenlayer_cloud_csi_drive.Cloud.Snapshots.Contract.{IsFaithfulSnapshots, IsReadyOf}
use zenlayer_cloud_csi_drive.Rpc.State.{
  Server, ◌>>=◌, invalid_argument, not_found, internal, unimplemented,
}
use zenlayer_cloud_csi_drive.Rpc.State.Runs.{
  require-eq-ok, some_or-eq-ok, on_world-eq-ok, on_world_last, with_lock-eq-ok,
}
use zenlayer_cloud_csi_drive.Rpc.Requests.{CreateSnapshotRequest, Snapshot}
use zenlayer_cloud_csi_drive.Rpc.Controller.Server.{ControllerServer, check_capability}
use zenlayer_cloud_csi_drive.Rpc.Controller.Snapshots.{
  snapshot_response, take_snapshot, settle_snapshot, find_snapshot_named, snapshot_locked,
  create_snapshot, delete_found, delete_locked, delete_snapshot,
}

-- A lookup is absent, found, or makes the handler fail.
Lookup-cases :
    (l : Lookup ZecVolumeSnap)
    → (l ≡ absent)
      ⊎ (((s : ZecVolumeSnap) × (l ≡ found s))
          ⊎ (((s : ZecVolumeSnap) × (l ≡ conflict s)) ⊎ ((e : CloudError) × (l ≡ failed e))))
Lookup-cases absent = inl refl
Lookup-cases (found s) = inr (inl (s, refl))
Lookup-cases (conflict s) = inr (inr (inl (s, refl)))
Lookup-cases (failed e) = inr (inr (inr (e, refl)))

-- What CreateSnapshot answers for a disk: either a snapshot that is there, AVAILABLE and of the disk,
-- or one of the disk that the lookup of the name has found.
pub record Taken {W : Type 0} (cs : ControllerServer W) (snapshot : W → Text → Option ZecVolumeSnap)
    (req : CreateSnapshotRequest) (disk : Text) (r : Snapshot) (w : W) : Type 0 where
  pub source : r.source_volume_id ≡ disk
  pub there :
      IsReadyOf disk r.snapshot_id (snapshot w r.snapshot_id)
      ⊎ ((zone : Text) × (group : Text) × (u : W) × (s : ZecVolumeSnap) × (r.snapshot_id ≡ s.id)
          × (cs.cloud.find_snapshot_by_name req.name disk zone group u ≡ (found s, w)))

module _ {W : Type 0} (cs : ControllerServer W) (snapshot : W → Text → Option ZecVolumeSnap)
    (f : IsFaithfulSnapshots cs.cloud snapshot) (req : CreateSnapshotRequest) (disk : Text) where
  take-Taken :
      (v : ZecVolume) (s : Server W) {r : Snapshot} {s' : Server W}
      → take_snapshot cs req disk v s ≡ (ok r, s')
      → Taken cs snapshot req disk r s'.world
  unfolding take_snapshot snapshot_response
  take-Taken v s {r} {s'} h =
      let (id, created, h1) =
        on_world-eq-ok internal (cs.cloud.create_snapshot req.name disk) _ s h in
      let w = (cs.cloud.create_snapshot req.name disk s.world).1 in
      let (o, read, h2) = on_world-eq-ok internal (cs.cloud.find_snapshot id) _ _ h1 in
      let (t, there, h3) = some_or-eq-ok internal o _ _ h2 in
      let w' = (cs.cloud.find_snapshot id w).1 in
      let (same, told) = f.finds id w o w' read in
      let (u, here, named, of, status) = f.creates req.name disk id s.world w created in
      let found_it : t ≡ u = ground (arith, there, told, here) in
      let is_id : r.snapshot_id ≡ id = ground (arith, h3, found_it, named) in
      let world : s'.world ≡ w = ground (arith, h3, same) in
      record {
        source = ground (arith, h3, found_it, of);
        there = inl (u, rw (is_id, world) here, named ∙ sym is_id, of, status);
      }

  settle-Taken :
      (v : ZecVolume) (s : Server W) {r : Snapshot} {s' : Server W}
      → (find_snapshot_named cs req disk v >>= settle_snapshot cs req disk v) s ≡ (ok r, s')
      → Taken cs snapshot req disk r s'.world
  unfolding find_snapshot_named settle_snapshot snapshot_response
  settle-Taken v s {r} {s'} h =
      let l = cs.cloud.find_snapshot_by_name req.name disk v.zone v.resource_group_id s.world in
      elim (Lookup-cases l.0) [
        | inl e ↦ take-Taken v (record s { world = l.1 }) {r = r} {s' = s'} (ground (arith, e, h))
        | inr (inl (t, e)) ↦ elim (Bool-cases (str_eq t.src_disk_id disk)) [
          | inl of ↦ record {
            source = ground (arith, e, of, h, str_eq_iff t.src_disk_id disk);
            there = inr (
              v.zone,
              v.resource_group_id,
              s.world,
              t,
              ground (arith, e, of, h),
              ground (arith, e, of, h),
            );
          }
          | inr other ↦ absurd (ground (arith, e, other, h))
        ]
        | inr (inr (inl (c, e))) ↦ absurd (ground (arith, e, h))
        | inr (inr (inr (c, e))) ↦ absurd (ground (arith, e, h))
      ]

-- For a cloud manager that keeps the contract IsFaithfulSnapshots: if CreateSnapshot answers with a
-- snapshot, the identifier of the request is one of the driver, and the snapshot is of the disk that it
-- names; it is one that is now in the cloud, AVAILABLE, or one that the lookup of the name found.
pub create_snapshot-Taken :
    {W : Type 0}
    → (cs : ControllerServer W) (snapshot : W → Text → Option ZecVolumeSnap)
      (req : CreateSnapshotRequest) (s s' : Server W) (r : Snapshot)
    → IsFaithfulSnapshots cs.cloud snapshot
    → create_snapshot cs req s ≡ (ok r, s')
    → (disk : Text) × (serial : Text) × (parse_csi_vol_id req.source_volume_id
        ≡ some (disk, serial))
      × Taken cs snapshot req disk r s'.world
unfolding create_snapshot check_capability snapshot_locked
create_snapshot-Taken cs snapshot req s s' r f h =
    let (b0, h0) =
      require-eq-ok (validate_controller_service_request cs.driver create_delete_snapshot)
        unimplemented _ s h in
    let (b1, h1) = require-eq-ok (not (is_empty req.source_volume_id)) invalid_argument _ s h0 in
    let (b2, h2) = require-eq-ok (not (is_empty req.name)) invalid_argument _ s h1 in
    let (b3, h3) = require-eq-ok (leb (length req.name) 64) invalid_argument _ s h2 in
    let ((disk, serial), p, h4) =
      some_or-eq-ok not_found (parse_csi_vol_id req.source_volume_id) _ s h3 in
    let (l, t, run, world) = with_lock-eq-ok disk (snapshot_locked cs req disk) s h4 in
    let (o, read, h5) = on_world-eq-ok internal (cs.cloud.find_volume disk) _ _ run in
    let (v, there, h6) = some_or-eq-ok not_found o _ _ h5 in
    let (able, h7) = require-eq-ok v.snapshot_ability internal _ _ h6 in
    (
      disk,
      serial,
      p,
      subst (Taken cs snapshot req disk r) world (settle-Taken cs snapshot f req disk v _ h7),
    )

delete_found-gone :
    {W : Type 0} (cs : ControllerServer W) (snapshot : W → Text → Option ZecVolumeSnap)
    (f : IsFaithfulSnapshots cs.cloud snapshot) (id : Text) (o : Option ZecVolumeSnap)
    (s : Server W) {s' : Server W}
    → o ≡ snapshot s.world id
    → delete_found cs id o s ≡ (ok tt, s')
    → snapshot s'.world id ≡ none
unfolding delete_found
delete_found-gone cs snapshot f id none s e h = ground (arith, e, h)
delete_found-gone cs snapshot f id (some t) s {s'} e h =
    f.deletes id s.world s'.world (on_world_last internal (cs.cloud.delete_snapshot id) s h)

-- For a cloud manager that keeps the contract IsFaithfulSnapshots: if DeleteSnapshot answers without an
-- error, the snapshot is not in the cloud.
pub delete_snapshot-deleted :
    {W : Type 0}
    → (cs : ControllerServer W) (snapshot : W → Text → Option ZecVolumeSnap) (id : Text)
      (s s' : Server W)
    → IsFaithfulSnapshots cs.cloud snapshot
    → delete_snapshot cs id s ≡ (ok tt, s')
    → snapshot s'.world id ≡ none
unfolding delete_snapshot check_capability delete_locked
delete_snapshot-deleted cs snapshot id s s' f h =
    let (b0, h0) =
      require-eq-ok (validate_controller_service_request cs.driver create_delete_snapshot)
        unimplemented _ s h in
    let (b1, h1) = require-eq-ok (not (is_empty id)) invalid_argument _ s h0 in
    let (l, t, run, world) = with_lock-eq-ok id (delete_locked cs id) s h1 in
    let (o, read, h2) = on_world-eq-ok internal (cs.cloud.find_snapshot id) _ _ run in
    let (same, told) = f.finds id s.world o _ read in
    subst (λ w. snapshot w id ≡ none) world
      (delete_found-gone cs snapshot f id o _ (told ∙ ap (λ w. snapshot w id) (sym same)) h2)
