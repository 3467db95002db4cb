-- ===== src/Cloud/Snapshots/Outcome.antt =====
-- What the operations on a snapshot have seen in the cloud when they return without an error.
use zenlayer_cloud_csi_drive.Prelude.{
  ◌≡◌, subst, ◌∙◌, sym, inl, inr, true, ◌||◌, [], ◌∷◌, Option, none, some, arith, Text, pos, str_eq,
  str_eq_iff, is_empty, ◌≢◌, Option-cases, if◌then◌else◌,
}
use mathlib.Core.Option
use zenlayer_cloud_csi_drive.Prelude.Result.{Result, ok, err, Result-cases}
use zenlayer_cloud_csi_drive.Cloud.Exec.{
  CloudError, sdk, api, pure, lift, continue-eq-ok, args_error, refuse_if-eq-ok, ◌>>=◌, ◌>>◌,
}
use zenlayer_cloud_csi_drive.Cloud.Client.{
  DescribeSnapshotsParams, SnapshotInfo, ZecClient, ZecCloudManager, call, client, call-eq-ok,
  call-eq-err, client-bind, told-eq-ok,
}
use zenlayer_cloud_csi_drive.Cloud.Types.{
  ZecVolumeSnap, zec_volume_snap_of, snap_status_available, snap_status_deleted,
  invalid_disk_snapshot_not_found,
}
use zenlayer_cloud_csi_drive.Cloud.Wait.Laws.{wait_last}
use zenlayer_cloud_csi_drive.Cloud.Snapshots.{
  snapshot_by_id, one_snapshot, one_snap_status, no_snapshot_left, deletion, created_id,
  deletion_failed, find_snapshot, snap_available_job, snap_deleted_job, wait_snap_job,
  wait_disk_snap_status, create_snapshot, delete_snapshot,
}

-- The answer of DescribeSnapshots for one snapshot.
abbrev pub snapshot_answer : Option SnapshotInfo → DescribeSnapshotsParams
snapshot_answer none = record { total_count = some (pos 0); data_set = [] }
snapshot_answer (some d) = record { total_count = some (pos 1); data_set = some d ∷ [] }

-- `snap` is what the cloud holds, and `source` the disk that a snapshot is of, which never changes.
-- DescribeSnapshots for one snapshot, when it answers, tells this and changes nothing;
-- CreateSnapshot answers with a snapshot of the disk that it is asked for; DeleteSnapshots says "not
-- found" only of a snapshot that is not there.
pub record TellsSnapshots {W : Type 0} (c : ZecClient W) (snap : W → Text → Option SnapshotInfo)
    (source : Text → Text) : Type 0 where
  pub reads :
      (id : Text) (w : W) (p : DescribeSnapshotsParams) (w' : W)
      → c.describe_snapshots (snapshot_by_id id) w ≡ (ok (some p), w')
      → (w' ≡ w) × (p ≡ snapshot_answer (snap w id))
  pub holds :
      (id : Text) (w : W) (d : SnapshotInfo)
      → snap w id ≡ some d
      → (d.snapshot_id ≡ some id) × (d.disk_id ≡ some (source id))
  pub takes :
      (disk name id : Text) (w w' : W)
      → c.create_snapshot disk name w ≡ (ok (some (some id)), w')
      → source id ≡ disk
  pub not_found :
      (id : Text) (w w' : W)
      → c.delete_snapshots (id ∷ []) w ≡ (err (sdk invalid_disk_snapshot_not_found), w')
      → snap w' id ≡ none

-- The snapshot is there and AVAILABLE.
abbrev pub IsReady : Option SnapshotInfo → Type 0
IsReady o = (d : SnapshotInfo) × (o ≡ some d) × (d.status ≡ some snap_status_available)

snap_status-IsReady :
    (o : Option SnapshotInfo) (s : Text)
    → one_snap_status (some (snapshot_answer o)) ≡ ok s
    → str_eq s snap_status_available ≡ true
    → IsReady o
unfolding one_snap_status
snap_status-IsReady none s h e = ground arith
snap_status-IsReady (some d) s h e = elim (Option-cases d.status) [
  | inl g ↦ ground (arith, g)
  | inr (t, g) ↦ (d, ground arith, ground (arith, g, str_eq_iff s snap_status_available))
]

created_id-eq-ok :
    (o : Option (Option Text)) (id : Text) → created_id o ≡ ok id → o ≡ some (some id)
unfolding created_id
created_id-eq-ok none id h = ground arith
created_id-eq-ok (some none) id h = ground arith
created_id-eq-ok (some (some i)) id h = ground arith

deletion_failed-eq-ok :
    {W : Type 0} (e : CloudError) (w : W) {w' : W}
    → deletion_failed e w ≡ (ok tt, w')
    → (e ≡ api (sdk invalid_disk_snapshot_not_found)) × (w ≡ w')
unfolding deletion_failed
deletion_failed-eq-ok (api (sdk code)) w h =
    (ground (arith, str_eq_iff code invalid_disk_snapshot_not_found), ground arith)
deletion_failed-eq-ok e w h = (ground arith, ground arith)

module _ {W : Type 0} (c : ZecClient W) (snap : W → Text → Option SnapshotInfo)
    (source : Text → Text) (t : TellsSnapshots c snap source) (cm : ZecCloudManager W)
    (e : cm.zec_client ≡ some c) where
  snap_job-eq-ok :
      {A : Type 0} (k : Option DescribeSnapshotsParams → Result CloudError A) (id : Text) (w : W)
      {a : A} {w' : W}
      → (client cm >>= λ cl. call (cl.describe_snapshots (snapshot_by_id id)) >>= λ o. lift (k o)) w
        ≡ (ok a, w')
      → ((b : A) → k none ≢ ok b)
      → (w' ≡ w) × (k (some (snapshot_answer (snap w id))) ≡ ok a)
  snap_job-eq-ok k id w h bad =
      told-eq-ok (c.describe_snapshots (snapshot_by_id id)) k (snapshot_answer (snap w id)) w
        (t.reads id w) bad (sym (client-bind cm c _ w e) ∙ h)

  -- FindSnapshot, when it answers without an error, reads what the cloud holds, and changes nothing.
  pub find_snapshot-eq-ok :
      (id : Text) (w : W) {o : Option ZecVolumeSnap} {w' : W}
      → find_snapshot cm id w ≡ (ok o, w')
      → (w' ≡ w) × (o ≡ Option.map zec_volume_snap_of (snap w id))
  unfolding find_snapshot one_snapshot
  find_snapshot-eq-ok id w h =
      let (same, told) =
        snap_job-eq-ok one_snapshot id w (refuse_if-eq-ok (is_empty id) args_error _ w h).1
          (λ b p. cc p) in
      (same, ground arith)

  deleted_job-eq-ok :
      (id : Text) (w : W) {w' : W}
      → snap_deleted_job cm id w ≡ (ok (some tt), w')
      → snap w' id ≡ none
  unfolding snap_deleted_job no_snapshot_left
  deleted_job-eq-ok id w h =
      let (same, told) = snap_job-eq-ok no_snapshot_left id w h (λ b p. cc p) in ground arith

  available_job-eq-ok :
      (id : Text) (w : W) {w' : W}
      → snap_available_job cm id w ≡ (ok (some tt), w')
      → IsReady (snap w' id)
  unfolding snap_available_job one_snap_status
  available_job-eq-ok id w h =
      let r = call (c.describe_snapshots (snapshot_by_id id)) w in
      let (o, e1, rest) =
        continue-eq-ok
          (λ o. lift (one_snap_status o) >>= λ s.
            pure (if str_eq s snap_status_available then some tt else none))
          r.0 r.1 (sym (client-bind cm c _ w e) ∙ h) in
      let (s, e2, end) =
        continue-eq-ok (λ s. pure (if str_eq s snap_status_available then some tt else none))
          (one_snap_status o) r.1 rest in
      let (same, told) =
        told-eq-ok (c.describe_snapshots (snapshot_by_id id)) one_snap_status
          (snapshot_answer (snap w id)) w {a = s} {w' = r.1} (t.reads id w) (λ b p. cc p)
          (ground (arith, e1, e2)) in
      subst (λ u. IsReady (snap u id)) (ground (arith, same, end))
        (snap_status-IsReady (snap w id) s told (ground (arith, end)))

  wait-IsReady :
      (id : Text) (w : W) {w' : W}
      → wait_disk_snap_status cm snap_status_available id w ≡ (ok tt, w')
      → IsReady (snap w' id)
  unfolding wait_disk_snap_status wait_snap_job str_eq
  wait-IsReady id w h =
      let (u, stop) =
        wait_last cm.clock (snap_available_job cm id) w
          (refuse_if-eq-ok (is_empty id) args_error _ w h).1 in
      available_job-eq-ok id u stop

  wait_deleted :
      (id : Text) (w : W) {w' : W}
      → wait_disk_snap_status cm snap_status_deleted id w ≡ (ok tt, w')
      → snap w' id ≡ none
  unfolding wait_disk_snap_status wait_snap_job str_eq
  wait_deleted id w h =
      let (u, stop) =
        wait_last cm.clock (snap_deleted_job cm id) w
          (refuse_if-eq-ok (is_empty id) args_error _ w h).1 in
      deleted_job-eq-ok id u stop

  -- A snapshot that CreateSnapshot answers with is there, AVAILABLE, and of the disk.
  pub create_snapshot-IsReady :
      (name disk : Text) (w : W) {id : Text} {w' : W}
      → create_snapshot cm name disk w ≡ (ok id, w')
      → IsReady (snap w' id) × (source id ≡ disk)
  unfolding create_snapshot created_id
  create_snapshot-IsReady name disk w h =
      let h1 =
        sym (client-bind cm c _ w e)
        ∙ (refuse_if-eq-ok (is_empty name || is_empty disk) args_error _ w h).1 in
      let r = call (c.create_snapshot disk name) w in
      let (o, e1, rest) =
        continue-eq-ok
          (λ o.
            lift (created_id o) >>= λ i. wait_disk_snap_status cm snap_status_available i >> pure i)
          r.0 r.1 h1 in
      let (i, e2, waited) =
        continue-eq-ok (λ i. wait_disk_snap_status cm snap_status_available i >> pure i)
          (created_id o) r.1 rest in
      let v = wait_disk_snap_status cm snap_status_available i r.1 in
      let (u, e3, end) = continue-eq-ok (λ u. pure i) v.0 v.1 waited in
      let asked = call-eq-ok (c.create_snapshot disk name) w {a = some (some i)} {w' = r.1} in
      let ready = wait-IsReady i r.1 {w' = v.1} (ground (arith, e3)) in
      (
        subst (λ (p : Text × W). IsReady (snap (p.1) (p.0))) (ground (arith, end)) ready,
        ground (
          arith,
          end,
          t.takes disk name i w r.1 (asked (ground (arith, e1, created_id-eq-ok o i e2))),
        ),
      )

  -- If DeleteSnapshot returns without an error, the snapshot is not there.
  pub delete_snapshot-gone :
      (id : Text) (w : W) {w' : W} → delete_snapshot cm id w ≡ (ok tt, w') → snap w' id ≡ none
  unfolding delete_snapshot deletion deletion_failed
  delete_snapshot-gone id w {w'} h =
      let h1 = sym (client-bind cm c _ w e) ∙ (refuse_if-eq-ok (is_empty id) args_error _ w h).1 in
      let r = call (c.delete_snapshots (id ∷ [])) w in
      elim (Result-cases r.0) [
        | inl (o, g) ↦
            let (u, done, waited) =
              continue-eq-ok (λ u. wait_disk_snap_status cm snap_status_deleted id) (deletion o) r.1
                (ground (arith, g, h1)) in
            wait_deleted id r.1 waited
        | inr (x, g) ↦
            let (code, same) = deletion_failed-eq-ok x r.1 {w' = w'} (ground (arith, g, h1)) in
            t.not_found id w w'
              (call-eq-err (c.delete_snapshots (id ∷ [])) w (ground (arith, g, code, same)))
      ]
