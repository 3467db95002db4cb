-- ===== src/Cloud/Disks/Outcome.antt =====
-- What the lookups and the waits for a disk have seen in the cloud when they return without an error.
use zenlayer_cloud_csi_drive.Prelude.{
  ◌≡◌, refl, subst, ◌∙◌, sym, inl, inr, Bool, true, ◌||◌, [], ◌∷◌, Option, none, some, arith, Text,
  pos, str_eq, is_empty, ◌≢◌, Option-cases,
}
use mathlib.Core.Option
use zenlayer_cloud_csi_drive.Prelude.Result.{Result, ok, err}
use zenlayer_cloud_csi_drive.Cloud.Exec.{CloudError, sdk, lift, args_error, refuse_if-eq-ok, ◌>>=◌}
use zenlayer_cloud_csi_drive.Cloud.Client.{
  DescribeDisksParams, DiskInfo, ZecClient, ZecCloudManager, call, client, client-bind, told-eq-ok,
}
use zenlayer_cloud_csi_drive.Cloud.Types.{
  ZecVolume, zec_volume_of, disk_status_available, disk_status_in_use, disk_status_stable,
  disk_status_deleted, operation_failed_resource_not_found,
}
use zenlayer_cloud_csi_drive.Cloud.Wait.Laws.{wait_last, wait_keeps}
use zenlayer_cloud_csi_drive.Cloud.Disks.{
  find_volume, status_job, deleted_job, released_job, wait_job, wait_disk_status,
  wait_disk_released,
}
use zenlayer_cloud_csi_drive.Cloud.Answers.{by_id, one_volume, status_stop, none_left, released}

-- The answer of DescribeDisks for one disk.
abbrev pub answer : Option DiskInfo → DescribeDisksParams
answer none = record { total_count = some (pos 0); data_set = [] }
answer (some d) = record { total_count = some (pos 1); data_set = some d ∷ [] }

-- `disk` is what the cloud holds. DescribeDisks for one disk, when it answers, tells this and
-- changes nothing; ReleaseDisk says "not found" only of a disk that is not there.
pub record Tells {W : Type 0} (c : ZecClient W) (disk : W → Text → Option DiskInfo) : Type 0 where
  pub reads :
      (id : Text) (w : W) (p : DescribeDisksParams) (w' : W)
      → c.describe_disks (by_id id) w ≡ (ok (some p), w')
      → (w' ≡ w) × (p ≡ answer (disk w id))
  pub not_found :
      (id : Text) (w w' : W)
      → c.release_disk id w ≡ (err (sdk operation_failed_resource_not_found), w')
      → disk w' id ≡ none

-- The disk is there, with a status that passes a test.
abbrev pub HasStatus : (Text → Bool) → Option DiskInfo → Type 0
HasStatus p o = (d : DiskInfo) × (s : Text) × (o ≡ some d) × (d.disk_status ≡ some s) × (p s ≡ true)

status_stop-HasStatus :
    (wanted : Text → Bool) (o : Option DiskInfo)
    → status_stop wanted (some (answer o)) ≡ ok (some tt)
    → HasStatus wanted o
unfolding status_stop
status_stop-HasStatus wanted none h = ground arith
status_stop-HasStatus wanted (some d) h = elim (Option-cases d.disk_status) [
  | inl g ↦ ground (arith, g)
  | inr (s, g) ↦ (d, s, refl, g, ground (arith, g))
]

module _ {W : Type 0} (c : ZecClient W) (disk : W → Text → Option DiskInfo) (t : Tells c disk) where
  -- What is read from a successful answer, if the lack of one is an error.
  pub read-eq-ok :
      {A : Type 0} (k : Option DescribeDisksParams → Result CloudError A) (id : Text) (w : W)
      {a : A} {w' : W}
      → (call (c.describe_disks (by_id id)) >>= λ o. lift (k o)) w ≡ (ok a, w')
      → ((b : A) → k none ≢ ok b)
      → (w' ≡ w) × (k (some (answer (disk w id))) ≡ ok a)
  read-eq-ok k id w h bad =
      told-eq-ok (c.describe_disks (by_id id)) k (answer (disk w id)) w (t.reads id w) bad h

  module _ (cm : ZecCloudManager W) (e : cm.zec_client ≡ some c) where
    -- The same behind the check that the manager has a client.
    job-eq-ok :
        {A : Type 0} (k : Option DescribeDisksParams → Result CloudError A) (id : Text) (w : W)
        {a : A} {w' : W}
        → (client cm >>= λ cl. call (cl.describe_disks (by_id id)) >>= λ o. lift (k o)) w
          ≡ (ok a, w')
        → ((b : A) → k none ≢ ok b)
        → (w' ≡ w) × (k (some (answer (disk w id))) ≡ ok a)
    job-eq-ok k id w h bad = read-eq-ok k id w (sym (client-bind cm c _ w e) ∙ h) bad

    -- FindVolume, when it answers without an error, reads what the cloud holds, and changes nothing.
    pub find_volume-eq-ok :
        (id : Text) (w : W) {o : Option ZecVolume} {w' : W}
        → find_volume cm id w ≡ (ok o, w')
        → (w' ≡ w) × (o ≡ Option.map zec_volume_of (disk w id))
    unfolding find_volume one_volume
    find_volume-eq-ok id w h =
        let (same, told) =
          job-eq-ok one_volume id w (refuse_if-eq-ok (is_empty id) args_error _ w h).1
            (λ b p. cc p) in
        (same, ground arith)

    status_job-eq-ok :
        (wanted : Text → Bool) (id : Text) (w : W) {w' : W}
        → status_job cm wanted id w ≡ (ok (some tt), w')
        → HasStatus wanted (disk w' id)
    unfolding status_job status_stop
    status_job-eq-ok wanted id w h =
        let (same, told) = job-eq-ok (status_stop wanted) id w h (λ b p. cc p) in
        subst (λ u. HasStatus wanted (disk u id)) (sym same)
          (status_stop-HasStatus wanted (disk w id) told)

    status_job_quiet :
        (wanted : Text → Bool) (id : Text) (w : W) {o : Option (Unit {0})} {w' : W}
        → status_job cm wanted id w ≡ (ok o, w')
        → w' ≡ w
    unfolding status_job status_stop
    status_job_quiet wanted id w h = (job-eq-ok (status_stop wanted) id w h (λ b p. cc p)).0

    -- A wait for an available disk that ends well keeps what the pauses keep.
    pub wait_available_keeps :
        (P : W → Type 0) (id : Text) (w : W) {w' : W}
        → ((u : W) → P u → P (cm.clock.pause u))
        → P w
        → wait_disk_status cm disk_status_available id w ≡ (ok tt, w')
        → P w'
    unfolding wait_disk_status wait_job str_eq
    wait_available_keeps P id w waits k h =
        let job = status_job cm (λ s. str_eq s disk_status_available) id in
        wait_keeps cm.clock job P waits (λ u o u' r m. subst P (sym (status_job_quiet _ id u r)) m)
          w k (refuse_if-eq-ok (is_empty id) args_error _ w h).1

    deleted_job-eq-ok :
        (id : Text) (w : W) {w' : W} → deleted_job cm id w ≡ (ok (some tt), w') → disk w' id ≡ none
    unfolding deleted_job none_left
    deleted_job-eq-ok id w h =
        let (same, told) = job-eq-ok none_left id w h (λ b p. cc p) in ground arith

    released_job-eq-ok :
        (id : Text) (w : W) {w' : W}
        → released_job cm id w ≡ (ok (some true), w')
        → disk w' id ≡ none
    unfolding released_job released
    released_job-eq-ok id w h =
        let (same, told) = job-eq-ok released id w h (λ b p. cc p) in ground arith

    -- A wait for a status ends well only with a disk that has it.
    pub wait_available :
        (id : Text) (w : W) {w' : W}
        → wait_disk_status cm disk_status_available id w ≡ (ok tt, w')
        → HasStatus (λ s. str_eq s disk_status_available) (disk w' id)
    unfolding wait_disk_status wait_job str_eq
    wait_available id w h =
        let (u, stop) =
          wait_last cm.clock (status_job cm (λ s. str_eq s disk_status_available) id) w
            (refuse_if-eq-ok (is_empty id) args_error _ w h).1 in
        status_job-eq-ok (λ s. str_eq s disk_status_available) id u stop

    pub wait_in_use :
        (id : Text) (w : W) {w' : W}
        → wait_disk_status cm disk_status_in_use id w ≡ (ok tt, w')
        → HasStatus (λ s. str_eq s disk_status_in_use) (disk w' id)
    unfolding wait_disk_status wait_job str_eq
    wait_in_use id w h =
        let (u, stop) =
          wait_last cm.clock (status_job cm (λ s. str_eq s disk_status_in_use) id) w
            (refuse_if-eq-ok (is_empty id) args_error _ w h).1 in
        status_job-eq-ok (λ s. str_eq s disk_status_in_use) id u stop

    pub wait_stable :
        (id : Text) (w : W) {w' : W}
        → wait_disk_status cm disk_status_stable id w ≡ (ok tt, w')
        → HasStatus
            (λ s. str_eq s disk_status_available || str_eq s disk_status_in_use)
            (disk w' id)
    unfolding wait_disk_status wait_job str_eq
    wait_stable id w h =
        let (u, stop) =
          wait_last cm.clock
            (status_job cm (λ s. str_eq s disk_status_available || str_eq s disk_status_in_use) id)
            w (refuse_if-eq-ok (is_empty id) args_error _ w h).1 in
        status_job-eq-ok (λ s. str_eq s disk_status_available || str_eq s disk_status_in_use) id u
          stop

    pub wait_deleted :
        (id : Text) (w : W) {w' : W}
        → wait_disk_status cm disk_status_deleted id w ≡ (ok tt, w')
        → disk w' id ≡ none
    unfolding wait_disk_status wait_job str_eq
    wait_deleted id w h =
        let (u, stop) =
          wait_last cm.clock (deleted_job cm id) w
            (refuse_if-eq-ok (is_empty id) args_error _ w h).1 in
        deleted_job-eq-ok id u stop

    pub wait_gone :
        (id : Text) (w : W) {w' : W}
        → wait_disk_released cm id w ≡ (ok true, w')
        → disk w' id ≡ none
    unfolding wait_disk_released
    wait_gone id w h =
        let (u, stop) =
          wait_last cm.clock (released_job cm id) w
            (refuse_if-eq-ok (is_empty id) args_error _ w h).1 in
        released_job-eq-ok id u stop
