-- ===== src/Cloud/Disks/Completes.antt =====
-- DeleteVolume of pkg/cloud/cloud_manager.go comes to an end with a cloud that does what it is asked.
use zenlayer_cloud_csi_drive.Prelude.{
  ℕ, ◌≤◌, ◌≡◌, refl, ap, ◌∙◌, sym, inl, inr, ◌⊎◌, Bool, Bool-cases, true, false, Option,
  Option-cases, none, some, arith, Text, str_eq, is_empty, [], if◌then◌else◌,
}
use mathlib.Core.Option
use zenlayer_cloud_csi_drive.Prelude.Result.{ok, err}
use zenlayer_cloud_csi_drive.Cloud.Exec.{args_error, refuse_if-bind}
use zenlayer_cloud_csi_drive.Cloud.Client.{
  DiskInfo, Clock, ZecClient, ZecCloudManager, call, client-bind,
}
use zenlayer_cloud_csi_drive.Cloud.Types.{
  ZecVolume, zec_volume_of, or_initial, disk_status_recycled, max_release_disk_times,
}
use zenlayer_cloud_csi_drive.Cloud.Disks.{
  find_volume, deleted_job, released_job, wait_job, wait_disk_status, wait_disk_released,
  after_release, release_failed, release_once, release_round, release_rounds, delete_volume,
}
use zenlayer_cloud_csi_drive.Cloud.Answers.{by_id, one_volume, none_left, released}
use zenlayer_cloud_csi_drive.Cloud.Disks.Outcome.{answer}
use zenlayer_cloud_csi_drive.Cloud.Wait.Quiet.{Stops, wait_ends}

-- The status of a disk that is there.
abbrev pub status_is : Text → Option DiskInfo → Bool
status_is s none = false
status_is s (some d) = str_eq (or_initial [] d.disk_status) s

-- What the two waits of DeleteVolume look at.
abbrev pub is_gone : Option DiskInfo → Option (Unit {0})
is_gone none = some tt
is_gone (some d) = none

abbrev pub is_released : Option DiskInfo → Option Bool
is_released none = some true
is_released (some d) =
    if str_eq (or_initial [] d.disk_status) disk_status_recycled then some false else none

-- A cloud that does what it is asked: DescribeDisks answers, with the disk of the identifier, which has a
-- status, and changes nothing; ReleaseDisk of a disk that is there succeeds; a disk that is released is in the recycle bin, or gone, after some
-- intervals, no more than the timer lets pass; one that is released from the recycle bin is gone then.
pub record Obeys {W : Type 0} (c : ZecClient W) (clock : Clock W)
    (disk : W → Text → Option DiskInfo) : Type 0 where
  pub answers :
      (id : Text) (w : W) → c.describe_disks (by_id id) w ≡ (ok (some (answer (disk w id))), w)
  pub has_status :
      (id : Text) (w : W) (d : DiskInfo)
      → disk w id ≡ some d
      → (s : Text) × (d.disk_status ≡ some s)
  pub accepts :
      (id : Text) (w : W) (d : DiskInfo) → disk w id ≡ some d → (c.release_disk id w).0 ≡ ok tt
  pub recycles :
      (id : Text) (w : W)
      → status_is disk_status_recycled (disk w id) ≡ false
      → (n : ℕ) × (n ≤ clock.rounds (c.release_disk id w).1)
        × Stops clock (λ u. is_released (disk u id)) n (c.release_disk id w).1
  pub destroys :
      (id : Text) (w : W)
      → status_is disk_status_recycled (disk w id) ≡ true
      → (n : ℕ) × (n ≤ clock.rounds (c.release_disk id w).1)
        × Stops clock (λ u. is_gone (disk u id)) n (c.release_disk id w).1

is_gone-eq-some : (o : Option DiskInfo) {u : Unit {0}} → is_gone o ≡ some u → o ≡ none
is_gone-eq-some none h = refl
is_gone-eq-some (some d) h = ground arith

is_released-eq-some :
    (o : Option DiskInfo) (b : Bool)
    → is_released o ≡ some b
    → (b ≡ true → o ≡ none) × (b ≡ false → status_is disk_status_recycled o ≡ true)
is_released-eq-some none b h = (λ g. refl, λ g. ground arith)
is_released-eq-some (some d) b h = (λ g. ground arith, λ g. ground arith)

module _ {W : Type 0} (c : ZecClient W) (disk : W → Text → Option DiskInfo) (cm : ZecCloudManager W)
    (o : Obeys c cm.clock disk) (e : cm.zec_client ≡ some c) (id : Text)
    (named : is_empty id ≡ false) where
  deleted_job_lem : (w : W) → deleted_job cm id w ≡ (ok (is_gone (disk w id)), w)
  unfolding deleted_job none_left
  deleted_job_lem w = elim (Option-cases (disk w id)) [
    | inl g ↦ client-bind cm c _ w e ∙ rw (o.answers id w, g) refl
    | inr (d, g) ↦ client-bind cm c _ w e ∙ rw (o.answers id w, g) refl
  ]

  released_job_lem : (w : W) → released_job cm id w ≡ (ok (is_released (disk w id)), w)
  unfolding released_job released
  released_job_lem w = elim (Option-cases (disk w id)) [
    | inl g ↦ client-bind cm c _ w e ∙ rw (o.answers id w, g) refl
    | inr (d, g) ↦
        let (s, status) = o.has_status id w d g in
        client-bind cm c _ w e ∙ rw (o.answers id w, g, status) refl
  ]

  find_volume_lem : (w : W) → find_volume cm id w ≡ (ok (Option.map zec_volume_of (disk w id)), w)
  unfolding find_volume one_volume
  find_volume_lem w = elim (Option-cases (disk w id)) [
    | inl g ↦ rw named (client-bind cm c _ w e ∙ rw (o.answers id w, g) refl)
    | inr (d, g) ↦ rw named (client-bind cm c _ w e ∙ rw (o.answers id w, g) refl)
  ]

  -- A release from the recycle bin, and the wait after it.
  gone_after :
      (w : W) (n : ℕ)
      → n ≤ cm.clock.rounds w
      → Stops cm.clock (λ u. is_gone (disk u id)) n w
      → (v : W) × (after_release cm true id w ≡ (ok (some tt), v)) × (disk v id ≡ none)
  unfolding after_release wait_disk_status wait_job str_eq
  gone_after w n le s =
      let x =
        wait_ends cm.clock (deleted_job cm id) (λ u. is_gone (disk u id)) deleted_job_lem n w le
          s in
      (x.last, rw (named, x.returned) refl, is_gone-eq-some _ x.seen)

  -- A first release: the disk is gone, or in the recycle bin.
  released_after :
      (w : W) (n : ℕ)
      → n ≤ cm.clock.rounds w
      → Stops cm.clock (λ u. is_released (disk u id)) n w
      → (v : W) × (((after_release cm false id w ≡ (ok (some tt), v)) × (disk v id ≡ none))
          ⊎ ((after_release cm false id w ≡ (ok none, v))
              × (status_is disk_status_recycled (disk v id) ≡ true)))
  unfolding after_release wait_disk_released
  released_after w n le s =
      let x =
        wait_ends cm.clock (released_job cm id) (λ u. is_released (disk u id)) released_job_lem n w
          le s in
      (
        x.last,
        elim (Bool-cases x.value) [
          | inl gone ↦
              inl (rw (named, x.returned, gone) refl, (is_released-eq-some _ x.value x.seen).0 gone)
          | inr kept ↦
              inr (rw (named, x.returned, kept) refl, (is_released-eq-some _ x.value x.seen).1 kept)
        ],
      )

  release_once_lem :
      (v : ZecVolume) (w : W) (d : DiskInfo)
      → disk w id ≡ some d
      → release_once cm id v w
        ≡ after_release cm (str_eq v.status disk_status_recycled) id (c.release_disk id w).1
  unfolding release_once
  release_once_lem v w d g =
      let r = client-bind cm c (λ cl. call (cl.release_disk id)) w e in
      let called : call (c.release_disk id) w ≡ (ok tt, (c.release_disk id w).1) =
        rw (o.accepts id w d g) refl in
      ap
        (λ p. elim p.0 [
          | ok u ↦ after_release cm (str_eq v.status disk_status_recycled) id p.1
          | err x ↦ release_failed x p.1
        ])
        (r ∙ called)

  -- A round for a disk that is there is a release and the wait after it.
  round_lem :
      (w : W) (d : DiskInfo) (b : Bool)
      → disk w id ≡ some d
      → status_is disk_status_recycled (disk w id) ≡ b
      → release_round cm id (Option.map zec_volume_of (disk w id)) w
        ≡ after_release cm b id (c.release_disk id w).1
  unfolding release_round zec_volume_of
  round_lem w d b g recycled =
      ap (λ m. release_round cm id (Option.map zec_volume_of m) w) g
      ∙ release_once_lem (zec_volume_of d) w d g
      ∙ ap (λ x. after_release cm x id (c.release_disk id w).1)
          (sym (ap (status_is disk_status_recycled) g) ∙ recycled)

  -- What a round leaves behind that is the last one.
  abbrev LastRound : W → Type 0
  LastRound w =
      (v : W) × (release_round cm id (Option.map zec_volume_of (disk w id)) w ≡ (ok (some tt), v))
      × (disk v id ≡ none)

  round_of_none : (w : W) → disk w id ≡ none → LastRound w
  unfolding release_round
  round_of_none w g = (w, rw g refl, g)

  round_of_recycled :
      (w : W) (d : DiskInfo)
      → disk w id ≡ some d
      → status_is disk_status_recycled (disk w id) ≡ true
      → LastRound w
  round_of_recycled w d g recycled =
      let (n, le, s) = o.destroys id w recycled in
      let (v, run, gone) = gone_after (c.release_disk id w).1 n le s in
      (v, round_lem w d true g recycled ∙ run, gone)

  second_round : (w : W) → status_is disk_status_recycled (disk w id) ≡ true → LastRound w
  second_round w recycled = elim (Option-cases (disk w id)) [
    | inl g ↦ round_of_none w g
    | inr (d, g) ↦ round_of_recycled w d g recycled
  ]

  first_round :
      (w : W)
      → LastRound w
        ⊎ ((v : W) × (release_round cm id (Option.map zec_volume_of (disk w id)) w ≡ (ok none, v))
            × (status_is disk_status_recycled (disk v id) ≡ true))
  first_round w = elim (Option-cases (disk w id)) [
    | inl g ↦ inl (round_of_none w g)
    | inr (d, g) ↦ elim (Bool-cases (status_is disk_status_recycled (disk w id))) [
      | inl recycled ↦ inl (round_of_recycled w d g recycled)
      | inr fresh ↦
          let (n, le, s) = o.recycles id w fresh in
          let (v, result) = released_after (c.release_disk id w).1 n le s in
          elim result [
            | inl (run, gone) ↦ inl (v, round_lem w d false g fresh ∙ run, gone)
            | inr (run, kept) ↦ inr (v, round_lem w d false g fresh ∙ run, kept)
          ]
    ]
  ]

  rounds_end :
      (w : W)
      → (v : W) × (release_rounds cm max_release_disk_times id w ≡ (ok tt, v)) × (disk v id ≡ none)
  unfolding release_rounds
  rounds_end w = elim (first_round w) [
    | inl (v, run, gone) ↦ (v, rw (find_volume_lem w, run) refl, gone)
    | inr (u, run, kept) ↦
        let (v, run', gone) = second_round u kept in
        (v, rw (find_volume_lem w, run, find_volume_lem u, run') refl, gone)
  ]

-- DeleteVolume of an identifier that is not empty deletes the disk, with a cloud that does what it is asked
-- (Obeys): it returns without an error, whatever state the disk is in, also if an earlier call has left
-- it in the recycle bin, and the disk is gone. The rounds of the source are enough.
pub delete_volume_completes :
    {W : Type 0} (c : ZecClient W) (disk : W → Text → Option DiskInfo) (cm : ZecCloudManager W)
    (id : Text) (w : W)
    → Obeys c cm.clock disk
    → cm.zec_client ≡ some c
    → is_empty id ≡ false
    → (v : W) × (delete_volume cm id w ≡ (ok tt, v)) × (disk v id ≡ none)
unfolding delete_volume
delete_volume_completes c disk cm id w o e named =
    let (v, run, gone) = rounds_end c disk cm o e id named w in
    (
      v,
      refuse_if-bind (is_empty id) args_error _ w named
          ∙ client-bind cm c (λ cl. release_rounds cm max_release_disk_times id) w e
          ∙ run,
      gone,
    )
