-- ===== src/Cloud/Disks/Release.antt =====
-- DeleteVolume of pkg/cloud/cloud_manager.go: a disk is released until it is gone.
use zenlayer_cloud_csi_drive.Prelude.{
  ℕ, zero, suc, ◌≡◌, ap, ◌∙◌, sym, inl, inr, Bool, true, false, Option, none, some, arith, Text,
  str_eq, str_eq_iff, is_empty,
}
use mathlib.Core.Option
use zenlayer_cloud_csi_drive.Prelude.Result.{ok, Result-cases}
use zenlayer_cloud_csi_drive.Cloud.Exec.{
  CloudError, sdk, api, args_error, pure, continue-eq-ok, refuse_if-eq-ok, ◌>>=◌,
}
use zenlayer_cloud_csi_drive.Cloud.Client.{
  DiskInfo, ZecClient, ZecCloudManager, call, client, client-bind, call-eq-err,
}
use zenlayer_cloud_csi_drive.Cloud.Types.{
  ZecVolume, zec_volume_of, disk_status_deleted, disk_status_recycled, max_release_disk_times,
  operation_failed_resource_not_found,
}
use zenlayer_cloud_csi_drive.Cloud.Disks.{
  find_volume, wait_disk_status, wait_disk_released, release_failed, after_release, release_once,
  release_round, release_rounds, delete_volume,
}
use zenlayer_cloud_csi_drive.Cloud.Answers.{stop_if}
use zenlayer_cloud_csi_drive.Cloud.Wait.Laws.{stop_or-eq-ok}
use zenlayer_cloud_csi_drive.Cloud.Disks.Outcome.{Tells, find_volume-eq-ok, wait_deleted, wait_gone}

release_failed-eq-ok :
    {W : Type 0} (x : CloudError) (w : W) {o : Option (Unit {0})} {w' : W}
    → release_failed x w ≡ (ok o, w')
    → (x ≡ api (sdk operation_failed_resource_not_found)) × (w ≡ w')
unfolding release_failed
release_failed-eq-ok (api (sdk code)) w h =
    ground (arith, str_eq_iff code operation_failed_resource_not_found)
release_failed-eq-ok x w h = ground arith

module _ {W : Type 0} (c : ZecClient W) (disk : W → Text → Option DiskInfo) (t : Tells c disk)
    (cm : ZecCloudManager W) (e : cm.zec_client ≡ some c) (id : Text) where
  after_release-gone :
      (recycled : Bool) (w : W) {w' : W}
      → after_release cm recycled id w ≡ (ok (some tt), w')
      → disk w' id ≡ none
  unfolding after_release
  after_release-gone true w h =
      let v = wait_disk_status cm disk_status_deleted id w in
      let (u, waited, done) = continue-eq-ok (λ _. pure (some tt)) v.0 v.1 h in
      wait_deleted c disk t cm e id w (ground arith)
  after_release-gone false w h =
      let v = wait_disk_released cm id w in
      let (gone, waited, done) = continue-eq-ok (λ g. pure (stop_if g)) v.0 v.1 h in
      wait_gone c disk t cm e id w (ground arith)

  release_once-gone :
      (v : ZecVolume) (w : W) {w' : W}
      → release_once cm id v w ≡ (ok (some tt), w')
      → disk w' id ≡ none
  unfolding release_once
  release_once-gone v w {w'} h =
      let r = (client cm >>= λ cl. call (cl.release_disk id)) w in
      elim (Result-cases r.0) [
        | inl (u, g) ↦
            after_release-gone (str_eq v.status disk_status_recycled) r.1 (ground (arith, g))
        | inr (x, g) ↦
            let (code, same) =
              release_failed-eq-ok x r.1 {o = some tt} {w' = w'} (ground (arith, g)) in
            let called = sym (client-bind cm c (λ cl. call (cl.release_disk id)) w e) in
            t.not_found id w w'
              (call-eq-err (c.release_disk id) w (called ∙ ground (arith, g, code, same)))
      ]

  release_round-gone :
      (o : Option ZecVolume) (w : W) {w' : W}
      → o ≡ Option.map zec_volume_of (disk w id)
      → release_round cm id o w ≡ (ok (some tt), w')
      → disk w' id ≡ none
  unfolding release_round
  release_round-gone none w p h = ground arith
  release_round-gone (some v) w p h = release_once-gone v w h

  release_rounds-gone :
      (n : ℕ) (w : W) {w' : W} → release_rounds cm n id w ≡ (ok tt, w') → disk w' id ≡ none
  unfolding release_rounds
  release_rounds-gone zero w h = ground arith
  release_rounds-gone (suc n) w h =
      let v = find_volume cm id w in
      let (o, read, rest) = continue-eq-ok _ v.0 v.1 h in
      let (same, told) = find_volume-eq-ok c disk t cm e id w {o = o} {w' = v.1} (ground arith) in
      let r = release_round cm id o v.1 in
      elim (stop_or-eq-ok (release_rounds cm n id) r.0 r.1 rest) [
        | inl (g, again) ↦ release_rounds-gone n r.1 again
        | inr (g, last) ↦
            release_round-gone o v.1
              (told ∙ ap (λ u. Option.map zec_volume_of (disk u id)) (sym same))
              (ground (arith, g, last))
      ]

-- For a manager whose client tells what the cloud holds (Tells): if DeleteVolume returns without
-- an error, the disk is not in the cloud any more.
pub delete_volume-gone :
    {W : Type 0} (c : ZecClient W) (disk : W → Text → Option DiskInfo) (cm : ZecCloudManager W)
    (id : Text) (w w' : W)
    → Tells c disk
    → cm.zec_client ≡ some c
    → delete_volume cm id w ≡ (ok tt, w')
    → disk w' id ≡ none
unfolding delete_volume
delete_volume-gone c disk cm id w w' t e h =
    release_rounds-gone c disk t cm e id max_release_disk_times w
      (sym (client-bind cm c _ w e) ∙ (refuse_if-eq-ok (is_empty id) args_error _ w h).1)
