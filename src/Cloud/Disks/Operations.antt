-- ===== src/Cloud/Disks/Operations.antt =====
-- What attaching, detaching, resizing and creating a disk have seen when they return without an error.
use zenlayer_cloud_csi_drive.Prelude.{
  ◌≡◌, subst, ◌∙◌, sym, Bool, false, ◌||◌, [], ◌∷◌, Option, none, some, arith, Text, ℤ, pos, eqb_ℤ,
  str_eq, is_empty,
}
use zenlayer_cloud_csi_drive.Prelude.Result.{ok}
use zenlayer_cloud_csi_drive.Cloud.Exec.{
  pure, continue-eq-ok, args_error, failed_ids, refuse_if-eq-ok,
}
use zenlayer_cloud_csi_drive.Cloud.Client.{
  CreateDisksRequest, DiskInfo, ZecClient, ZecCloudManager, call, client-bind,
}
use zenlayer_cloud_csi_drive.Cloud.Types.{
  disk_status_available, disk_status_in_use, disk_status_stable,
}
use zenlayer_cloud_csi_drive.Cloud.Disks.{
  wait_disk_status, attach_volume, detach_volume, resize_volume, create_disk, create_volume,
  create_volume_from_snapshot,
}
use zenlayer_cloud_csi_drive.Cloud.Answers.{disk_request, has_failed, first_id}
use zenlayer_cloud_csi_drive.Cloud.Disks.Outcome.{
  Tells, HasStatus, wait_available, wait_in_use, wait_stable,
}

-- For a manager whose client tells what the cloud holds (Tells): if AttachVolume returns without
-- an error, the disk is there and IN_USE.
attach_volume-in_use :
    {W : Type 0} (c : ZecClient W) (disk : W → Text → Option DiskInfo) (cm : ZecCloudManager W)
    (id vm : Text) (w w' : W)
    → Tells c disk
    → cm.zec_client ≡ some c
    → attach_volume cm id vm w ≡ (ok tt, w')
    → HasStatus (λ s. str_eq s disk_status_in_use) (disk w' id)
unfolding attach_volume
attach_volume-in_use c disk cm id vm w w' t e h =
    let rest =
      sym (client-bind cm c _ w e)
      ∙ (refuse_if-eq-ok (is_empty id || is_empty vm) args_error _ w h).1 in
    let r = call (c.attach_disks (id ∷ []) vm) w in
    let (u, called, waited) =
      continue-eq-ok (λ _. wait_disk_status cm disk_status_in_use id) r.0 r.1 rest in
    wait_in_use c disk t cm e id r.1 waited

-- For a manager whose client tells what the cloud holds (Tells): if DetachVolume returns without
-- an error, the disk is there and AVAILABLE.
pub detach_volume-available :
    {W : Type 0} (c : ZecClient W) (disk : W → Text → Option DiskInfo) (cm : ZecCloudManager W)
    (id : Text) (w w' : W)
    → Tells c disk
    → cm.zec_client ≡ some c
    → detach_volume cm id w ≡ (ok tt, w')
    → HasStatus (λ s. str_eq s disk_status_available) (disk w' id)
unfolding detach_volume
detach_volume-available c disk cm id w w' t e h =
    let rest = sym (client-bind cm c _ w e) ∙ (refuse_if-eq-ok (is_empty id) args_error _ w h).1 in
    let r = call (c.detach_disks (id ∷ []) false) w in
    let (o, called, after) = continue-eq-ok _ r.0 r.1 rest in
    wait_available c disk t cm e id r.1 (refuse_if-eq-ok (has_failed o) failed_ids _ r.1 after).1

-- For a manager whose client tells what the cloud holds (Tells): if ResizeVolume returns without
-- an error, the disk is there and AVAILABLE or IN_USE.
resize_volume-stable :
    {W : Type 0} (c : ZecClient W) (disk : W → Text → Option DiskInfo) (cm : ZecCloudManager W)
    (id : Text) (size : ℤ) (w w' : W)
    → Tells c disk
    → cm.zec_client ≡ some c
    → resize_volume cm id size w ≡ (ok tt, w')
    → HasStatus (λ s. str_eq s disk_status_available || str_eq s disk_status_in_use) (disk w' id)
unfolding resize_volume
resize_volume-stable c disk cm id size w w' t e h =
    let rest =
      sym (client-bind cm c _ w e)
      ∙ (refuse_if-eq-ok (is_empty id || eqb_ℤ size (pos 0)) args_error _ w h).1 in
    let r = call (c.resize_disk id size) w in
    let (u, called, waited) =
      continue-eq-ok (λ _. wait_disk_status cm disk_status_stable id) r.0 r.1 rest in
    wait_stable c disk t cm e id r.1 waited

create_disk-available :
    {W : Type 0} (c : ZecClient W) (disk : W → Text → Option DiskInfo) (cm : ZecCloudManager W)
    (request : CreateDisksRequest) (id : Text) (w w' : W)
    → Tells c disk
    → cm.zec_client ≡ some c
    → create_disk cm request w ≡ (ok id, w')
    → HasStatus (λ s. str_eq s disk_status_available) (disk w' id)
unfolding create_disk
create_disk-available c disk cm request id w w' t e h =
    let r = call (c.create_disks request) w in
    let (o, called, rest) = continue-eq-ok _ r.0 r.1 (sym (client-bind cm c _ w e) ∙ h) in
    let (first, named, rest') = continue-eq-ok _ (first_id o) r.1 rest in
    let v = wait_disk_status cm disk_status_available first r.1 in
    let (u, waited, done) = continue-eq-ok (λ _. pure first) v.0 v.1 rest' in
    subst (HasStatus (λ s. str_eq s disk_status_available)) (ground arith)
      (wait_available c disk t cm e first r.1 {w' = v.1} (ground arith))

-- For a manager whose client tells what the cloud holds (Tells): if CreateVolume returns an
-- identifier, a disk of that identifier is there and AVAILABLE; so it is with
-- CreateVolumeFromSnapshot.
pub create_volume-available :
    {W : Type 0} (c : ZecClient W) (disk : W → Text → Option DiskInfo) (cm : ZecCloudManager W)
    (name category zone group : Text) (size : ℤ) (snapshot : Option Text) (burst : Bool) (id : Text)
    (w w' : W)
    → Tells c disk
    → cm.zec_client ≡ some c
    → (elim snapshot [
      | none ↦ create_volume cm name size category zone group burst w
      | some s ↦ create_volume_from_snapshot cm name size category zone group s burst w
    ])
      ≡ (ok id, w')
    → HasStatus (λ s. str_eq s disk_status_available) (disk w' id)
unfolding create_volume create_volume_from_snapshot
create_volume-available c disk cm name category zone group size none burst id w w' t e h =
    let request = disk_request name size category zone group none burst in
    create_disk-available c disk cm request id w w' t e
      (refuse_if-eq-ok
        (is_empty name
          || eqb_ℤ size (pos 0)
          || is_empty category
          || is_empty zone
          || is_empty group)
        args_error (create_disk cm request) w h).1
create_volume-available c disk cm name category zone group size (some s) burst id w w' t e h =
    let request = disk_request name size category zone group (some s) burst in
    create_disk-available c disk cm request id w w' t e
      (refuse_if-eq-ok
        (is_empty name
          || eqb_ℤ size (pos 0)
          || is_empty category
          || is_empty zone
          || is_empty group
          || is_empty s)
        args_error (create_disk cm request) w h).1
