-- ===== src/Cloud/Manager/Contract.antt =====
-- What the servers rely on of the cloud manager, and that the manager of
-- pkg/cloud/cloud_manager.go provides it.
use zenlayer_cloud_csi_drive.Prelude.{
  ◌≡◌, refl, ap, ◌∙◌, Bool, List, ◌∷◌, [], Option, none, some, arith, Text, ℤ, str_eq, str_eq_iff,
  is_empty,
}
use mathlib.Core.Option
use zenlayer_cloud_csi_drive.Prelude.Result.{Result, ok}
use zenlayer_cloud_csi_drive.Cloud.Exec.{CloudError, lift, ◌>>=◌}
use zenlayer_cloud_csi_drive.Cloud.Client.{
  Call, DescribeDisksRequest, DiskInfo, ZecClient, ZecCloudManager, call, client-bind,
}
use zenlayer_cloud_csi_drive.Cloud.Types.{
  ZecVolume, zec_volume_of, or_initial, disk_status_available,
}
use zenlayer_cloud_csi_drive.Cloud.Disks.{find_volume}
use zenlayer_cloud_csi_drive.Cloud.Answers.{by_id, one_volume}
use zenlayer_cloud_csi_drive.Cloud.Disks.Outcome.{Tells, HasStatus, find_volume-eq-ok}
use zenlayer_cloud_csi_drive.Cloud.Disks.Operations.{
  detach_volume-available, create_volume-available,
}
use zenlayer_cloud_csi_drive.Cloud.Disks.Release.{delete_volume-gone}
use zenlayer_cloud_csi_drive.Cloud.Instances.{get_vm_status, one_instance_status}
use zenlayer_cloud_csi_drive.Cloud.Manager.{CloudManager, zec_cloud_manager}

-- The volume is there and AVAILABLE: on no VM, and with no operation going on.
abbrev pub IsAvailable : Option ZecVolume → Type 0
IsAvailable o = (v : ZecVolume) × (o ≡ some v) × (v.status ≡ disk_status_available)

-- `volume` is the volume of an identifier. A lookup that answers tells it; no lookup, whether it
-- answers or not, changes a volume. The other methods have reached what they promise when they
-- answer.
pub record IsFaithful {W : Type 0} (m : CloudManager W) (volume : W → Text → Option ZecVolume)
    : Type 0 where
  pub finds :
      (id : Text) (w : W) (o : Option ZecVolume) (w' : W)
      → m.find_volume id w ≡ (ok o, w')
      → o ≡ volume w id
  pub looks : (id x : Text) (w : W) → volume (m.find_volume id w).1 x ≡ volume w x
  pub asks : (vm x : Text) (w : W) → volume (m.get_vm_status vm w).1 x ≡ volume w x
  pub deletes : (id : Text) (w w' : W) → m.delete_volume id w ≡ (ok tt, w') → volume w' id ≡ none
  pub detaches :
      (id : Text) (w w' : W) → m.detach_volume id w ≡ (ok tt, w') → IsAvailable (volume w' id)
  pub creates :
      (name : Text) (size : ℤ) (category zone group : Text) (burst : Bool) (id : Text) (w w' : W)
      → m.create_volume name size category zone group burst w ≡ (ok id, w')
      → IsAvailable (volume w' id)

-- The Describe calls of the SDK read: they leave the disks as they are, whatever they answer.
pub record ReadsOnly {W : Type 0} (c : ZecClient W) (disk : W → Text → Option DiskInfo)
    : Type 0 where
  pub disks :
      (r : DescribeDisksRequest) (w : W) (x : Text) → disk (c.describe_disks r w).1 x ≡ disk w x
  pub statuses :
      (vms : List Text) (w : W) (x : Text) → disk (c.describe_instances_status vms w).1 x ≡ disk w x

-- The world after a call whose answer is only decoded is the world after the call.
pub decoded :
    {W A B : Type 0} (m : Call W A) (k : A → Result CloudError B) (w : W)
    → ((call m >>= λ a. lift (k a)) w).1 ≡ (m w).1
decoded m k w = ground arith

-- The volumes of the disks that the cloud holds.
abbrev pub volumes : {W : Type 0} → (W → Text → Option DiskInfo) → W → Text → Option ZecVolume
volumes disk w id = Option.map zec_volume_of (disk w id)

module _ {W : Type 0} (c : ZecClient W) (disk : W → Text → Option DiskInfo) (cm : ZecCloudManager W)
    (e : cm.zec_client ≡ some c) (r : ReadsOnly c disk) where
  find_volume_keeps : (id x : Text) (w : W) → disk (find_volume cm id w).1 x ≡ disk w x
  unfolding find_volume is_empty
  find_volume_keeps [] x w = refl
  find_volume_keeps (b ∷ id) x w =
      ap (λ p. disk (p.1) x)
        (client-bind cm c
          (λ cl. call (cl.describe_disks (by_id (b ∷ id))) >>= λ o. lift (one_volume o)) w e)
      ∙ ap (λ u. disk u x) (decoded (c.describe_disks (by_id (b ∷ id))) one_volume w)
      ∙ r.disks (by_id (b ∷ id)) w x

  get_vm_status_keeps : (vm x : Text) (w : W) → disk (get_vm_status cm vm w).1 x ≡ disk w x
  unfolding get_vm_status is_empty
  get_vm_status_keeps [] x w = refl
  get_vm_status_keeps (b ∷ vm) x w =
      ap (λ p. disk (p.1) x)
        (client-bind cm c
          (λ cl. call (cl.describe_instances_status ((b ∷ vm) ∷ [])) >>= λ o.
            lift (one_instance_status o))
          w e)
      ∙ ap (λ u. disk u x)
          (decoded (c.describe_instances_status ((b ∷ vm) ∷ [])) one_instance_status w)
      ∙ r.statuses ((b ∷ vm) ∷ []) w x

HasStatus-IsAvailable :
    (o : Option DiskInfo)
    → HasStatus (λ s. str_eq s disk_status_available) o
    → IsAvailable (Option.map zec_volume_of o)
unfolding zec_volume_of
HasStatus-IsAvailable o (d, s, there, status, same) = (
  zec_volume_of d,
  ap (Option.map zec_volume_of) there,
  ap (or_initial []) status ∙ (str_eq_iff s disk_status_available).0 same,
)

-- The cloud manager over a client that tells what the cloud holds (Tells) and whose Describe
-- calls leave the disks as they are (ReadsOnly) keeps the contract IsFaithful.
pub zec_cloud_manager-IsFaithful :
    {W : Type 0} (c : ZecClient W) (disk : W → Text → Option DiskInfo) (cm : ZecCloudManager W)
    → Tells c disk
    → ReadsOnly c disk
    → cm.zec_client ≡ some c
    → IsFaithful (zec_cloud_manager cm) (volumes disk)
zec_cloud_manager-IsFaithful c disk cm t r e = record {
  finds = λ id w o w' h. (find_volume-eq-ok c disk t cm e id w h).1;
  looks = λ id x w. ap (Option.map zec_volume_of) (find_volume_keeps c disk cm e r id x w);
  asks = λ vm x w. ap (Option.map zec_volume_of) (get_vm_status_keeps c disk cm e r vm x w);
  deletes = λ id w w' h. ap (Option.map zec_volume_of) (delete_volume-gone c disk cm id w w' t e h);
  detaches = λ id w w' h. HasStatus-IsAvailable _ (detach_volume-available c disk cm id w w' t e h);
  creates = λ name size category zone group burst id w w' h.
      HasStatus-IsAvailable _
        (create_volume-available c disk cm name category zone group size none burst id w w' t e h);
}
