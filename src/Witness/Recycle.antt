-- ===== src/Witness/Recycle.antt =====
-- A cloud with a recycle bin, from which DeleteVolume deletes a disk.
use zenlayer_cloud_csi_drive.Prelude.{
  ◌≡◌, refl, Bool, true, false, Bool-cases, inl, inr, [], ◌∷◌, Option, none, some, arith, Text,
  str_eq, is_empty, if◌then◌else◌,
}
use zenlayer_cloud_csi_drive.Prelude.Result.{ok, err}
use zenlayer_cloud_csi_drive.Cloud.Exec.{transport}
use zenlayer_cloud_csi_drive.Cloud.Client.{Clock, DiskInfo, ZecClient, ZecCloudManager}
use zenlayer_cloud_csi_drive.Cloud.Types.{disk_status_available, disk_status_recycled}
use zenlayer_cloud_csi_drive.Cloud.Disks.{delete_volume}
use zenlayer_cloud_csi_drive.Cloud.Disks.Outcome.{answer}
use zenlayer_cloud_csi_drive.Cloud.Disks.Completes.{
  Obeys, is_gone, is_released, status_is, delete_volume_completes,
}
use zenlayer_cloud_csi_drive.Witness.Cloud.{disk_id, free_disk}

-- No disk, one that is in the recycle bin, or one that is not.
abbrev Bin : Type 0
Bin = Option Bool

abbrev binned : Bin → Option DiskInfo
binned none = none
binned (some false) = some free_disk
binned (some true) = some (record free_disk { disk_status = some disk_status_recycled })

abbrev disk_in : Bin → Text → Option DiskInfo
disk_in w id = if str_eq id disk_id then binned w else none

abbrev released_once : Bin → Bin
released_once none = none
released_once (some false) = some true
released_once (some true) = none

abbrev bin_client : ZecClient Bin
bin_client = record {
  describe_disks = λ r w.
      (ok (some (elim r.disk_ids [ id ∷ ids ↦ answer (disk_in w id) | [] ↦ answer none ])), w);
  create_disks = λ r w. (err transport, w);
  release_disk = λ id w. (ok tt, if str_eq id disk_id then released_once w else w);
  attach_disks = λ ids v w. (err transport, w);
  detach_disks = λ ids check w. (err transport, w);
  resize_disk = λ id size w. (err transport, w);
  describe_instances_status = λ vms w. (ok none, w);
  describe_instances = λ vms w. (ok none, w);
  describe_zones = λ w. (ok tt, w);
  describe_disk_regions = λ w. (ok none, w);
  create_snapshot = λ name id w. (err transport, w);
  delete_snapshots = λ ids w. (err transport, w);
  describe_snapshots = λ r w. (ok none, w);
}

abbrev bin_clock : Clock Bin
bin_clock = record { pause = λ w. w; rounds = λ w. 60 }

abbrev bin_manager : ZecCloudManager Bin
bin_manager = record { zec_client = some bin_client; iscontroller = true; clock = bin_clock }

bin-status :
    (w : Bin) (id : Text) (d : DiskInfo)
    → disk_in w id ≡ some d
    → (s : Text) × (d.disk_status ≡ some s)
bin-status none id d h = absurd (ground (arith, h))
bin-status (some false) id d h = (disk_status_available, ground (arith, h))
bin-status (some true) id d h = (disk_status_recycled, ground (arith, h))

-- After a release, whatever was there before.
bin-recycles :
    (w : Bin) (id : Text)
    → status_is disk_status_recycled (disk_in w id) ≡ false
    → (x : Bool) × (is_released (disk_in (if str_eq id disk_id then released_once w else w) id)
        ≡ some x)
unfolding str_eq
bin-recycles none id h = (true, ground arith)
bin-recycles (some true) id h = (true, ground (arith, h))
bin-recycles (some false) id h = elim (Bool-cases (str_eq id disk_id)) [
  | inl e ↦ (false, ground (arith, e))
  | inr e ↦ (true, ground (arith, e))
]

bin-destroys :
    (w : Bin) (id : Text)
    → status_is disk_status_recycled (disk_in w id) ≡ true
    → is_gone (disk_in (if str_eq id disk_id then released_once w else w) id) ≡ some tt
unfolding str_eq
bin-destroys none id h = ground (arith, h)
bin-destroys (some true) id h = ground (arith, h)
bin-destroys (some false) id h = ground (arith, h)

bin-Obeys : Obeys bin_client bin_clock disk_in
bin-Obeys = record {
  answers = λ id w. refl;
  has_status = λ id w d h. bin-status w id d h;
  accepts = λ id w d h. refl;
  recycles = λ id w h. (0, omega arith, bin-recycles w id h);
  destroys = λ id w h. (0, omega arith, (tt, bin-destroys w id h));
}

delete_volume_completes_example :
    (v : Bin) × (delete_volume bin_manager disk_id (some false) ≡ (ok tt, v))
    × (disk_in v disk_id ≡ none)
unfolding is_empty
delete_volume_completes_example =
    delete_volume_completes bin_client disk_in bin_manager disk_id (some false) bin-Obeys refl refl
