-- ===== src/Witness/Cloud.antt =====
-- A cloud that holds at most one disk, with the calls of the SDK that the driver uses.
use zenlayer_cloud_csi_drive.Prelude.{
  ℕ, ◌-◌, ◌*◌, refl, true, List, [], ◌∷◌, Option, none, some, arith, Text, codes, str_eq, length,
  take, drop, if◌then◌else◌, pos,
}
use zenlayer_cloud_csi_drive.Prelude.Result.{ok, err}
use zenlayer_cloud_csi_drive.Cloud.Exec.{transport}
use zenlayer_cloud_csi_drive.Cloud.Client.{
  Clock, CreateDisksRequest, DescribeDisksRequest, DescribeDisksParams, DiskInfo, SnapshotInfo,
  ZecClient, ZecCloudManager,
}
use zenlayer_cloud_csi_drive.Cloud.Types.{disk_status_available, disk_status_in_use}
use zenlayer_cloud_csi_drive.Cloud.Disks.Outcome.{Tells, answer}
use zenlayer_cloud_csi_drive.Cloud.Manager.Contract.{ReadsOnly}

abbrev pub disk_id : Text
disk_id = codes "1234567890123456789"

abbrev pub serial : Text
serial = codes "abcdefghijklmnopqrst"

abbrev pub vm : Text
vm = codes "vm-1"

abbrev pub zone : Text
zone = codes "z-1"

abbrev pub group : Text
group = codes "g-1"

abbrev pub World : Type 0
World = Option DiskInfo

-- The disk as it is when it is on no VM.
abbrev pub free_disk : DiskInfo
free_disk = record {
  disk_id = some disk_id;
  disk_name = some (codes "pvc-1");
  zone_id = some zone;
  portable = some true;
  disk_category = some (codes "Basic NVMe SSD");
  disk_size = some (pos 40);
  disk_status = some disk_status_available;
  instance_id = some [];
  resource_group_id = some group;
  serial = some serial;
  snapshot_ability = some true;
}

abbrev pub on_vm : Text → DiskInfo → DiskInfo
on_vm v d = record d { disk_status = some disk_status_in_use; instance_id = some v }

abbrev pub disk : World → Text → Option DiskInfo
disk w id = if str_eq id disk_id then w else none

abbrev pub listed : World → List (Option DiskInfo)
listed none = []
listed (some d) = some d ∷ []

abbrev pub taken : SnapshotInfo
taken = record {
  snapshot_id = some (codes "snap");
  snapshot_name = some (codes "snap-1");
  status = some (codes "AVAILABLE");
  disk_id = some disk_id;
  disk_ability = some true;
  zone_id = some zone;
  resource_group = some (some group);
  create_time = none;
}

-- The first of a listing before the page of a number.
abbrev pub skipped : Option ℕ → ℕ
skipped none = 0
skipped (some n) = (n - 1) * 20

-- The page of a listing, or the disk of an identifier.
abbrev pub described : DescribeDisksRequest → World → DescribeDisksParams
described r w = elim r.disk_ids [
  | id ∷ ids ↦ answer (disk w id)
  | [] ↦ record {
    total_count = some (pos (length (listed w)));
    data_set = take 20 (drop (skipped r.page_num) (listed w));
  }
]

-- The disk that a request is answered with.
abbrev pub made_for : CreateDisksRequest → DiskInfo
made_for r = record free_disk {
  disk_name = some r.disk_name;
  zone_id = some r.zone_id;
  disk_category = some r.disk_category;
  disk_size = some r.disk_size;
  resource_group_id = some r.resource_group_id;
}

abbrev pub simulated : ZecClient World
simulated = record {
  describe_disks = λ r w. (ok (some (described r w)), w);
  create_disks = λ r w. (ok (some (disk_id ∷ [])), some (made_for r));
  release_disk = λ id w. (ok tt, none);
  attach_disks = λ ids v w. (ok tt, elim w [ none ↦ none | some d ↦ some (on_vm v d) ]);
  detach_disks = λ ids check w. (ok (some []), some free_disk);
  resize_disk = λ id size w.
      (ok tt, elim w [ none ↦ none | some d ↦ some (record d { disk_size = some size }) ]);
  describe_instances_status = λ vms w. (
    ok (
        some (record {
          total_count = some (pos 1);
          data_set = some (record { instance_status = some (codes "RUNNING") }) ∷ [];
        })),
    w,
  );
  describe_instances = λ vms w. (ok none, w);
  describe_zones = λ w. (ok tt, w);
  describe_disk_regions = λ w. (ok (some (zone ∷ [])), w);
  create_snapshot = λ name id w. (err transport, w);
  delete_snapshots = λ ids w. (err transport, w);
  describe_snapshots = λ r w. (
    ok (
        some (record {
          total_count = some (pos 1);
          data_set = take 20 (drop (skipped r.page_num) (some taken ∷ []));
        })),
    w,
  );
}

abbrev pub steady : Clock World
steady = record { pause = λ w. w; rounds = λ w. 3 }

abbrev pub manager : ZecCloudManager World
manager = record { zec_client = some simulated; iscontroller = true; clock = steady }

pub simulated-Tells : Tells simulated disk
simulated-Tells = record {
  reads = λ id w p w' h. (ground (arith, h), ground (arith, h));
  not_found = λ id w w' h. ground (arith, h);
}

pub simulated-ReadsOnly : ReadsOnly simulated disk
simulated-ReadsOnly = record { disks = λ r w x. refl; statuses = λ vms w x. refl }
