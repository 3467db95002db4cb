-- ===== src/Witness/Snapshots.antt =====
-- Snapshots, on a cloud with one disk that has one snapshot or none.
use zenlayer_cloud_csi_drive.Prelude.{
  ◌≡◌, refl, Bool, true, false, [], ◌∷◌, Option, none, some, arith, Text, codes, str_eq, str_eq_iff,
  is_empty, pos, if◌then◌else◌, ◌*◌,
}
use zenlayer_cloud_csi_drive.Prelude.Result.{ok, err}
use zenlayer_cloud_csi_drive.Common.Calculator.{gib, gib_to_byte}
use zenlayer_cloud_csi_drive.Common.Lock.{new_resource_locks, try_acquire, has, release, delete}
use zenlayer_cloud_csi_drive.Common.VolumeId.{parse_csi_vol_id}
use zenlayer_cloud_csi_drive.Cloud.Exec.{transport}
use zenlayer_cloud_csi_drive.Cloud.Client.{Clock, SnapshotInfo, ZecClient, ZecCloudManager}
use zenlayer_cloud_csi_drive.Cloud.Types.{zec_volume_of, zec_volume_snap_of}
use zenlayer_cloud_csi_drive.Cloud.Disks.{find_volume}
use zenlayer_cloud_csi_drive.Cloud.Disks.Outcome.{answer}
use zenlayer_cloud_csi_drive.Cloud.Lookup.{find_snapshot_by_name}
use zenlayer_cloud_csi_drive.Cloud.Manager.{zec_cloud_manager}
use zenlayer_cloud_csi_drive.Cloud.Snapshots as Snapshots
use zenlayer_cloud_csi_drive.Cloud.Snapshots.{find_snapshot, wait_disk_snap_status}
use zenlayer_cloud_csi_drive.Cloud.Snapshots.Outcome.{TellsSnapshots, snapshot_answer}
use zenlayer_cloud_csi_drive.Cloud.Snapshots.Contract.{
  IsFaithfulSnapshots, snapshots, zec_cloud_manager-IsFaithfulSnapshots,
}
use zenlayer_cloud_csi_drive.Rpc.State.{Server}
use zenlayer_cloud_csi_drive.Rpc.Requests.{CreateSnapshotRequest, Snapshot}
use zenlayer_cloud_csi_drive.Rpc.Controller.Server.{ControllerServer}
use zenlayer_cloud_csi_drive.Rpc.Controller.Snapshots.{create_snapshot, delete_snapshot}
use zenlayer_cloud_csi_drive.Rpc.Controller.Snapshots.Laws.{
  Taken, create_snapshot-Taken, delete_snapshot-deleted,
}
use zenlayer_cloud_csi_drive.Witness.Cloud.{disk_id, zone, group, free_disk, taken}
use zenlayer_cloud_csi_drive.Witness.Setup.{driver, volume_name}

abbrev snapshot_id : Text
snapshot_id = codes "snap"

-- Is the snapshot there?
abbrev snap : Bool → Text → Option SnapshotInfo
snap w id = if str_eq id snapshot_id then (if w then some taken else none) else none

abbrev source : Text → Text
source id = disk_id

abbrev snapshot_client : ZecClient Bool
snapshot_client = record {
  describe_disks = λ r w. (ok (some (answer (some free_disk))), w);
  create_disks = λ r w. (err transport, w);
  release_disk = λ id w. (err transport, w);
  attach_disks = λ ids v w. (err transport, w);
  detach_disks = λ ids check w. (err transport, w);
  resize_disk = λ id size w. (err transport, w);
  describe_instances_status = λ vms w. (ok none, w);
  describe_instances = λ vms w. (ok none, w);
  describe_zones = λ w. (ok tt, w);
  describe_disk_regions = λ w. (ok none, w);
  create_snapshot = λ disk name w.
      if str_eq disk disk_id then (ok (some (some snapshot_id)), true) else (err transport, w);
  delete_snapshots = λ ids w. (ok (some []), false);
  describe_snapshots = λ r w. (
    ok (
        some (elim r.snapshot_ids [
          | id ∷ ids ↦ snapshot_answer (snap w id)
          | [] ↦ snapshot_answer (snap w snapshot_id)
        ])),
    w,
  );
}

abbrev steady_clock : Clock Bool
steady_clock = record { pause = λ w. w; rounds = λ w. 3 }

abbrev snapshot_manager : ZecCloudManager Bool
snapshot_manager = record {
  zec_client = some snapshot_client;
  iscontroller = true;
  clock = steady_clock;
}

told : TellsSnapshots snapshot_client snap source
told = record {
  reads = λ id w p w' h. (ground (arith, h), ground (arith, h));
  holds = λ id w d h.
      (ground (arith, h, str_eq_iff id snapshot_id), ground (arith, h, str_eq_iff id snapshot_id));
  takes = λ disk name id w w' h. ground (arith, h, str_eq_iff disk disk_id);
  not_found = λ id w w' h. ground (arith, h);
}

faithful : IsFaithfulSnapshots (zec_cloud_manager snapshot_manager) (snapshots snap)
faithful =
    zec_cloud_manager-IsFaithfulSnapshots snapshot_client snap source snapshot_manager told refl

abbrev snapshot_server : ControllerServer Bool
snapshot_server = record {
  driver = driver;
  cloud = zec_cloud_manager snapshot_manager;
  defaults = record { default_zone = zone; default_resource_group = group };
  proto_equal = λ a b. true;
}

abbrev idle : Bool → Server Bool
idle w = record { locks = new_resource_locks; world = w }

abbrev snapshot_request : CreateSnapshotRequest
snapshot_request = record { source_volume_id = volume_name; name = codes "snap-1"; parameters = [] }

abbrev answered : Snapshot
answered = record {
  snapshot_id = snapshot_id;
  source_volume_id = disk_id;
  ready_to_use = true;
  create_time = [];
  size_bytes = pos (40 * gib);
}

made : create_snapshot snapshot_server snapshot_request (idle false) ≡ (ok answered, idle true)
unfolding create_snapshot is_empty parse_csi_vol_id try_acquire has find_volume release
    zec_volume_of delete find_snapshot_by_name str_eq Snapshots.create_snapshot find_snapshot
    zec_volume_snap_of gib_to_byte
made = refl

create_snapshot-Taken_example :
    (disk : Text) × (n : Text) × (parse_csi_vol_id volume_name ≡ some (disk, n))
    × Taken snapshot_server (snapshots snap) snapshot_request disk answered true
create_snapshot-Taken_example =
    create_snapshot-Taken snapshot_server (snapshots snap) snapshot_request (idle false) (idle true)
      answered faithful made

unmade : delete_snapshot snapshot_server snapshot_id (idle true) ≡ (ok tt, idle false)
unfolding delete_snapshot is_empty try_acquire has release delete str_eq Snapshots.delete_snapshot
    find_snapshot zec_volume_snap_of
unmade = refl

delete_snapshot-deleted_example : snapshots snap false snapshot_id ≡ none
delete_snapshot-deleted_example =
    delete_snapshot-deleted snapshot_server (snapshots snap) snapshot_id (idle true) (idle false)
      faithful unmade

zec_cloud_manager-IsFaithfulSnapshots_example :
    IsFaithfulSnapshots (zec_cloud_manager snapshot_manager) (snapshots snap)
zec_cloud_manager-IsFaithfulSnapshots_example =
    zec_cloud_manager-IsFaithfulSnapshots snapshot_client snap source snapshot_manager told refl
