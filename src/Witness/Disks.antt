-- ===== src/Witness/Disks.antt =====
-- The operations on a disk, in the cloud with one disk.
use zenlayer_cloud_csi_drive.Prelude.{
  ◌≡◌, refl, [], ◌∷◌, Option, none, some, codes, str_eq, is_empty, pos, ℕ, suc, leb, arith,
  if◌then◌else◌,
}
use zenlayer_cloud_csi_drive.Prelude.Result.{ok}
use zenlayer_cloud_csi_drive.Driver.VolumeType.{string_to_type}
use zenlayer_cloud_csi_drive.Cloud.Exec.{Cloud}
use zenlayer_cloud_csi_drive.Cloud.Client.{Clock}
use zenlayer_cloud_csi_drive.Cloud.Types.{zec_volume_of}
use zenlayer_cloud_csi_drive.Cloud.Disks.{
  attach_volume, detach_volume, resize_volume, delete_volume, wait_disk_status,
}
use zenlayer_cloud_csi_drive.Cloud.Lookup.{fetch_disks, fetch_snapshots, found, find_volume_by_name}
use zenlayer_cloud_csi_drive.Cloud.Lookup.Paging.{Serves}
use zenlayer_cloud_csi_drive.Cloud.Lookup.Choice.{find_volume_by_name_lem}
use zenlayer_cloud_csi_drive.Cloud.Manager.{zec_cloud_manager}
use zenlayer_cloud_csi_drive.Cloud.Manager.Contract.{
  IsFaithful, volumes, zec_cloud_manager-IsFaithful,
}
use zenlayer_cloud_csi_drive.Witness.Cloud.{
  World, disk_id, vm, zone, group, free_disk, on_vm, disk, listed, simulated, manager,
  simulated-Tells, simulated-ReadsOnly, taken,
}

abbrev attached_disk : World
attached_disk = some (on_vm vm free_disk)

attached : attach_volume manager disk_id vm (some free_disk) ≡ (ok tt, attached_disk)
unfolding attach_volume str_eq is_empty wait_disk_status
attached = refl

detached : detach_volume manager disk_id attached_disk ≡ (ok tt, some free_disk)
unfolding detach_volume str_eq is_empty wait_disk_status
detached = refl

abbrev larger_disk : World
larger_disk = some (record free_disk { disk_size = some (pos 80) })

resized : resize_volume manager disk_id (pos 80) (some free_disk) ≡ (ok tt, larger_disk)
unfolding resize_volume str_eq is_empty wait_disk_status
resized = refl

removed : delete_volume manager disk_id (some free_disk) ≡ (ok tt, none)
unfolding delete_volume str_eq is_empty zec_volume_of
removed = refl

zec_cloud_manager-IsFaithful_example : IsFaithful (zec_cloud_manager manager) (volumes disk)
zec_cloud_manager-IsFaithful_example =
    zec_cloud_manager-IsFaithful simulated disk manager simulated-Tells simulated-ReadsOnly refl

abbrev found_disk : World
found_disk = some free_disk

disks_served :
    Serves (fetch_disks simulated (codes "pvc-1") zone group) (listed found_disk) found_disk
unfolding fetch_disks
disks_served = record { at_page = λ k. ground arith }

find_volume_by_name_lem_example :
    find_volume_by_name manager
      (codes "pvc-1")
      zone
      (pos 40)
      (codes "Basic NVMe SSD")
      group
      found_disk
    ≡ (found (zec_volume_of free_disk), found_disk)
unfolding zec_volume_of str_eq string_to_type is_empty
find_volume_by_name_lem_example =
    find_volume_by_name_lem manager simulated (codes "pvc-1") zone group (codes "Basic NVMe SSD")
      (pos 40) (listed found_disk) found_disk refl refl disks_served

snapshots_served :
    Serves (fetch_snapshots simulated (codes "snap-1") zone group) (some taken ∷ []) found_disk
unfolding fetch_snapshots
snapshots_served = record { at_page = λ k. ground arith }

-- A job that stops at its third evaluation.
abbrev third : Cloud ℕ (Option ℕ)
third n = (ok (if leb 2 n then some n else none), suc n)

abbrev ticker : ℕ → Clock ℕ
ticker n = record { pause = λ w. w; rounds = λ w. n }
