-- ===== src/Cloud/Answers.antt =====
-- pkg/cloud/cloud_manager.go: the requests for disks, and what is read from the answers.
use zenlayer_cloud_csi_drive.Prelude.{
  Bool, true, false, not, List, [], ◌∷◌, Option, none, some, Text, str_eq, if◌then◌else◌, ℤ, pos,
  eqb_ℤ,
}
use zenlayer_cloud_csi_drive.Prelude.Result.{Result, ok, err}
use zenlayer_cloud_csi_drive.Cloud.Exec.{CloudError, nil_response, repeated_id}
use zenlayer_cloud_csi_drive.Cloud.Client.{
  DescribeDisksRequest, DescribeDisksParams, DiskInfo, CreateDisksRequest,
  new_describe_disks_request,
}
use zenlayer_cloud_csi_drive.Cloud.Types.{ZecVolume, zec_volume_of, disk_status_recycled}

-- The request for one disk.
abbrev pub by_id : Text → DescribeDisksRequest
by_id id = record new_describe_disks_request { disk_ids = id ∷ [] }

-- The first disk of an answer that names one.
unfoldable pub first_disk : List (Option DiskInfo) → Result CloudError DiskInfo
first_disk [] = err nil_response
first_disk (none ∷ ds) = err nil_response
first_disk (some d ∷ ds) = ok d

unfoldable pub first_volume : List (Option DiskInfo) → Result CloudError (Option ZecVolume)
unfolding first_disk
first_volume ds = elim (first_disk ds) [ ok d ↦ ok (some (zec_volume_of d)) | err e ↦ err e ]

unfoldable pub counted_volume :
    Option ℤ → List (Option DiskInfo) → Result CloudError (Option ZecVolume)
unfolding first_volume
counted_volume none ds = err nil_response
counted_volume (some n) ds =
    if eqb_ℤ n (pos 0)
    then ok none
    else if not (eqb_ℤ n (pos 1))
    then err repeated_id
    else first_volume ds

unfoldable pub one_volume : Option DescribeDisksParams → Result CloudError (Option ZecVolume)
unfolding counted_volume
one_volume none = err nil_response
one_volume (some p) = counted_volume p.total_count p.data_set

-- The checks that three of the four jobs of waitDiskStatus share: the status of the one disk.
unfoldable pub status_of : Option ℤ → Result CloudError DiskInfo → Result CloudError Text
status_of none d = err nil_response
status_of (some n) (err e) = err e
status_of (some n) (ok d) = elim d.disk_status [
  | none ↦ err nil_response
  | some s ↦ if not (eqb_ℤ n (pos 1)) then err repeated_id else ok s
]

unfoldable pub one_status : Option DescribeDisksParams → Result CloudError Text
unfolding status_of first_disk
one_status none = err nil_response
one_status (some p) = status_of p.total_count (first_disk p.data_set)

-- `some tt` ends the wait.
abbrev pub stop_if : Bool → Option (Unit {0})
stop_if b = if b then some tt else none

unfoldable pub status_stop :
    (Text → Bool) → Option DescribeDisksParams → Result CloudError (Option (Unit {0}))
unfolding one_status
status_stop wanted o = elim (one_status o) [ ok s ↦ ok (stop_if (wanted s)) | err e ↦ err e ]

-- The job that waits until the disk is gone.
unfoldable pub none_left : Option DescribeDisksParams → Result CloudError (Option (Unit {0}))
none_left none = err nil_response
none_left (some p) = elim p.total_count [
  | none ↦ err nil_response
  | some n ↦ ok (stop_if (eqb_ℤ n (pos 0)))
]

-- The job of waitDiskReleased on the status of one disk; `false` is a disk in the recycle bin.
unfoldable pub recycled_status : Option Text → Result CloudError (Option Bool)
recycled_status none = err nil_response
recycled_status (some s) = ok (if str_eq s disk_status_recycled then some false else none)

unfoldable pub released_count : ℤ → List (Option DiskInfo) → Result CloudError (Option Bool)
unfolding first_disk recycled_status
released_count n ds =
    if eqb_ℤ n (pos 0)
    then ok (some true)
    else if not (eqb_ℤ n (pos 1))
    then err repeated_id
    else elim (first_disk ds) [ ok d ↦ recycled_status d.disk_status | err e ↦ err e ]

-- `some true`: the disk is gone; `some false`: it is in the recycle bin.
unfoldable pub released : Option DescribeDisksParams → Result CloudError (Option Bool)
unfolding released_count
released none = err nil_response
released (some p) = elim p.total_count [
  | none ↦ err nil_response
  | some n ↦ released_count n p.data_set
]

-- The identifier of the first disk that was created.
unfoldable pub first_id : Option (List Text) → Result CloudError Text
first_id none = err nil_response
first_id (some []) = err nil_response
first_id (some (id ∷ ids)) = ok id

abbrev pub disk_request : Text → ℤ → Text → Text → Text → Option Text → Bool → CreateDisksRequest
disk_request name size category zone group snapshot burst = record {
  disk_name = name;
  disk_size = size;
  zone_id = zone;
  disk_amount = 1;
  resource_group_id = group;
  disk_category = category;
  snapshot_id = snapshot;
  bursting_enabled = burst;
}

-- DetachDisks may answer without an error and name the disk as failed.
unfoldable pub has_failed : Option (List Text) → Bool
has_failed none = false
has_failed (some []) = false
has_failed (some (id ∷ ids)) = true
