-- ===== src/Cloud/Snapshots.antt =====
-- pkg/cloud/cloud_manager.go: the operations on one snapshot.
pub mod Outcome
pub mod Contract
use zenlayer_cloud_csi_drive.Prelude.{
  not, List, [], ◌∷◌, ◌||◌, Option, none, some, Text, str_eq, is_empty, if◌then◌else◌, ℤ, pos,
  eqb_ℤ,
}
use zenlayer_cloud_csi_drive.Prelude.Result.{Result, ok, err}
use zenlayer_cloud_csi_drive.Cloud.Exec.{
  Cloud, CloudError, sdk, api, args_error, nil_response, repeated_id, failed_ids, bad_status, pure,
  raise, lift, refuse_if, ◌>>=◌, ◌>>◌,
}
use zenlayer_cloud_csi_drive.Cloud.Client.{
  DescribeSnapshotsRequest, DescribeSnapshotsParams, SnapshotInfo, ZecCloudManager, call, client,
  new_describe_snapshots_request,
}
use zenlayer_cloud_csi_drive.Cloud.Types.{
  ZecVolumeSnap, zec_volume_snap_of, snap_status_available, snap_status_deleted,
  invalid_disk_snapshot_not_found,
}
use zenlayer_cloud_csi_drive.Cloud.Wait.{wait_for_specific_or_error}

abbrev pub snapshot_by_id : Text → DescribeSnapshotsRequest
snapshot_by_id id = record new_describe_snapshots_request { snapshot_ids = id ∷ [] }

unfoldable pub first_snapshot : List (Option SnapshotInfo) → Result CloudError SnapshotInfo
first_snapshot [] = err nil_response
first_snapshot (none ∷ ds) = err nil_response
first_snapshot (some d ∷ ds) = ok d

unfoldable pub counted_snapshot :
    Option ℤ → List (Option SnapshotInfo) → Result CloudError (Option ZecVolumeSnap)
unfolding first_snapshot
counted_snapshot none ds = err nil_response
counted_snapshot (some n) ds =
    if eqb_ℤ n (pos 0)
    then ok none
    else if not (eqb_ℤ n (pos 1))
    then err repeated_id
    else elim (first_snapshot ds) [ ok d ↦ ok (some (zec_volume_snap_of d)) | err e ↦ err e ]

unfoldable pub one_snapshot :
    Option DescribeSnapshotsParams → Result CloudError (Option ZecVolumeSnap)
unfolding counted_snapshot
one_snapshot none = err nil_response
one_snapshot (some p) = counted_snapshot p.total_count p.data_set

-- The checks of the job that waits for an available snapshot.
unfoldable pub snap_status_of : Option ℤ → Result CloudError SnapshotInfo → Result CloudError Text
snap_status_of none d = err nil_response
snap_status_of (some n) (err e) = err e
snap_status_of (some n) (ok d) = elim d.status [
  | none ↦ err nil_response
  | some s ↦ if not (eqb_ℤ n (pos 1)) then err repeated_id else ok s
]

unfoldable pub one_snap_status : Option DescribeSnapshotsParams → Result CloudError Text
unfolding snap_status_of first_snapshot
one_snap_status none = err nil_response
one_snap_status (some p) = snap_status_of p.total_count (first_snapshot p.data_set)

unfoldable pub no_snapshot_left :
    Option DescribeSnapshotsParams → Result CloudError (Option (Unit {0}))
no_snapshot_left none = err nil_response
no_snapshot_left (some p) = elim p.total_count [
  | none ↦ err nil_response
  | some n ↦ ok (if eqb_ℤ n (pos 0) then some tt else none)
]

-- The identifiers that DeleteSnapshots answers with are those that it could not delete.
unfoldable pub deletion : Option (List Text) → Result CloudError (Unit {0})
deletion none = err nil_response
deletion (some []) = ok tt
deletion (some (id ∷ ids)) = err failed_ids

unfoldable pub created_id : Option (Option Text) → Result CloudError Text
created_id none = err nil_response
created_id (some none) = err nil_response
created_id (some (some id)) = ok id

-- An error of DeleteSnapshots; a snapshot that is not found is deleted.
unfoldable pub deletion_failed : {W : Type 0} → CloudError → Cloud W (Unit {0})
deletion_failed (api (sdk code)) =
    if str_eq code invalid_disk_snapshot_not_found then pure tt else raise (api (sdk code))
deletion_failed e = raise e

module _ {W : Type 0} (cm : ZecCloudManager W) where
  unfoldable pub find_snapshot : Text → Cloud W (Option ZecVolumeSnap)
  unfolding client one_snapshot
  find_snapshot id = do
    refuse_if (is_empty id) args_error
    c ← client cm
    response ← call (c.describe_snapshots (snapshot_by_id id))
    lift (one_snapshot response)

  unfoldable pub snap_available_job : Text → Cloud W (Option (Unit {0}))
  unfolding client one_snap_status
  snap_available_job id = do
    c ← client cm
    response ← call (c.describe_snapshots (snapshot_by_id id))
    s ← lift (one_snap_status response)
    pure (if str_eq s snap_status_available then some tt else none)

  unfoldable pub snap_deleted_job : Text → Cloud W (Option (Unit {0}))
  unfolding client no_snapshot_left
  snap_deleted_job id = do
    c ← client cm
    response ← call (c.describe_snapshots (snapshot_by_id id))
    lift (no_snapshot_left response)

  unfoldable pub wait_snap_job : Text → Text → Cloud W (Unit {0})
  unfolding snap_available_job snap_deleted_job wait_for_specific_or_error
  wait_snap_job status id =
      if str_eq snap_status_available status
      then wait_for_specific_or_error cm.clock (snap_available_job id)
      else if str_eq snap_status_deleted status
      then wait_for_specific_or_error cm.clock (snap_deleted_job id)
      else raise bad_status

  unfoldable pub wait_disk_snap_status : Text → Text → Cloud W (Unit {0})
  unfolding wait_snap_job
  wait_disk_snap_status status id = do refuse_if (is_empty id) args_error; wait_snap_job status id

  unfoldable pub create_snapshot : Text → Text → Cloud W Text
  unfolding client created_id wait_disk_snap_status
  create_snapshot name disk = do
    refuse_if (is_empty name || is_empty disk) args_error
    c ← client cm
    response ← call (c.create_snapshot disk name)
    id ← lift (created_id response)
    wait_disk_snap_status snap_status_available id
    pure id

  -- The call of DeleteSnapshots and what follows it, by its result.
  unfoldable pub delete_snapshot : Text → Cloud W (Unit {0})
  unfolding client deletion deletion_failed wait_disk_snap_status
  delete_snapshot id = do
    refuse_if (is_empty id) args_error
    c ← client cm
    λ w.
        let r = call (c.delete_snapshots (id ∷ [])) w in
        elim r.0 [
          | ok response ↦
              (lift (deletion response) >> wait_disk_snap_status snap_status_deleted id) r.1
          | err e ↦ deletion_failed e r.1
        ]
