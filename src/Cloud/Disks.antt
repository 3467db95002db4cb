-- ===== src/Cloud/Disks.antt =====
-- pkg/cloud/cloud_manager.go: the operations on one disk.
pub mod Outcome
pub mod Operations
pub mod Release
pub mod Completes
use zenlayer_cloud_csi_drive.Prelude.{
  ℕ, zero, suc, Bool, true, false, not, List, [], ◌∷◌, ◌||◌, Option, none, some, Text, str_eq,
  is_empty, if◌then◌else◌, ℤ, pos, eqb_ℤ,
}
use zenlayer_cloud_csi_drive.Prelude.Result.{Result, ok, err}
use zenlayer_cloud_csi_drive.Cloud.Exec.{
  Cloud, CloudError, SdkError, sdk, transport, api, args_error, nil_response, repeated_id,
  failed_ids, still_exists, bad_status, pure, raise, lift, refuse_if, ◌>>=◌, ◌>>◌, continue,
}
use zenlayer_cloud_csi_drive.Cloud.Client.{
  DescribeDisksRequest, DescribeDisksParams, DiskInfo, CreateDisksRequest, ZecClient,
  ZecCloudManager, call, client, new_describe_disks_request,
}
use zenlayer_cloud_csi_drive.Cloud.Types.{
  ZecVolume, zec_volume_of, disk_status_available, disk_status_deleted, disk_status_in_use,
  disk_status_recycled, disk_status_stable, max_release_disk_times,
  operation_failed_resource_not_found,
}
use zenlayer_cloud_csi_drive.Cloud.Wait.{stop_or, wait_for_specific_or_error}
use zenlayer_cloud_csi_drive.Cloud.Answers.{
  by_id, counted_volume, disk_request, first_disk, first_id, first_volume, has_failed, none_left,
  one_status, one_volume, recycled_status, released, released_count, status_of, status_stop,
  stop_if,
}

-- An error of ReleaseDisk; a disk that is not found is released.
unfoldable pub release_failed : {W : Type 0} → CloudError → Cloud W (Option (Unit {0}))
release_failed (api (sdk code)) =
    if str_eq code operation_failed_resource_not_found
    then pure (some tt)
    else raise (api (sdk code))
release_failed e = raise e

module _ {W : Type 0} (cm : ZecCloudManager W) where
  unfoldable pub find_volume : Text → Cloud W (Option ZecVolume)
  unfolding client one_volume
  find_volume id = do
    refuse_if (is_empty id) args_error
    c ← client cm
    response ← call (c.describe_disks (by_id id))
    lift (one_volume response)

  -- A job of waitDiskStatus that ends at some statuses.
  unfoldable pub status_job : (Text → Bool) → Text → Cloud W (Option (Unit {0}))
  unfolding client status_stop
  status_job wanted id = do
    c ← client cm
    response ← call (c.describe_disks (by_id id))
    lift (status_stop wanted response)

  unfoldable pub deleted_job : Text → Cloud W (Option (Unit {0}))
  unfolding client none_left
  deleted_job id = do
    c ← client cm
    response ← call (c.describe_disks (by_id id))
    lift (none_left response)

  unfoldable pub released_job : Text → Cloud W (Option Bool)
  unfolding client released
  released_job id = do
    c ← client cm
    response ← call (c.describe_disks (by_id id))
    lift (released response)

  -- The job that a status asks for. The waits start only after a call of the client, so that the
  -- jobs find one.
  unfoldable pub wait_job : Text → Text → Cloud W (Unit {0})
  unfolding status_job deleted_job wait_for_specific_or_error
  wait_job status id =
      if str_eq disk_status_available status
      then wait_for_specific_or_error cm.clock (status_job (λ s. str_eq s disk_status_available) id)
      else if str_eq status disk_status_deleted
      then wait_for_specific_or_error cm.clock (deleted_job id)
      else if str_eq status disk_status_in_use
      then wait_for_specific_or_error cm.clock (status_job (λ s. str_eq s disk_status_in_use) id)
      else if str_eq status disk_status_stable
      then wait_for_specific_or_error cm.clock
          (status_job (λ s. str_eq s disk_status_available || str_eq s disk_status_in_use) id)
      else raise bad_status

  unfoldable pub wait_disk_status : Text → Text → Cloud W (Unit {0})
  unfolding wait_job
  wait_disk_status status id = do refuse_if (is_empty id) args_error; wait_job status id

  unfoldable pub wait_disk_released : Text → Cloud W Bool
  unfolding released_job wait_for_specific_or_error
  wait_disk_released id = do
    refuse_if (is_empty id) args_error
    wait_for_specific_or_error cm.clock (released_job id)

  -- CreateVolume, and CreateVolumeFromSnapshot where there is a snapshot.
  unfoldable pub create_disk : CreateDisksRequest → Cloud W Text
  unfolding client first_id wait_disk_status
  create_disk request = do
    c ← client cm
    response ← call (c.create_disks request)
    id ← lift (first_id response)
    wait_disk_status disk_status_available id
    pure id

  unfoldable pub create_volume : Text → ℤ → Text → Text → Text → Bool → Cloud W Text
  unfolding create_disk
  create_volume name size category zone group burst = do
    refuse_if
        (is_empty name
          || eqb_ℤ size (pos 0)
          || is_empty category
          || is_empty zone
          || is_empty group)
        args_error
    create_disk (disk_request name size category zone group none burst)

  unfoldable pub create_volume_from_snapshot :
      Text → ℤ → Text → Text → Text → Text → Bool → Cloud W Text
  unfolding create_disk
  create_volume_from_snapshot name size category zone group snapshot burst = do
    refuse_if
        (is_empty name
          || eqb_ℤ size (pos 0)
          || is_empty category
          || is_empty zone
          || is_empty group
          || is_empty snapshot)
        args_error
    create_disk (disk_request name size category zone group (some snapshot) burst)

  unfoldable pub attach_volume : Text → Text → Cloud W (Unit {0})
  unfolding client wait_disk_status
  attach_volume id vm = do
    refuse_if (is_empty id || is_empty vm) args_error
    c ← client cm
    call (c.attach_disks (id ∷ []) vm)
    wait_disk_status disk_status_in_use id

  unfoldable pub detach_volume : Text → Cloud W (Unit {0})
  unfolding client has_failed wait_disk_status
  detach_volume id = do
    refuse_if (is_empty id) args_error
    c ← client cm
    response ← call (c.detach_disks (id ∷ []) false)
    refuse_if (has_failed response) failed_ids
    wait_disk_status disk_status_available id

  unfoldable pub resize_volume : Text → ℤ → Cloud W (Unit {0})
  unfolding client wait_disk_status
  resize_volume id size = do
    refuse_if (is_empty id || eqb_ℤ size (pos 0)) args_error
    c ← client cm
    call (c.resize_disk id size)
    wait_disk_status disk_status_stable id

  -- What is awaited after a release: of a disk in the recycle bin, that it is gone.
  unfoldable pub after_release : Bool → Text → Cloud W (Option (Unit {0}))
  unfolding wait_disk_status wait_disk_released
  after_release true id = do wait_disk_status disk_status_deleted id; pure (some tt)
  after_release false id = do gone ← wait_disk_released id; pure (stop_if gone)

  -- One round of DeleteVolume for a disk that exists; `none` asks for another round.
  unfoldable pub release_once : Text → ZecVolume → Cloud W (Option (Unit {0}))
  unfolding client release_failed after_release
  release_once id v w =
      let r = (client cm >>= λ c. call (c.release_disk id)) w in
      elim r.0 [
        | ok u ↦ after_release (str_eq v.status disk_status_recycled) id r.1
        | err e ↦ release_failed e r.1
      ]

  unfoldable pub release_round : Text → Option ZecVolume → Cloud W (Option (Unit {0}))
  unfolding release_once
  release_round id none = pure (some tt)
  release_round id (some v) = release_once id v

  -- The loop of DeleteVolume with the rounds that are left.
  unfoldable pub release_rounds : ℕ → Text → Cloud W (Unit {0})
  unfolding find_volume release_round
  release_rounds zero id = raise still_exists
  release_rounds (suc n) id = do
    v ← find_volume id
    release_round id v >>= stop_or (release_rounds n id)

  unfoldable pub delete_volume : Text → Cloud W (Unit {0})
  unfolding client release_rounds
  delete_volume id = do
    refuse_if (is_empty id) args_error
    c ← client cm
    release_rounds max_release_disk_times id
