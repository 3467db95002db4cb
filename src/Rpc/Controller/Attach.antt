-- ===== src/Rpc/Controller/Attach.antt =====
-- ControllerPublishVolume and ControllerUnpublishVolume of
-- pkg/disk/rpcserver/controllerserver.go: attaching a disk to a VM and detaching it.
pub mod Publish
pub mod Unpublish
use zenlayer_cloud_csi_drive.Prelude.{
  Bool, true, false, not, Option, none, some, Text, str_eq, is_empty, if◌then◌else◌,
}
use zenlayer_cloud_csi_drive.Common.VolumeId.{parse_csi_vol_id}
use zenlayer_cloud_csi_drive.Driver.Capability.{
  VolumeCapability, publish_unpublish_volume, validate_volume_capability,
}
use zenlayer_cloud_csi_drive.Cloud.Types.{ZecVolume, vm_status_running}
use zenlayer_cloud_csi_drive.Rpc.State.{
  Rpc, respond, refuse, require, some_or, on_world, with_lock, ◌>>=◌, ◌>>◌, invalid_argument,
  not_found, internal, failed_precondition,
}
use zenlayer_cloud_csi_drive.Rpc.Requests.{PublishRequest, UnpublishRequest}
use zenlayer_cloud_csi_drive.Rpc.Controller.Server.{ControllerServer, check_capability}

module _ {W : Type 0} (cs : ControllerServer W) where
  -- The attach, and the check that it is the wanted VM that the disk is on.
  unfoldable pub attach : Text → Text → Rpc W (Unit {0})
  attach id vm = do
    on_world internal (cs.cloud.attach_volume id vm)
    found ← on_world internal (cs.cloud.find_volume id)
    v ← some_or not_found found
    require (str_eq v.instance_id vm) internal

  -- By the VM that the disk is on now; no VM is the empty text.
  unfoldable pub attach_to : Text → Text → Text → Rpc W (Unit {0})
  unfolding attach
  attach_to id vm instance =
      if is_empty instance
      then attach id vm
      else if str_eq instance vm
      then respond tt
      else refuse failed_precondition

  -- With the lock on the disk held.
  unfoldable pub publish_locked : Text → Text → Rpc W (Unit {0})
  unfolding attach_to
  publish_locked id vm = do
    found ← on_world internal (cs.cloud.find_volume id)
    v ← some_or not_found found
    known ← on_world internal (cs.cloud.get_vm_status vm)
    status ← some_or not_found known
    require (str_eq status vm_status_running) failed_precondition
    attach_to id vm v.instance_id

  unfoldable pub controller_publish_volume : PublishRequest → Rpc W (Unit {0})
  unfolding check_capability with_lock publish_locked
  controller_publish_volume req = do
    check_capability cs publish_unpublish_volume
    require (not (is_empty req.volume_id)) invalid_argument
    require (not (is_empty req.node_id)) invalid_argument
    cap ← some_or invalid_argument req.volume_capability
    require (validate_volume_capability cs.driver cap) invalid_argument
    require (not req.readonly) invalid_argument
    parts ← some_or not_found (parse_csi_vol_id req.volume_id)
    with_lock (parts.0) (publish_locked (parts.0) req.node_id)

  -- A disk that is not there, on no VM or on another VM needs no detach.
  unfoldable pub detach_from : Text → Text → Option ZecVolume → Rpc W (Unit {0})
  detach_from id vm none = respond tt
  detach_from id vm (some v) =
      if is_empty v.instance_id
      then respond tt
      else if not (str_eq v.instance_id vm)
      then respond tt
      else on_world internal (cs.cloud.detach_volume id)

  -- With the lock on the disk held.
  unfoldable pub unpublish_locked : Text → Text → Rpc W (Unit {0})
  unfolding detach_from
  unpublish_locked id vm = do
    found ← on_world internal (cs.cloud.find_volume id)
    detach_from id vm found

  -- An identifier that is not the driver's has nothing to detach.
  unfoldable pub unpublish_parsed : Text → Option (Text × Text) → Rpc W (Unit {0})
  unfolding with_lock unpublish_locked
  unpublish_parsed vm none = respond tt
  unpublish_parsed vm (some (id, serial)) = with_lock id (unpublish_locked id vm)

  unfoldable pub controller_unpublish_volume : UnpublishRequest → Rpc W (Unit {0})
  unfolding check_capability unpublish_parsed
  controller_unpublish_volume req = do
    check_capability cs publish_unpublish_volume
    require (not (is_empty req.volume_id)) invalid_argument
    require (not (is_empty req.node_id)) invalid_argument
    unpublish_parsed req.node_id (parse_csi_vol_id req.volume_id)
