-- ===== src/Rpc/Controller/Server.antt =====
-- The struct ControllerServer, and the handlers that need no more than it.
pub mod Laws
use zenlayer_cloud_csi_drive.Prelude.{
  Bool, true, false, not, List, [], ◌∷◌, ◌||◌, Option, none, some, Text, is_empty, any, ◌==◌, ltb,
  length, if◌then◌else◌, ℕ,
}
use zenlayer_cloud_csi_drive.Prelude.Result.{ok, err}
use zenlayer_cloud_csi_drive.Common.VolumeId.{gen_csi_vol_id, parse_csi_vol_id}
use zenlayer_cloud_csi_drive.Driver.Capability.{
  DiskDriver, VolumeCapability, ControllerRpc, AccessMode, create_delete_volume, get_mode,
  validate_controller_service_request,
}
use zenlayer_cloud_csi_drive.Driver.StorageClass.Parameters.{Defaults}
use zenlayer_cloud_csi_drive.Cloud.Types.{ZecVolume}
use zenlayer_cloud_csi_drive.Cloud.Manager.{CloudManager}
use zenlayer_cloud_csi_drive.Rpc.State.{
  Rpc, respond, refuse, require, or_code, some_or, on_world, with_lock, ◌>>=◌, ◌>>◌,
  invalid_argument, not_found, internal, unimplemented,
}
use zenlayer_cloud_csi_drive.Rpc.Placement.{Segments}
use zenlayer_cloud_csi_drive.Rpc.Requests.{ValidateRequest, Confirmed}

-- `defaults` are the globals of pkg/common that the storage class reads.
pub record ControllerServer (W : Type 0) : Type 0 where
  pub driver : DiskDriver
  pub cloud : CloudManager W
  pub defaults : Defaults
  pub proto_equal : Segments → Segments → Bool

-- genCsiVolId of a volume that is not nil; `none` is its error.
unfoldable pub gen_vol_id : ZecVolume → Option Text
unfolding gen_csi_vol_id
gen_vol_id v =
    if is_empty v.id || is_empty v.serial then none else some (gen_csi_vol_id v.id v.serial)

-- The inner loops of ValidateVolumeCapabilities: is there a mode that the driver does not have?
unfoldable pub supports_all : DiskDriver → List VolumeCapability → Bool
unfolding get_mode
supports_all d [] = true
supports_all d (c ∷ cs) =
    let rest = supports_all d cs in
    if any (λ mode. mode == get_mode c) d.volume_cap then rest else false

module _ {W : Type 0} (cs : ControllerServer W) where
  unfoldable pub check_capability : ControllerRpc → Rpc W (Unit {0})
  unfolding validate_controller_service_request
  check_capability rpc = require (validate_controller_service_request cs.driver rpc) unimplemented

  -- DeleteVolume after the identifier is parsed; an identifier that is not the driver's is that of
  -- a volume that is gone.
  unfoldable pub delete_parsed : Option (Text × Text) → Rpc W (Unit {0})
  unfolding with_lock
  delete_parsed none = respond tt
  delete_parsed (some (id, serial)) = with_lock id (on_world internal (cs.cloud.delete_volume id))

  unfoldable pub delete_volume : Text → Rpc W (Unit {0})
  unfolding check_capability delete_parsed
  delete_volume volume_id = do
    check_capability create_delete_volume
    require (not (is_empty volume_id)) invalid_argument
    delete_parsed (parse_csi_vol_id volume_id)

  -- ValidateVolumeCapabilities takes no lock.
  unfoldable pub validate_volume_capabilities : ValidateRequest → Rpc W (Option Confirmed)
  unfolding supports_all
  validate_volume_capabilities req = do
    require (not (is_empty req.volume_id)) invalid_argument
    require (ltb 0 (length req.volume_capabilities)) invalid_argument
    parts ← some_or not_found (parse_csi_vol_id req.volume_id)
    found ← on_world internal (cs.cloud.find_volume (parts.0))
    vol ← some_or not_found found
    respond (
        if supports_all cs.driver req.volume_capabilities
        then some (record {
          volume_context = req.volume_context;
          volume_capabilities = req.volume_capabilities;
          parameters = req.parameters;
        })
        else none)
