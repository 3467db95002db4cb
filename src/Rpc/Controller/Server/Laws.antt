-- ===== src/Rpc/Controller/Server/Laws.antt =====
-- What DeleteVolume has done when it answers, and what ValidateVolumeCapabilities confirms.
use zenlayer_cloud_csi_drive.Prelude.{
  ◌≡◌, refl, ap, subst, ◌∙◌, sym, not, List, [], ◌∷◌, any, ◌==◌, ==_iff, Option, none, some, arith,
  Text, is_empty, ltb, length, if◌then◌else◌,
}
use zenlayer_cloud_csi_drive.Prelude.Result.{ok}
use zenlayer_cloud_csi_drive.Common.VolumeId.{parse_csi_vol_id}
use zenlayer_cloud_csi_drive.Driver.Capability.{
  DiskDriver, AccessMode, VolumeCapability, create_delete_volume, get_mode,
  validate_controller_service_request, validate_volume_access_mode, validate_volume_capabilities,
}
use zenlayer_cloud_csi_drive.Cloud.Types.{ZecVolume}
use zenlayer_cloud_csi_drive.Cloud.Manager.Contract.{IsFaithful}
use zenlayer_cloud_csi_drive.Rpc.State.{
  Server, on_world, invalid_argument, internal, not_found, unimplemented,
}
use zenlayer_cloud_csi_drive.Rpc.State.Runs.{
  require-eq-ok, some_or-eq-ok, on_world_last, on_world-eq-ok, with_lock-eq-ok,
}
use zenlayer_cloud_csi_drive.Rpc.Requests.{ValidateRequest, Confirmed}
use zenlayer_cloud_csi_drive.Rpc.Controller.Server as Server
use zenlayer_cloud_csi_drive.Rpc.Controller.Server.{
  ControllerServer, supports_all, check_capability, delete_parsed,
}

any_swap : (m : AccessMode) (l : List AccessMode) → any (λ x. x == m) l ≡ any (λ x. m == x) l
any_swap m [] = refl
any_swap m (x ∷ l) = ground (arith, any_swap m l, ==_iff x m, ==_iff m x)

-- The loops of ValidateVolumeCapabilities and the driver's ValidateVolumeCapabilities decide the
-- same, for every list of capabilities.
pub supports_all-validate_volume_capabilities :
    (d : DiskDriver) (cs : List VolumeCapability)
    → supports_all d cs ≡ validate_volume_capabilities d cs
unfolding supports_all validate_volume_capabilities validate_volume_access_mode
supports_all-validate_volume_capabilities d [] = refl
supports_all-validate_volume_capabilities d (c ∷ cs) =
    ground
      (arith, any_swap (get_mode c) d.volume_cap, supports_all-validate_volume_capabilities d cs)

-- For a cloud manager that keeps the contract IsFaithful: if DeleteVolume answers without an
-- error and the identifier is one of the driver, the disk that it names is gone.
pub delete_volume-deleted :
    {W : Type 0}
    → (cs : ControllerServer W) (volume : W → Text → Option ZecVolume) (volume_id : Text)
      (s s' : Server W) (id serial : Text)
    → IsFaithful cs.cloud volume
    → parse_csi_vol_id volume_id ≡ some (id, serial)
    → Server.delete_volume cs volume_id s ≡ (ok tt, s')
    → volume s'.world id ≡ none
unfolding Server.delete_volume check_capability delete_parsed
delete_volume-deleted cs volume volume_id s s' id serial f p h =
    let (b0, h0) =
      require-eq-ok (validate_controller_service_request cs.driver create_delete_volume)
        unimplemented _ s h in
    let (b1, h1) = require-eq-ok (not (is_empty volume_id)) invalid_argument _ s h0 in
    let (l, t, run, world) =
      with_lock-eq-ok id (on_world internal (cs.cloud.delete_volume id)) s
        (ap (λ o. delete_parsed cs o s) (sym p) ∙ h1) in
    subst (λ w. volume w id ≡ none) world
      (f.deletes id s.world t.world
        (on_world_last internal (cs.cloud.delete_volume id) (record s { locks = l }) run))

-- For a cloud manager that keeps the contract IsFaithful: if ValidateVolumeCapabilities answers
-- without an error, the identifier names a disk that is there, and the answer confirms the
-- request exactly if the driver has the mode of each of its capabilities.
pub validate-verdict :
    {W : Type 0}
    → (cs : ControllerServer W) (volume : W → Text → Option ZecVolume) (req : ValidateRequest)
      (s s' : Server W) (o : Option Confirmed)
    → IsFaithful cs.cloud volume
    → Server.validate_volume_capabilities cs req s ≡ (ok o, s')
    → (id : Text) × (serial : Text) × (v : ZecVolume) × (parse_csi_vol_id req.volume_id
        ≡ some (id, serial))
      × (volume s.world id ≡ some v)
      × (o ≡ (
          if validate_volume_capabilities cs.driver req.volume_capabilities
          then some (record {
            volume_context = req.volume_context;
            volume_capabilities = req.volume_capabilities;
            parameters = req.parameters;
          })
          else none))
unfolding Server.validate_volume_capabilities
validate-verdict cs volume req s s' o f h =
    let (b0, h0) = require-eq-ok (not (is_empty req.volume_id)) invalid_argument _ s h in
    let (b1, h1) = require-eq-ok (ltb 0 (length req.volume_capabilities)) invalid_argument _ s h0 in
    let ((id, serial), p, h2) = some_or-eq-ok not_found (parse_csi_vol_id req.volume_id) _ s h1 in
    let (u, read, h3) = on_world-eq-ok internal (cs.cloud.find_volume id) _ s h2 in
    let w = (cs.cloud.find_volume id s.world).1 in
    let (v, is, h4) = some_or-eq-ok not_found u _ (record s { world = w }) h3 in
    (
      id,
      serial,
      v,
      p,
      sym (f.finds id s.world u w read) ∙ is,
      ground
          (arith, h4, supports_all-validate_volume_capabilities cs.driver req.volume_capabilities),
    )
