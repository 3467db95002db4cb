-- ===== src/Rpc/Controller/Create/Quiet.antt =====
-- CreateVolume for a name that is not known to be free.
use zenlayer_cloud_csi_drive.Prelude.{
  ◌≡◌, refl, Bool, true, false, not, arith, is_empty, leb, length,
}
use zenlayer_cloud_csi_drive.Prelude.Result.{ok}
use zenlayer_cloud_csi_drive.Cloud.Types.{ZecVolume}
use zenlayer_cloud_csi_drive.Cloud.Lookup.{Lookup, absent, found, conflict, failed}
use zenlayer_cloud_csi_drive.Common.Calculator.{byte_ceil_to_gib}
use zenlayer_cloud_csi_drive.Driver.Capability.{create_delete_volume}
use zenlayer_cloud_csi_drive.Driver.VolumeType.{type_to_string}
use zenlayer_cloud_csi_drive.Rpc.State.{Server, invalid_argument, unimplemented, ◌>>=◌}
use zenlayer_cloud_csi_drive.Rpc.State.Worlds.{
  Keeps, keeps, Keeps-bind, Keeps-require, Keeps-checked, Keeps-with_lock, Keeps-bind_then,
}
use zenlayer_cloud_csi_drive.Rpc.Requests.{CreateVolumeRequest}
use zenlayer_cloud_csi_drive.Rpc.Controller.Server.{ControllerServer, check_capability}
use zenlayer_cloud_csi_drive.Rpc.Controller.Create.{
  Plan, capabilities_fit, plan, place, picked, reuse, settle, find_by_name, provision,
  create_volume,
}

-- The lookup says that the name is free.
abbrev is_absent : Lookup ZecVolume → Bool
is_absent absent = true
is_absent (found v) = false
is_absent (conflict v) = false
is_absent (failed e) = false

module _ {W : Type 0} (cs : ControllerServer W) (P : W → Type 0) (req : CreateVolumeRequest) where
  pub plan-Keeps : Keeps P (plan cs req)
  unfolding plan place picked
  plan-Keeps = search keeps depth 30

  settle-Keeps :
      (p : Plan) (f : Lookup ZecVolume) → is_absent f ≡ false → Keeps P (settle cs req p f)
  unfolding settle reuse
  settle-Keeps p absent no_ = record { at = λ s h. ground (arith, no_) }
  settle-Keeps p (found v) no_ = search keeps depth 20
  settle-Keeps p (conflict v) no_ = search keeps
  settle-Keeps p (failed e) no_ = search keeps

  create_volume-Keeps : Keeps P (provision cs req) → Keeps P (create_volume cs req)
  unfolding create_volume check_capability
  create_volume-Keeps k =
      let locked = Keeps-with_lock P req.name (provision cs req) k in
      let sized = Keeps-checked P (leb (length req.name) 64) invalid_argument _ locked in
      let named = Keeps-checked P (not (is_empty req.name)) invalid_argument _ sized in
      Keeps-bind P (check_capability cs create_delete_volume) _ (Keeps-require P _ unimplemented)
        (λ u.
          Keeps-checked P (capabilities_fit cs req.volume_capabilities) invalid_argument _ named)

-- The lookup that CreateVolume makes for a plan.
abbrev pub lookup :
    {W : Type 0} → ControllerServer W → CreateVolumeRequest → Plan → W → Lookup ZecVolume × W
lookup cs req p =
    cs.cloud.find_volume_by_name req.name p.topology.zone_id (byte_ceil_to_gib p.size)
      (type_to_string p.class.disk_type) p.class.place_group_id

-- For every plan that the request is given, the lookup reads and does not say that the name is free.
pub record IsTaken {W : Type 0} (cs : ControllerServer W) (req : CreateVolumeRequest) (w : W)
    : Type 0 where
  pub quiet : (s : Server W) (p : Plan) → (plan cs req s).0 ≡ ok p → (lookup cs req p w).1 ≡ w
  pub told :
      (s : Server W) (p : Plan) → (plan cs req s).0 ≡ ok p → is_absent (lookup cs req p w).0 ≡ false

module _ {W : Type 0} (cs : ControllerServer W) (req : CreateVolumeRequest) (w : W)
    (t : IsTaken cs req w) where
  settled :
      (p : Plan)
      → (lookup cs req p w).1 ≡ w
      → is_absent (lookup cs req p w).0 ≡ false
      → Keeps (λ v. v ≡ w) (find_by_name cs req p >>= settle cs req p)
  unfolding find_by_name
  settled p quiet told = record {
    at = λ s h. (settle-Keeps cs (λ v. v ≡ w) req p _ (rw h told)).at _ (rw h quiet);
  }

  provision_quiet : Keeps (λ v. v ≡ w) (provision cs req)
  unfolding provision
  provision_quiet =
      Keeps-bind_then (λ v. v ≡ w) (plan cs req) _ (plan-Keeps cs (λ v. v ≡ w) req)
        (λ s p h. settled p (t.quiet s p h) (t.told s p h))

-- If the lookup that CreateVolume makes for its plan leaves the world as it is and does not answer
-- that there is no volume of the name, because it found one, found one of another size, or failed,
-- then CreateVolume leaves the world as it is, whatever it answers.
pub create_volume_quiet :
    {W : Type 0} (cs : ControllerServer W) (req : CreateVolumeRequest) (s : Server W)
    → IsTaken cs req s.world
    → (create_volume cs req s).1.world ≡ s.world
create_volume_quiet cs req s t =
    (create_volume-Keeps cs (λ v. v ≡ s.world) req (provision_quiet cs req s.world t)).at s refl
