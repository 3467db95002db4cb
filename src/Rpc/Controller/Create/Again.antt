-- ===== src/Rpc/Controller/Create/Again.antt =====
-- CreateVolume again, after it has answered.
use zenlayer_cloud_csi_drive.Prelude.{◌≡◌, ap, ◌∙◌, sym, some, arith}
use zenlayer_cloud_csi_drive.Prelude.Result.{ok}
use zenlayer_cloud_csi_drive.Rpc.State.{Server}
use zenlayer_cloud_csi_drive.Rpc.Requests.{CreateVolumeRequest, Volume}
use zenlayer_cloud_csi_drive.Driver.Capability.{
  create_delete_volume, validate_controller_service_request,
}
use zenlayer_cloud_csi_drive.Rpc.Controller.Server.{ControllerServer, check_capability}
use zenlayer_cloud_csi_drive.Rpc.Controller.Create.{
  Plan, capabilities_fit, plan, settle, find_by_name, provision, create_volume,
}
use zenlayer_cloud_csi_drive.Prelude.{Text, subst, not, is_empty, leb, length, ◌≤◌, ◌-◌, ◌^◌, ℕ}
use zenlayer_cloud_csi_drive.Driver.StorageClass.Sizes.{range}
use zenlayer_cloud_csi_drive.Rpc.State.{unimplemented, invalid_argument, ◌>>=◌}
use zenlayer_cloud_csi_drive.Rpc.State.Runs.{
  with_lock-free, with_lock_quiet, require-bind, proceed-eq-ok, require-eq-ok, with_lock-eq-ok,
}
use zenlayer_cloud_csi_drive.Rpc.Controller.Create.Laws.{plan-IsPlan}
use zenlayer_cloud_csi_drive.Common.Calculator.{gib}
use zenlayer_cloud_csi_drive.Cloud.Lookup.{found}
use zenlayer_cloud_csi_drive.Cloud.Manager.Names.{NamesVolumes}
use zenlayer_cloud_csi_drive.Common.Lock.{has}
use zenlayer_cloud_csi_drive.Rpc.Controller.Dispatch.Locks.{KeepsLocks-create_volume}
use zenlayer_cloud_csi_drive.Rpc.Controller.Create.Quiet.{lookup}
use zenlayer_cloud_csi_drive.Rpc.Controller.Create.Settled.{IsPlaceable, Settled, plan_same}
use zenlayer_cloud_csi_drive.Rpc.Controller.Create.Search.{search-Settled}

-- What a call of provision that has answered leaves behind.
record Provisioned {W : Type 0} (cs : ControllerServer W) (req : CreateVolumeRequest) (v : Volume)
    (w : W) : Type 0 where
  made : Plan
  same : (u : Server W) → plan cs req u ≡ (ok made, u)
  settled : Settled cs req made v w

module _ {W : Type 0} (cs : ControllerServer W) (req : CreateVolumeRequest) where
  provision-Provisioned :
      {Unused : Text → Text → Text → Text → W → Type 0} (n : NamesVolumes cs.cloud Unused) (q l : ℕ)
      (s t : Server W) {v : Volume}
      → req.capacity_range ≡ some (range q l)
      → q ≤ 2 ^ 63 - gib
      → IsPlaceable cs req
      → provision cs req s ≡ (ok v, t)
      → Provisioned cs req v t.world
  unfolding provision
  provision-Provisioned n q l s t asked small placeable h =
      let r = plan cs req s in
      let (p, e, rest) = proceed-eq-ok (λ p. find_by_name cs req p >>= settle cs req p) r.0 r.1 h in
      let whole : plan cs req s ≡ (ok p, r.1) = ground (arith, e) in
      record {
        made = p;
        same = λ u. (plan_same cs req s u whole).0;
        settled =
            search-Settled cs req p n q l asked small placeable
              ((plan-IsPlan cs req).at s p r.1 whole) s e r.1 t rest;
      }

  provision_again :
      (v : Volume) (w : W) (k : Provisioned cs req v w) (u : Server W)
      → u.world ≡ w
      → provision cs req u ≡ (ok v, u)
  unfolding provision find_by_name settle
  provision_again v w k u e =
      let known : lookup cs req k.made u.world ≡ (found k.settled.volume, u.world) =
        rw e k.settled.by_name in
      ground (arith, k.same u, known, k.settled.answer u)

-- CreateVolume is idempotent, for a cloud manager that finds the volumes that it has created by their
-- names (NamesVolumes), a required size that the rounding to GiB does not overflow, and a request whose
-- topologies fit the zone that is planned (IsPlaceable): if it has answered with a volume, it answers
-- with the same one when it is called again, and then changes nothing.
pub create_volume_again :
    {W : Type 0} (cs : ControllerServer W) (req : CreateVolumeRequest)
    (Unused : Text → Text → Text → Text → W → Type 0) (s s' : Server W) (v : Volume) (q l : ℕ)
    → NamesVolumes cs.cloud Unused
    → req.capacity_range ≡ some (range q l)
    → q ≤ 2 ^ 63 - gib
    → IsPlaceable cs req
    → create_volume cs req s ≡ (ok v, s')
    → create_volume cs req s' ≡ (ok v, s')
unfolding create_volume check_capability
create_volume_again cs req Unused s s' v q l n asked small placeable h =
    let (b0, h0) =
      require-eq-ok (validate_controller_service_request cs.driver create_delete_volume)
        unimplemented _ s h in
    let (b1, h1) =
      require-eq-ok (capabilities_fit cs req.volume_capabilities) invalid_argument _ s h0 in
    let (b2, h2) = require-eq-ok (not (is_empty req.name)) invalid_argument _ s h1 in
    let (b3, h3) = require-eq-ok (leb (length req.name) 64) invalid_argument _ s h2 in
    let (held, t, run, world) = with_lock-eq-ok req.name (provision cs req) s h3 in
    let k =
      subst (Provisioned cs req v) world
        (provision-Provisioned cs req n q l _ t asked small placeable run) in
    let kept : s'.locks ≡ s.locks =
      ap (λ r. (r.1).locks) (sym h) ∙ (KeepsLocks-create_volume cs req).at s in
    let free =
      ap (λ a. has req.name a.locks) kept ∙ with_lock-free req.name (provision cs req) s h3 in
    require-bind _ unimplemented _ s' b0
    ∙ require-bind _ invalid_argument _ s' b1
    ∙ require-bind _ invalid_argument _ s' b2
    ∙ require-bind _ invalid_argument _ s' b3
    ∙ with_lock_quiet req.name (provision cs req) s' (ok v) free
        (provision_again cs req v s'.world k)
