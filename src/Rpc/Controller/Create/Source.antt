-- ===== src/Rpc/Controller/Create/Source.antt =====
-- CreateVolume from a snapshot that another request works on.
use zenlayer_cloud_csi_drive.Prelude.{
  ◌≡◌, refl, ap, sym, ◌∙◌, inl, inr, Bool, true, false, not, some, arith, Text, is_empty, leb,
  length, Bool-cases,
}
use zenlayer_cloud_csi_drive.Prelude.Result.{ok, Result-cases}
use zenlayer_cloud_csi_drive.Common.Lock.{has, try_acquire}
use zenlayer_cloud_csi_drive.Cloud.Types.{ZecVolume}
use zenlayer_cloud_csi_drive.Cloud.Lookup.{Lookup, absent, found, conflict, failed}
use zenlayer_cloud_csi_drive.Driver.Capability.{
  create_delete_volume, validate_controller_service_request,
}
use zenlayer_cloud_csi_drive.Rpc.State.{
  Server, Rpc, Code, invalid_argument, unimplemented, require, with_lock, locked, ◌>>=◌, ◌>>◌,
}
use zenlayer_cloud_csi_drive.Rpc.State.Refusals.{Refuses, refuses}
use zenlayer_cloud_csi_drive.Rpc.Requests.{CreateVolumeRequest, Volume, from_snapshot}
use zenlayer_cloud_csi_drive.Rpc.Controller.Server.{ControllerServer, check_capability}
use zenlayer_cloud_csi_drive.Rpc.Controller.Create.{
  Plan, capabilities_fit, plan, reuse, make, create_from_snapshot, settle, find_by_name, provision,
  create_volume,
}
use zenlayer_cloud_csi_drive.Rpc.Controller.Create.Quiet.{lookup, plan-Keeps}
use zenlayer_cloud_csi_drive.Rpc.Controller.Create.Settled.{plan_same}

-- Run in the world w with the lock on snap held, the handler leaves the world as it is, and answers
-- without an error only in the case F.
record Waits {W A : Type 0} (snap : Text) (w : W) (F : Type 0) (m : Rpc W A) : Type 0 where
  world : (u : Server W) → u.world ≡ w → has snap u.locks.locks ≡ true → (m u).1.world ≡ w
  answer : (u : Server W) (a : A) → u.world ≡ w → has snap u.locks.locks ≡ true → (m u).0 ≡ ok a → F

module _ {W A : Type 0} (snap : Text) (w : W) (F : Type 0) where
  Waits-checked :
      (b : Bool) (c : Code) (m : Rpc W A) → Waits snap w F m → Waits snap w F (require b c >> m)
  Waits-checked true c m k = record {
    world = λ u h t. k.world u h t;
    answer = λ u a h t e. k.answer u a h t e;
  }
  Waits-checked false c m k = record { world = λ u h t. h; answer = λ u a h t e. absurd (cc e) }

  Waits-with_lock : (key : Text) (m : Rpc W A) → Waits snap w F m → Waits snap w F (with_lock key m)
  unfolding with_lock locked try_acquire has
  Waits-with_lock key m k = record {
    world = λ u h t. elim (Bool-cases (has key u.locks.locks)) [
      | inl taken ↦ ground (arith, taken, h)
      | inr free ↦
          let inside =
            k.world (record u { locks = (try_acquire key u.locks).1 }) h
              (ground (arith, free, t)) in
          ground (arith, free, inside)
    ];
    answer = λ u a h t e. elim (Bool-cases (has key u.locks.locks)) [
      | inl taken ↦ absurd (ground (arith, taken, e))
      | inr free ↦
          k.answer (record u { locks = (try_acquire key u.locks).1 }) a h (ground (arith, free, t))
            (ground (arith, free, e))
    ];
  }

  Waits-Refuses :
      (m : Rpc W A)
      → ((u : Server W) → has snap u.locks.locks ≡ true → Refuses u m)
      → Waits snap w F m
  Waits-Refuses m k = record {
    world = λ u h t. ap (λ r. r.1.world) ((k u t).at) ∙ h;
    answer = λ u a h t e. absurd (cc (e, (k u t).at));
  }

-- For every plan that the request is given, the lookup of the name only reads.
abbrev pub LooksUp : {W : Type 0} → ControllerServer W → CreateVolumeRequest → Server W → Type 0
LooksUp cs req s = (p : Plan) → (plan cs req s).0 ≡ ok p → (lookup cs req p s.world).1 ≡ s.world

-- The lookup that CreateVolume makes for its plan finds a volume.
abbrev pub FindsOne : {W : Type 0} → ControllerServer W → CreateVolumeRequest → Server W → Type 0
FindsOne cs req s =
    (p : Plan) × (x : ZecVolume) × ((plan cs req s).0 ≡ ok p)
    × ((lookup cs req p s.world).0 ≡ found x)

module _ {W : Type 0} (cs : ControllerServer W) (req : CreateVolumeRequest) (snap : Text)
    (source : req.content_source ≡ some (from_snapshot snap)) where
  make_refused :
      (p : Plan) (u : Server W)
      → has snap u.locks.locks ≡ true
      → Refuses u (make cs req p (some (from_snapshot snap)))
  unfolding make create_from_snapshot check_capability
  make_refused p u taken = search refuses depth 20

  reuse_world : (p : Plan) (x : ZecVolume) (u : Server W) → (reuse cs req p x u).1 ≡ u
  unfolding reuse
  reuse_world p x u = ground arith

  settle_refused :
      (p : Plan) (u : Server W) → has snap u.locks.locks ≡ true → Refuses u (settle cs req p absent)
  unfolding settle
  settle_refused p u taken = rw source (make_refused p u taken)

  settle-Waits :
      (w : W) (F : Type 0) (p : Plan) (f : Lookup ZecVolume)
      → ((x : ZecVolume) → f ≡ found x → F)
      → Waits snap w F (settle cs req p f)
  unfolding settle
  settle-Waits w F p absent k = Waits-Refuses snap w F _ (settle_refused p)
  settle-Waits w F p (found x) k = record {
    world = λ u h t. ap (λ v. v.world) (reuse_world p x u) ∙ h;
    answer = λ u a h t e. k x refl;
  }
  settle-Waits w F p (conflict x) k = record {
    world = λ u h t. h;
    answer = λ u a h t e. absurd (cc e);
  }
  settle-Waits w F p (failed x) k = record {
    world = λ u h t. h;
    answer = λ u a h t e. absurd (cc e);
  }

  searched-Waits :
      (s : Server W)
      → LooksUp cs req s
      → (p : Plan) → (plan cs req s).0 ≡ ok p
      → Waits snap s.world (FindsOne cs req s) (find_by_name cs req p >>= settle cs req p)
  unfolding find_by_name
  searched-Waits s reads p planned = record {
    world = λ u h t.
        (settle-Waits s.world (FindsOne cs req s) p (lookup cs req p u.world).0
            (λ x e. (p, x, planned, ap (λ w. (lookup cs req p w).0) (sym h) ∙ e))).world
          (record u { world = (lookup cs req p u.world).1 })
          (ap (λ w. (lookup cs req p w).1) h ∙ reads p planned) t;
    answer = λ u a h t e.
        (settle-Waits s.world (FindsOne cs req s) p (lookup cs req p u.world).0
            (λ x g. (p, x, planned, ap (λ w. (lookup cs req p w).0) (sym h) ∙ g))).answer
          (record u { world = (lookup cs req p u.world).1 }) a
          (ap (λ w. (lookup cs req p w).1) h ∙ reads p planned) t e;
  }

  -- The plan of one state of the server is that of every other.
  planned :
      (s u : Server W) (p : Plan)
      → (plan cs req u).0 ≡ ok p
      → ((plan cs req s).0 ≡ ok p) × (plan cs req u ≡ (ok p, u))
  planned s u p g =
      let whole : plan cs req u ≡ (ok p, (plan cs req u).1) = ap (λ r. (r, (plan cs req u).1)) g in
      let (there, same) = plan_same cs req u s whole in
      (ap (λ r. r.0) there, whole ∙ ap (λ t. (ok p, t)) same)

  provision-Waits :
      (s : Server W) → LooksUp cs req s → Waits snap s.world (FindsOne cs req s) (provision cs req)
  unfolding provision
  provision-Waits s reads = record {
    world = λ u h t. elim (Result-cases (plan cs req u).0) [
      | inl (p, g) ↦
          let (there, here) = planned s u p g in
          rw here ((searched-Waits s reads p there).world u h t)
      | inr (c, g) ↦ rw g ((plan-Keeps cs (λ w. w ≡ s.world) req).at u h)
    ];
    answer = λ u a h t e. elim (Result-cases (plan cs req u).0) [
      | inl (p, g) ↦
          let (there, here) = planned s u p g in
          (searched-Waits s reads p there).answer u a h t (rw here at e)
      | inr (c, g) ↦ absurd (cc (rw g at e))
    ];
  }

  create_volume-Waits :
      (w : W) (F : Type 0)
      → Waits snap w F (provision cs req)
      → Waits snap w F (create_volume cs req)
  unfolding create_volume check_capability
  create_volume-Waits w F k =
      let named = Waits-with_lock snap w F req.name (provision cs req) k in
      let sized = Waits-checked snap w F (leb (length req.name) 64) invalid_argument _ named in
      let given = Waits-checked snap w F (not (is_empty req.name)) invalid_argument _ sized in
      let fit =
        Waits-checked snap w F (capabilities_fit cs req.volume_capabilities) invalid_argument _
          given in
      Waits-checked snap w F (validate_controller_service_request cs.driver create_delete_volume)
        unimplemented _ fit

-- While the lock on a snapshot is held, CreateVolume from the snapshot makes nothing: if the lookup of
-- the name only reads, the world stays as it is, and an answer without an error is given only if
-- the lookup finds a volume of the name, which is then not made from the snapshot now.
pub create_source_pending :
    {W : Type 0} (cs : ControllerServer W) (req : CreateVolumeRequest) (snap : Text) (s : Server W)
    → req.content_source ≡ some (from_snapshot snap)
    → has snap s.locks.locks ≡ true
    → LooksUp cs req s
    → ((create_volume cs req s).1.world ≡ s.world)
      × ((v : Volume) → (create_volume cs req s).0 ≡ ok v → FindsOne cs req s)
create_source_pending cs req snap s source taken reads =
    let k =
      create_volume-Waits cs req snap source s.world (FindsOne cs req s)
        (provision-Waits cs req snap source s reads) in
    (k.world s refl taken, λ v e. k.answer s v refl taken e)
