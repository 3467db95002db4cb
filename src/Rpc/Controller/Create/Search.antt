-- ===== src/Rpc/Controller/Create/Search.antt =====
-- What CreateVolume has left in the cloud after it has looked for the name and settled.
use zenlayer_cloud_csi_drive.Prelude.{◌≡◌, refl, Option, some, none, arith, Text}
use zenlayer_cloud_csi_drive.Prelude.Result.{ok}
use zenlayer_cloud_csi_drive.Rpc.State.{Server}
use zenlayer_cloud_csi_drive.Rpc.Requests.{CreateVolumeRequest, Volume}
use zenlayer_cloud_csi_drive.Cloud.Types.{ZecVolume}
use zenlayer_cloud_csi_drive.Driver.Capability.{
  create_delete_snapshot, validate_controller_service_request,
}
use zenlayer_cloud_csi_drive.Rpc.Controller.Server.{ControllerServer, check_capability}
use zenlayer_cloud_csi_drive.Rpc.Controller.Create.{
  Plan, plan, create_empty, restore, create_from_snapshot, make, settle, find_by_name,
}
use zenlayer_cloud_csi_drive.Prelude.{subst, not, is_empty, ◌≤◌, ◌-◌, ◌^◌, ℕ}
use zenlayer_cloud_csi_drive.Driver.StorageClass.Sizes.{range}
use zenlayer_cloud_csi_drive.Rpc.State.{internal, not_found, unimplemented, invalid_argument, ◌>>=◌}
use zenlayer_cloud_csi_drive.Rpc.State.Runs.{
  on_world-eq-ok, some_or-eq-ok, require-eq-ok, with_lock-eq-ok,
}
use zenlayer_cloud_csi_drive.Rpc.Requests.{ContentSource, from_snapshot, from_volume, unset}
use zenlayer_cloud_csi_drive.Rpc.Controller.Create.Laws.{IsPlan}
use zenlayer_cloud_csi_drive.Common.Calculator.{gib, byte_ceil_to_gib}
use zenlayer_cloud_csi_drive.Driver.VolumeType.{type_to_string}
use zenlayer_cloud_csi_drive.Cloud.Lookup.{Lookup, absent, found, conflict, failed}
use zenlayer_cloud_csi_drive.Cloud.Manager.Names.{NamesVolumes}
use zenlayer_cloud_csi_drive.Rpc.Controller.Create.Quiet.{lookup}
use zenlayer_cloud_csi_drive.Rpc.Controller.Create.Settled.{
  IsPlaceable, Settled, found-Settled, made_compatible, created-Settled,
}

-- The name of the request is unused in a world, for the plan.
abbrev IsFree :
    {W : Type 0}
    → (Text → Text → Text → Text → W → Type 0)
    → CreateVolumeRequest
    → Plan
    → W
    → Type 0
IsFree Unused req p w =
    Unused req.name p.topology.zone_id (type_to_string p.class.disk_type) p.class.place_group_id w

module _ {W : Type 0} (cs : ControllerServer W) (req : CreateVolumeRequest) (p : Plan)
    {Unused : Text → Text → Text → Text → W → Type 0} (n : NamesVolumes cs.cloud Unused) (q l : ℕ)
    (asked : req.capacity_range ≡ some (range q l)) (small : q ≤ 2 ^ 63 - gib)
    (placeable : IsPlaceable cs req) (planned_ : IsPlan req p) (s0 : Server W)
    (made : (plan cs req s0).0 ≡ ok p) where
  empty-Settled :
      (s t : Server W) {v : Volume}
      → IsFree Unused req p s.world
      → none ≡ req.content_source
      → create_empty cs req p s ≡ (ok v, t)
      → Settled cs req p v t.world
  unfolding create_empty
  empty-Settled s t unused of h =
      let (id, run, h1) =
        on_world-eq-ok internal
          (cs.cloud.create_volume req.name (byte_ceil_to_gib p.size)
            (type_to_string p.class.disk_type) p.topology.zone_id p.class.place_group_id
            p.class.burst_enable)
          _ s h in
      let k =
        n.creates req.name (type_to_string p.class.disk_type) p.topology.zone_id
          p.class.place_group_id id (byte_ceil_to_gib p.size) p.class.burst_enable s.world _ unused
          run in
      created-Settled cs req p none id _ t of k
        (made_compatible cs req p id _ s0 q l asked small placeable planned_ made k) h1

  restore-Settled :
      (snap : Text) (s t : Server W) {v : Volume}
      → IsFree Unused req p s.world
      → some (from_snapshot snap) ≡ req.content_source
      → restore cs req p snap s ≡ (ok v, t)
      → Settled cs req p v t.world
  unfolding restore
  restore-Settled snap s t unused of h =
      let (o, read, h1) = on_world-eq-ok internal (cs.cloud.find_snapshot snap) _ s h in
      let unused' =
        n.keeps req.name p.topology.zone_id (type_to_string p.class.disk_type)
          p.class.place_group_id snap o s.world _ unused read in
      let (info, there, h2) = some_or-eq-ok not_found o _ _ h1 in
      let (able, h3) = require-eq-ok info.disk_ability internal _ _ h2 in
      let (id, run, h4) =
        on_world-eq-ok internal
          (cs.cloud.create_volume_from_snapshot req.name (byte_ceil_to_gib p.size)
            (type_to_string p.class.disk_type) p.topology.zone_id p.class.place_group_id snap
            p.class.burst_enable)
          _ _ h3 in
      let k =
        n.restores req.name (type_to_string p.class.disk_type) p.topology.zone_id
          p.class.place_group_id snap id (byte_ceil_to_gib p.size) p.class.burst_enable _ _ unused'
          run in
      created-Settled cs req p (some (from_snapshot snap)) id _ t of k
        (made_compatible cs req p id _ s0 q l asked small placeable planned_ made k) h4

  make-Settled :
      (source : Option ContentSource) (s t : Server W) {v : Volume}
      → IsFree Unused req p s.world
      → source ≡ req.content_source
      → make cs req p source s ≡ (ok v, t)
      → Settled cs req p v t.world
  unfolding make create_from_snapshot check_capability
  make-Settled none s t unused of h = empty-Settled s t unused of h
  make-Settled (some (from_snapshot snap)) s t {v} unused of h =
      let (b0, h0) =
        require-eq-ok (validate_controller_service_request cs.driver create_delete_snapshot)
          unimplemented _ s h in
      let (b1, h1) = require-eq-ok (not (is_empty snap)) invalid_argument _ s h0 in
      let (held, u, run, world) = with_lock-eq-ok snap (restore cs req p snap) s h1 in
      subst (Settled cs req p v) world (restore-Settled snap _ u unused of run)
  make-Settled (some (from_volume vol)) s t unused of h = absurd (ground (arith, h))
  make-Settled (some unset) s t unused of h = absurd (ground (arith, h))

  settle-Settled :
      (f : Lookup ZecVolume) (s t : Server W) (w : W) {v : Volume}
      → lookup cs req p w ≡ (f, s.world)
      → settle cs req p f s ≡ (ok v, t)
      → Settled cs req p v t.world
  unfolding settle
  settle-Settled absent s t w e h =
      let unused =
        n.tells req.name p.topology.zone_id (type_to_string p.class.disk_type)
          p.class.place_group_id (byte_ceil_to_gib p.size) w s.world e in
      make-Settled req.content_source s t unused refl h
  settle-Settled (found x) s t w e h = found-Settled cs req p n x s t w e h
  settle-Settled (conflict x) s t w e h = absurd (ground (arith, h))
  settle-Settled (failed x) s t w e h = absurd (ground (arith, h))

  pub search-Settled :
      (s t : Server W) {v : Volume}
      → (find_by_name cs req p >>= settle cs req p) s ≡ (ok v, t)
      → Settled cs req p v t.world
  unfolding find_by_name
  search-Settled s t h =
      settle-Settled (lookup cs req p s.world).0 (record s { world = (lookup cs req p s.world).1 })
        t s.world refl h
