-- ===== src/Rpc/Controller/Create/Settled.antt =====
-- What CreateVolume has left in the cloud when it answers with a volume.
use zenlayer_cloud_csi_drive.Prelude.{◌≡◌, ap, ◌∙◌, Option, some, arith, Text, ℤ}
use zenlayer_cloud_csi_drive.Prelude.Result.{ok}
use zenlayer_cloud_csi_drive.Rpc.State.{Server}
use zenlayer_cloud_csi_drive.Rpc.Requests.{CreateVolumeRequest, Volume}
use zenlayer_cloud_csi_drive.Cloud.Types.{ZecVolume}
use zenlayer_cloud_csi_drive.Rpc.Controller.Server.{ControllerServer}
use zenlayer_cloud_csi_drive.Rpc.Controller.Create.{
  Plan, plan, place, picked, is_compatible, reuse, created,
}
use zenlayer_cloud_csi_drive.Prelude.{true, ◌≤◌, ◌-◌, ◌^◌, ℕ, str_eq}
use zenlayer_cloud_csi_drive.Driver.StorageClass.Sizes.{range}
use zenlayer_cloud_csi_drive.Rpc.State.{internal}
use zenlayer_cloud_csi_drive.Rpc.State.Runs.{on_world-eq-ok}
use zenlayer_cloud_csi_drive.Rpc.Requests.{ContentSource}
use zenlayer_cloud_csi_drive.Rpc.Controller.Create.Laws.{IsPlan, planned_fits}
use zenlayer_cloud_csi_drive.Common.Calculator.{gib, gib_to_byte, byte_ceil_to_gib}
use zenlayer_cloud_csi_drive.Driver.VolumeType.{is_valid, type_to_string, string_to_type}
use zenlayer_cloud_csi_drive.Cloud.Lookup.{found}
use zenlayer_cloud_csi_drive.Cloud.Manager.Names.{Named, NamesVolumes}
use zenlayer_cloud_csi_drive.Rpc.Placement.{is_valid_topology}
use zenlayer_cloud_csi_drive.Rpc.Controller.Create.Quiet.{lookup}

module _ {W : Type 0} (cs : ControllerServer W) (req : CreateVolumeRequest) where
  -- The plan does not depend on the state of the server.
  pub plan_same :
      (s u : Server W) {p : Plan} {t : Server W}
      → plan cs req s ≡ (ok p, t)
      → (plan cs req u ≡ (ok p, u)) × (t ≡ s)
  unfolding plan place picked
  plan_same s u h = ground arith

  reuse_same :
      (p : Plan) (x : ZecVolume) (s u : Server W) {v : Volume} {t : Server W}
      → reuse cs req p x s ≡ (ok v, t)
      → (reuse cs req p x u ≡ (ok v, u)) × (t ≡ s)
  unfolding reuse
  reuse_same p x s u h = ground arith

-- A volume of a valid type in the zone that was planned passes IsValidTopology.
pub record IsPlaceable {W : Type 0} (cs : ControllerServer W) (req : CreateVolumeRequest)
    : Type 0 where
  pub at :
      (s : Server W) (p : Plan) (x : ZecVolume)
      → (plan cs req s).0 ≡ ok p
      → x.zone ≡ p.topology.zone_id
      → is_valid x.type ≡ true
      → is_valid_topology cs.proto_equal cs.driver x req.accessibility_requirements ≡ true

-- The lookup of the plan finds a volume, and CreateVolume answers with it.
pub record Settled {W : Type 0} (cs : ControllerServer W) (req : CreateVolumeRequest) (p : Plan)
    (v : Volume) (w : W) : Type 0 where
  pub volume : ZecVolume
  pub by_name : lookup cs req p w ≡ (found volume, w)
  pub answer : (u : Server W) → reuse cs req p volume u ≡ (ok v, u)

module _ {W : Type 0} (cs : ControllerServer W) (req : CreateVolumeRequest) (p : Plan)
    {Unused : Text → Text → Text → Text → W → Type 0} (n : NamesVolumes cs.cloud Unused) where
  pub found-Settled :
      (x : ZecVolume) (s t : Server W) (w : W) {v : Volume}
      → lookup cs req p w ≡ (found x, s.world)
      → reuse cs req p x s ≡ (ok v, t)
      → Settled cs req p v t.world
  found-Settled x s t w l h =
      let same = (reuse_same cs req p x s s h).1 in
      let quiet =
        n.repeats req.name p.topology.zone_id (type_to_string p.class.disk_type)
          p.class.place_group_id (byte_ceil_to_gib p.size) x w s.world l in
      record {
        volume = x;
        by_name = rw (same, quiet) (rw quiet at l);
        answer = λ u. (reuse_same cs req p x s u h).0;
      }

string_to_type-type_to_string : (t : ℤ) → is_valid t ≡ true → string_to_type (type_to_string t) ≡ t
unfolding string_to_type type_to_string is_valid str_eq
string_to_type-type_to_string t h = ground arith

module _ {W : Type 0} (cs : ControllerServer W) (req : CreateVolumeRequest) (p : Plan) where
  -- A volume that is made as it is planned is compatible with the request.
  pub made_compatible :
      (id : Text) (w : W) (s : Server W) (q l : ℕ)
      → req.capacity_range ≡ some (range q l)
      → q ≤ 2 ^ 63 - gib
      → IsPlaceable cs req
      → IsPlan req p
      → (plan cs req s).0 ≡ ok p
      → (k : Named cs.cloud req.name
          (byte_ceil_to_gib p.size)
          (type_to_string p.class.disk_type)
          p.topology.zone_id
          p.class.place_group_id
          id
          w)
      → is_compatible cs req p k.volume ≡ true
  unfolding is_compatible
  made_compatible id w s q l asked small placeable planned_ made k =
      let type : k.volume.type ≡ p.class.disk_type =
        k.type_asked ∙ string_to_type-type_to_string p.class.disk_type planned_.valid_type in
      let valid = ap is_valid type ∙ planned_.valid_type in
      let fits = planned_fits req p q l asked small planned_ in
      ground (
        arith,
        placeable.at s p k.volume made k.zone_asked valid,
        ap gib_to_byte k.size_asked,
        fits,
        type,
      )

  pub created-Settled :
      (source : Option ContentSource) (id : Text) (s t : Server W) {v : Volume}
      → source ≡ req.content_source
      → (k : Named cs.cloud req.name
          (byte_ceil_to_gib p.size)
          (type_to_string p.class.disk_type)
          p.topology.zone_id
          p.class.place_group_id
          id
          s.world)
      → is_compatible cs req p k.volume ≡ true
      → created cs p source id s ≡ (ok v, t)
      → Settled cs req p v t.world
  unfolding created reuse
  created-Settled source id s t of k fits h =
      let (o, read, h1) = on_world-eq-ok internal (cs.cloud.find_volume id) _ s h in
      let (same, told) = k.by_id o (cs.cloud.find_volume id s.world).1 read in
      let world : t.world ≡ s.world = ground (arith, h1, told, same) in
      record {
        volume = k.volume;
        by_name = rw world k.by_name;
        answer = λ u. ground (arith, h1, told, same, fits, of, ap gib_to_byte k.size_asked);
      }
