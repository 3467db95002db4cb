-- ===== src/Rpc/Controller/Create/Laws.antt =====
-- The capacity of the volumes that CreateVolume answers with.
use zenlayer_cloud_csi_drive.Prelude.{
  ℕ, ◌≤◌, ◌≡◌, ◌-◌, ◌*◌, ◌^◌, ap, ◌∙◌, sym, true, List, Option, none, some, ◌⊎◌, arith, Text, ℤ,
  pos, ◌≤ℤ◌,
}
use zenlayer_cloud_csi_drive.Prelude.Result.{ok}
use zenlayer_cloud_csi_drive.Common.Calculator.{
  gib, bytes, gib_to_byte, byte_ceil_to_gib, is_valid_capacity_bytes,
}
use zenlayer_cloud_csi_drive.Common.Calculator.Laws.{
  gib_to_byte_exact, byte_ceil_to_gib-gib_to_byte,
}
use zenlayer_cloud_csi_drive.Driver.VolumeType.{is_valid}
use zenlayer_cloud_csi_drive.Driver.Topology.{Topology}
use zenlayer_cloud_csi_drive.Driver.StorageClass.{ZecStorageClass, get_required_volume_size_byte}
use zenlayer_cloud_csi_drive.Driver.StorageClass.Sizes.{
  HasLimits, range, least, required_size_sound, required_size_whole,
}
use zenlayer_cloud_csi_drive.Driver.StorageClass.Parameters.{
  Defaults, new_zec_storage_class_from_map,
}
use zenlayer_cloud_csi_drive.Driver.StorageClass.Parameters.Laws.{
  new_zec_storage_class_from_map-IsWellFormed,
}
use zenlayer_cloud_csi_drive.Cloud.Types.{ZecVolume}
use zenlayer_cloud_csi_drive.Cloud.Lookup.{Lookup, absent, found, conflict, failed}
use zenlayer_cloud_csi_drive.Rpc.State.{Server}
use zenlayer_cloud_csi_drive.Rpc.State.Answers.{
  answers, Answers, Answers-bind, Answers-weaken, Answers-bind_with,
}
use zenlayer_cloud_csi_drive.Rpc.Requests.{
  ContentSource, from_snapshot, from_volume, unset, CreateVolumeRequest, Volume,
}
use zenlayer_cloud_csi_drive.Rpc.Controller.Server.{ControllerServer, check_capability}
use zenlayer_cloud_csi_drive.Rpc.Controller.Create.{
  Plan, size_of, plan, is_compatible, reuse, created, create_empty, restore, create_from_snapshot,
  make, settle, find_by_name, provision, create_volume,
}

-- A plan that CreateVolume may have made for the request.
pub record IsPlan (req : CreateVolumeRequest) (p : Plan) : Type 0 where
  pub class : HasLimits p.class
  pub valid_type : is_valid p.class.disk_type ≡ true
  pub size : size_of (get_required_volume_size_byte p.class req.capacity_range) ≡ some p.size

-- What a new disk of the plan holds.
abbrev pub planned : Plan → ℤ
planned p = gib_to_byte (byte_ceil_to_gib p.size)

-- The volume that is answered holds what the plan says.
abbrev HoldsPlan : Plan → Volume → Type 0
HoldsPlan p v = v.capacity_bytes ≡ planned p

-- The volume that is answered lies in the range of the request.
abbrev InRange : CreateVolumeRequest → Volume → Type 0
InRange req v = is_valid_capacity_bytes v.capacity_bytes req.capacity_range ≡ true

compatible_fits :
    {W : Type 0}
    → (cs : ControllerServer W) (req : CreateVolumeRequest) (p : Plan) (v : ZecVolume)
    → is_compatible cs req p v ≡ true
    → is_valid_capacity_bytes (gib_to_byte v.size) req.capacity_range ≡ true
unfolding is_compatible
compatible_fits cs req p v h = ground (arith, h)

class-IsPlan :
    (d : Defaults) (req : CreateVolumeRequest) (sc : ZecStorageClass) (t : Topology)
    (ps : List (Text × Text)) (n : ℤ)
    → new_zec_storage_class_from_map d req.parameters ≡ ok sc
    → size_of (get_required_volume_size_byte sc req.capacity_range) ≡ some n
    → IsPlan req (record { class = sc; topology = t; parameters = ps; size = n })
class-IsPlan d req sc t ps n read size = record {
  class = (new_zec_storage_class_from_map-IsWellFormed d req.parameters sc read).limits;
  valid_type = (new_zec_storage_class_from_map-IsWellFormed d req.parameters sc read).valid_type;
  size = size;
}

whole_planned : (k : ℕ) → k ≤ 32768 → gib_to_byte (byte_ceil_to_gib (pos (k * gib))) ≡ pos (k * gib)
whole_planned k h =
    let exact = gib_to_byte_exact k (omega arith) in
    ap (λ b. gib_to_byte (byte_ceil_to_gib b)) (sym exact)
    ∙ ap gib_to_byte (byte_ceil_to_gib-gib_to_byte k (omega arith))
    ∙ exact

-- A new disk of the plan lies in the range.
pub planned_fits :
    (req : CreateVolumeRequest) (p : Plan) (q l : ℕ)
    → req.capacity_range ≡ some (range q l)
    → q ≤ 2 ^ 63 - gib
    → IsPlan req p
    → is_valid_capacity_bytes (planned p) req.capacity_range ≡ true
unfolding is_valid_capacity_bytes
planned_fits req p q l asked small k =
    let answered : get_required_volume_size_byte p.class (some (range q l)) ≡ bytes p.size =
      ground (arith, k.size, asked) in
    let whole = required_size_whole p.class q l p.size k.class small answered in
    let fit = required_size_sound p.class q l (least q) k.class small (answered ∙ ap bytes whole) in
    let same : planned p ≡ pos (least q * gib) =
      ap (λ b. gib_to_byte (byte_ceil_to_gib b)) whole ∙ whole_planned (least q) fit.below_max in
    ground (arith, asked, same, fit.enough, fit.within)

module _ {W : Type 0} (cs : ControllerServer W) where
  created-HoldsPlan :
      (p : Plan) (source : Option ContentSource) (id : Text)
      → Answers (HoldsPlan p) (created cs p source id)
  unfolding created
  created-HoldsPlan p source id = search answers depth 20

  make-HoldsPlan :
      (req : CreateVolumeRequest) (p : Plan) (source : Option ContentSource)
      → Answers (HoldsPlan p) (make cs req p source)
  unfolding make create_empty create_from_snapshot check_capability restore
  make-HoldsPlan req p none = search (answers, created-HoldsPlan) depth 20
  make-HoldsPlan req p (some (from_snapshot snap)) = search (answers, created-HoldsPlan) depth 30
  make-HoldsPlan req p (some (from_volume vol)) = search answers
  make-HoldsPlan req p (some unset) = search answers

  reuse-InRange :
      (req : CreateVolumeRequest) (p : Plan) (v : ZecVolume)
      → Answers (InRange req) (reuse cs req p v)
  unfolding reuse
  reuse-InRange req p v = search (answers, compatible_fits) depth 20

  pub plan-IsPlan : (req : CreateVolumeRequest) → Answers (IsPlan req) (plan cs req)
  unfolding plan
  plan-IsPlan req = search (answers, class-IsPlan) depth 20

  settle-InRange :
      (req : CreateVolumeRequest) (p : Plan) (q l : ℕ)
      → req.capacity_range ≡ some (range q l)
      → q ≤ 2 ^ 63 - gib
      → IsPlan req p
      → (f : Lookup ZecVolume) → Answers (InRange req) (settle cs req p f)
  unfolding settle
  settle-InRange req p q l asked small k absent =
      Answers-weaken (HoldsPlan p) (InRange req) (make cs req p req.content_source)
        (make-HoldsPlan req p req.content_source)
        (λ v h.
          ap (λ n. is_valid_capacity_bytes n req.capacity_range) h
          ∙ planned_fits req p q l asked small k)
  settle-InRange req p q l asked small k (found v) = reuse-InRange req p v
  settle-InRange req p q l asked small k (conflict v) = search answers
  settle-InRange req p q l asked small k (failed e) = search answers

  provision-InRange :
      (req : CreateVolumeRequest) (q l : ℕ)
      → req.capacity_range ≡ some (range q l)
      → q ≤ 2 ^ 63 - gib
      → Answers (InRange req) (provision cs req)
  unfolding provision
  provision-InRange req q l asked small =
      Answers-bind_with (IsPlan req) (InRange req) (plan cs req) _ (plan-IsPlan req) (λ p k.
        Answers-bind (InRange req) (find_by_name cs req p) (settle cs req p)
          (settle-InRange req p q l asked small k))

-- If CreateVolume answers with a volume, new or found by its name, and the required size of q bytes
-- is one that the rounding to GiB does not overflow, then the capacity of the volume lies in the
-- range of the request: it holds q bytes (if q is not 0), and does not pass the limit if there is one.
pub create_volume-InRange :
    {W : Type 0}
    → (cs : ControllerServer W) (req : CreateVolumeRequest) (s s' : Server W) (v : Volume) (q l : ℕ)
    → req.capacity_range ≡ some (range q l)
    → q ≤ 2 ^ 63 - gib
    → create_volume cs req s ≡ (ok v, s')
    → ((q ≡ 0) ⊎ (pos q ≤ℤ v.capacity_bytes)) × ((l ≡ 0) ⊎ (v.capacity_bytes ≤ℤ pos l))
unfolding create_volume check_capability is_valid_capacity_bytes
create_volume-InRange cs req s s' v q l asked small h =
    let all : Answers (InRange req) (create_volume cs req) =
      search (answers, provision-InRange cs req q l asked small) depth 20 in
    ground (arith, asked, all.at s v s' h)
