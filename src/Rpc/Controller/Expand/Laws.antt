-- ===== src/Rpc/Controller/Expand/Laws.antt =====
-- The answers of ControllerExpandVolume, for a cloud manager that the servers can rely on.
use zenlayer_cloud_csi_drive.Prelude.{
  ℕ, ◌≤◌, ◌≡◌, ◌-◌, ◌*◌, ◌^◌, ap, ◌∙◌, sym, not, Bool-cases, Option, some, inl, inr, arith, Text,
  is_empty, ℤ, pos, leb_ℤ,
}
use zenlayer_cloud_csi_drive.Prelude.Result.{ok}
use zenlayer_cloud_csi_drive.Common.Calculator.{gib, bytes, gib_to_byte, byte_ceil_to_gib}
use zenlayer_cloud_csi_drive.Common.Calculator.Laws.{
  gib_to_byte_exact, byte_ceil_to_gib-gib_to_byte,
}
use zenlayer_cloud_csi_drive.Common.VolumeId.{parse_csi_vol_id}
use zenlayer_cloud_csi_drive.Driver.VolumeType.{
  VolumeType, is_valid, volume_type_to_max_size, volume_type_to_min_size,
}
use zenlayer_cloud_csi_drive.Driver.Capability.{
  controller_expand_volume as expand_volume, validate_controller_service_request,
}
use zenlayer_cloud_csi_drive.Driver.StorageClass.{
  ZecStorageClass, new_default_zec_storage_class_from_type, get_required_volume_size_byte,
}
use zenlayer_cloud_csi_drive.Driver.StorageClass.Sizes.{
  HasLimits, IsAdmissible, range, least, required_size_sound, required_size_whole,
}
use zenlayer_cloud_csi_drive.Cloud.Types.{ZecVolume}
use zenlayer_cloud_csi_drive.Cloud.Manager.Contract.{IsFaithful}
use zenlayer_cloud_csi_drive.Rpc.State.{Server, invalid_argument, not_found, internal, out_of_range}
use zenlayer_cloud_csi_drive.Rpc.State.Runs.{
  require-eq-ok, some_or-eq-ok, on_world-eq-ok, with_lock-eq-ok,
}
use zenlayer_cloud_csi_drive.Rpc.Requests.{ExpandRequest, ExpandResponse}
use zenlayer_cloud_csi_drive.Rpc.Controller.Create.{size_of}
use zenlayer_cloud_csi_drive.Rpc.Controller.Server.{ControllerServer, check_capability}
use zenlayer_cloud_csi_drive.Rpc.Controller.Expand.{
  resize, expand_to, expand_locked, controller_expand_volume,
}

new_default-HasLimits :
    (t : VolumeType) (sc : ZecStorageClass)
    → new_default_zec_storage_class_from_type t ≡ some sc
    → HasLimits sc
unfolding new_default_zec_storage_class_from_type is_valid volume_type_to_max_size
    volume_type_to_min_size
new_default-HasLimits t sc h = record { min = ground arith; max = ground arith }

-- The answer names c GiB, which hold the required bytes and the disk as it is.
abbrev pub IsLargeEnough : ℕ → ℕ → ExpandResponse → Type 0
IsLargeEnough q n r =
    (c : ℕ) × (r.capacity_bytes ≡ pos (c * gib)) × (q ≤ c * gib) × (n ≤ c) × (c ≤ 32768)

module _ {W : Type 0} (cs : ControllerServer W) where
  expand_to-IsLargeEnough :
      (req : ExpandRequest) (id : Text) (v : ZecVolume) (q n k : ℕ) (s s' : Server W)
      {r : ExpandResponse}
      → v.size ≡ pos n
      → n ≤ 32768
      → k ≤ 32768
      → q ≤ k * gib
      → expand_to cs req id v (pos k) s ≡ (ok r, s')
      → IsLargeEnough q n r
  unfolding expand_to resize
  expand_to-IsLargeEnough req id v q n k s s' size small fits enough h =
      let current = gib_to_byte_exact n (omega arith) in
      let wanted = gib_to_byte_exact k (omega arith) in
      elim (Bool-cases (leb_ℤ (gib_to_byte (pos k)) (gib_to_byte v.size))) [
        | inl g ↦ (
          n,
          ground (arith, g, size, current, wanted, h),
          ground (arith, g, size, current, wanted),
          omega arith,
          small,
        )
        | inr g ↦ (
          k,
          ground (arith, g, size, current, wanted, h),
          enough,
          ground (arith, g, size, current, wanted),
          fits,
        )
      ]

  -- The size that the storage class answers, in GiB.
  sized :
      (sc : ZecStorageClass) (q l : ℕ) (b : ℤ)
      → HasLimits sc
      → q ≤ 2 ^ 63 - gib
      → size_of (get_required_volume_size_byte sc (some (range q l))) ≡ some b
      → (k : ℕ) × (byte_ceil_to_gib b ≡ pos k) × IsAdmissible q l k
  sized sc q l b lim small h =
      let answered : get_required_volume_size_byte sc (some (range q l)) ≡ bytes b =
        ground (arith, h) in
      let whole = required_size_whole sc q l b lim small answered in
      let fit = required_size_sound sc q l (least q) lim small (answered ∙ ap bytes whole) in
      (
        least q,
        ap byte_ceil_to_gib whole
            ∙ ground (
              arith,
              gib_to_byte_exact (least q),
              byte_ceil_to_gib-gib_to_byte (least q),
              fit.below_max,
            ),
        fit,
      )

  expand_locked-IsLargeEnough :
      (volume : W → Text → Option ZecVolume) (f : IsFaithful cs.cloud volume) (req : ExpandRequest)
      (id : Text) (v : ZecVolume) (q l n : ℕ) (s s' : Server W) {r : ExpandResponse}
      → req.capacity_range ≡ some (range q l)
      → q ≤ 2 ^ 63 - gib
      → volume s.world id ≡ some v
      → v.size ≡ pos n
      → n ≤ 32768
      → expand_locked cs req id s ≡ (ok r, s')
      → IsLargeEnough q n r
  unfolding expand_locked
  expand_locked-IsLargeEnough volume f req id v q l n s s' asked small there size fits h =
      let (o, read, h1) = on_world-eq-ok internal (cs.cloud.find_volume id) _ s h in
      let w = (cs.cloud.find_volume id s.world).1 in
      let t = record s { world = w } in
      let (u, is, h2) = some_or-eq-ok not_found o _ t h1 in
      let same : u ≡ v = ground (arith, is, f.finds id s.world o w read, there) in
      let (sc, class, h3) =
        some_or-eq-ok internal (new_default_zec_storage_class_from_type u.type) _ t h2 in
      let (b, found, h4) =
        some_or-eq-ok out_of_range (size_of (get_required_volume_size_byte sc req.capacity_range)) _
          t h3 in
      let (k, wanted, fit) =
        sized sc q l b (new_default-HasLimits u.type sc class) small
          (ap (λ c. size_of (get_required_volume_size_byte sc c)) (sym asked) ∙ found) in
      expand_to-IsLargeEnough req id u q n k t s' (ap (λ y. y.size) same ∙ size) fits fit.below_max
        fit.enough (ap (λ y. expand_to cs req id u y t) (sym wanted) ∙ h4)

-- For a cloud manager that keeps the contract IsFaithful: if ControllerExpandVolume answers
-- without an error for an identifier of the driver, whose disk has n GiB, n at most 32768, and
-- for a required size of q bytes that the rounding to GiB does not overflow, then the answer
-- names a whole number of GiB, at most 32768, that holds q bytes and is no smaller than n.
pub expand-IsLargeEnough :
    {W : Type 0}
    → (cs : ControllerServer W) (volume : W → Text → Option ZecVolume) (req : ExpandRequest)
      (s s' : Server W) (r : ExpandResponse) (id serial : Text) (v : ZecVolume) (q l n : ℕ)
    → IsFaithful cs.cloud volume
    → parse_csi_vol_id req.volume_id ≡ some (id, serial)
    → req.capacity_range ≡ some (range q l)
    → q ≤ 2 ^ 63 - gib
    → volume s.world id ≡ some v
    → v.size ≡ pos n
    → n ≤ 32768
    → controller_expand_volume cs req s ≡ (ok r, s')
    → IsLargeEnough q n r
unfolding controller_expand_volume check_capability
expand-IsLargeEnough cs volume req s s' r id serial v q l n f p asked small there size fits h =
    let (b0, h0) =
      require-eq-ok (validate_controller_service_request cs.driver expand_volume) _ _ s h in
    let (b1, h1) = require-eq-ok (not (is_empty req.volume_id)) invalid_argument _ s h0 in
    let (parts, is, h2) = some_or-eq-ok not_found (parse_csi_vol_id req.volume_id) _ s h1 in
    let same : parts.0 ≡ id = ground (arith, p, is) in
    let (lo, t, run, world) = with_lock-eq-ok (parts.0) (expand_locked cs req (parts.0)) s h2 in
    expand_locked-IsLargeEnough cs volume f req (parts.0) v q l n (record s { locks = lo }) t asked
      small (ap (volume s.world) same ∙ there) size fits run
