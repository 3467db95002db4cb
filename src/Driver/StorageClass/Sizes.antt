-- ===== src/Driver/StorageClass/Sizes.antt =====
-- The size of the disk that a capacity range asks for (GetRequiredVolumeSizeByte).
use zenlayer_cloud_csi_drive.Prelude.{
  ℕ, ◌+◌, ◌-◌, ◌*◌, ◌^◌, ◌≤◌, ◌<◌, ◌≡◌, ◌⊎◌, some, arith, ℤ, pos, negsuc, ◌<ℤ◌, ltb, ◌&&◌,
  if◌then◌else◌,
}
use zenlayer_cloud_csi_drive.Common.Calculator.{
  gib, CapacityRange, RangeResult, bytes, refused, above_max_size, above_limit, negative_range,
  required_above_limit, gib_to_byte, byte_ceil_to_gib, ceil_gib,
}
use zenlayer_cloud_csi_drive.Common.Calculator.Laws.{
  ceil_gib_bounds, ceil_gib_least, gib_to_byte_exact,
}
use zenlayer_cloud_csi_drive.Driver.VolumeType.{zec_max_disk_size_bytes, zec_min_disk_size_bytes}
use zenlayer_cloud_csi_drive.Driver.StorageClass.{
  ZecStorageClass, get_required_volume_size_byte, round_up,
}

-- The limits that every storage class of the driver has.
pub record HasLimits (sc : ZecStorageClass) : Type 0 where
  pub min : sc.min_size ≡ zec_min_disk_size_bytes
  pub max : sc.max_size ≡ zec_max_disk_size_bytes

-- A disk of k GiB can be made, and lies in the range.
pub record IsAdmissible (required limit k : ℕ) : Type 0 where
  pub above_min : 20 ≤ k
  pub below_max : k ≤ 32768
  pub enough : required ≤ k * gib
  pub within : (limit ≡ 0) ⊎ (k * gib ≤ limit)

abbrev pub range : ℕ → ℕ → CapacityRange
range required limit = record { required_bytes = pos required; limit_bytes = pos limit }

-- The number of GiB that the rounding arrives at.
abbrev pub least : ℕ → ℕ
least required = ceil_gib (if ltb required (20 * gib) then 20 * gib else required)

least_bounds :
    (q : ℕ) → (20 ≤ least q) × (q ≤ least q * gib) × (least q * gib < q + gib ⊎ (least q ≡ 20))
least_bounds q = ground (arith, ceil_gib_bounds (if ltb q (20 * gib) then 20 * gib else q))

-- The decision on a size of c GiB.
abbrev decided : ℕ → ℕ → RangeResult
decided l c =
    if ltb 32768 c
    then refused above_max_size
    else if ltb 0 l && ltb l (c * gib)
    then refused above_limit
    else bytes (pos (c * gib))

module _ (sc : ZecStorageClass) (lim : HasLimits sc) (q l : ℕ) (small : q ≤ 2 ^ 63 - gib) where
  round_up-decided : round_up sc (pos l) (pos q) ≡ decided l (least q)
  unfolding round_up byte_ceil_to_gib
  round_up-decided =
      ground (arith, lim.min, lim.max, gib_to_byte_exact (least q) (omega (arith, least_bounds q)))

-- A storage class with the driver's limits, a required size q and a limit l in bytes (0 for no
-- limit), q so small that its rounding to GiB does not overflow: if the size that the class
-- answers is k GiB, then k lies between 20 and 32768, holds q and does not pass the limit.
pub required_size_sound :
    (sc : ZecStorageClass) (q l k : ℕ)
    → HasLimits sc
    → q ≤ 2 ^ 63 - gib
    → get_required_volume_size_byte sc (some (range q l)) ≡ bytes (pos (k * gib))
    → IsAdmissible q l k
unfolding get_required_volume_size_byte
required_size_sound sc q l k lim small h =
    ground (arith, round_up-decided sc lim q l small, least_bounds q)

-- The size is a whole number of GiB.
pub required_size_whole :
    (sc : ZecStorageClass) (q l : ℕ) (b : ℤ)
    → HasLimits sc
    → q ≤ 2 ^ 63 - gib
    → get_required_volume_size_byte sc (some (range q l)) ≡ bytes b
    → b ≡ pos (least q * gib)
unfolding get_required_volume_size_byte
required_size_whole sc q l b lim small h = ground (arith, round_up-decided sc lim q l small)

least-le : (q l k : ℕ) → IsAdmissible q l k → least q ≤ k
least-le q l k a = ceil_gib_least (if ltb q (20 * gib) then 20 * gib else q) k (ground arith)

least-IsAdmissible : (q l k : ℕ) → IsAdmissible q l k → IsAdmissible q l (least q)
least-IsAdmissible q l k a = ground (arith, least-le q l k a, least_bounds q)

-- For a storage class with the driver's limits: whenever a disk of k GiB is admissible for a
-- required size and a limit, the class answers the least admissible size: one of j GiB with j ≤ k
-- that is admissible itself.
pub required_size_least :
    (sc : ZecStorageClass) (q l k : ℕ)
    → HasLimits sc
    → IsAdmissible q l k
    → (j : ℕ) × (get_required_volume_size_byte sc (some (range q l)) ≡ bytes (pos (j * gib)))
      × (j ≤ k)
      × IsAdmissible q l j
unfolding get_required_volume_size_byte
required_size_least sc q l k lim a =
    let small : q ≤ 2 ^ 63 - gib = omega (arith, a.enough, a.below_max) in
    (
      least q,
      ground (arith, round_up-decided sc lim q l small, least-IsAdmissible q l k a),
      least-le q l k a,
      least-IsAdmissible q l k a,
    )

-- The sizes that overflow, for a storage class with the driver's limits: for a required size
-- above 2 ^ 63 - 2 ^ 30 bytes, in an int64, and no limit, the rounding wraps around, and the
-- class accepts the range with a size of -2 ^ 63 bytes.
pub required_size_overflow :
    (sc : ZecStorageClass) (q : ℕ)
    → HasLimits sc
    → 2 ^ 63 - gib < q
    → q < 2 ^ 63
    → get_required_volume_size_byte sc (some (range q 0)) ≡ bytes (negsuc (2 ^ 63 - 1))
unfolding get_required_volume_size_byte round_up byte_ceil_to_gib gib_to_byte
required_size_overflow sc q lim above below = ground (arith, lim.min, lim.max, ceil_gib_bounds q)

-- A range with a negative end, or with a positive limit below the required size, is refused.
pub bad_range_refused :
    (sc : ZecStorageClass) (r : CapacityRange)
    → (r.required_bytes <ℤ pos 0)
      ⊎ (r.limit_bytes <ℤ pos 0)
      ⊎ ((pos 0 <ℤ r.limit_bytes) × (r.limit_bytes <ℤ r.required_bytes))
    → (get_required_volume_size_byte sc (some r) ≡ refused negative_range)
      ⊎ (get_required_volume_size_byte sc (some r) ≡ refused required_above_limit)
unfolding get_required_volume_size_byte
bad_range_refused sc r h = ground arith
