-- ===== src/Common/Calculator.antt =====
-- pkg/common/calculator.go and the size constants of pkg/common/types.go.
-- `int` and `int64` are 64 bits wide; what can overflow is wrapped by `to_int64`.
pub mod Laws
use zenlayer_cloud_csi_drive.Prelude.{
  ℕ, ◌+◌, ◌-◌, ◌*◌, ◌/◌, ◌^◌, Bool, true, false, Option, none, some, ◌&&◌, ◌||◌, ltb, if◌then◌else◌,
  ℤ, pos, negsuc, to_int64, scale, ltb_ℤ, eqb_ℤ,
}

abbrev pub gib : ℕ
gib = 1024 * 1024 * 1024

-- The largest `int64`.
abbrev pub max_int64 : ℤ
max_int64 = pos (2 ^ 63 - 1)

-- csi.CapacityRange; a limit of 0 stands for no limit.
pub record CapacityRange : Type 0 where
  pub required_bytes : ℤ
  pub limit_bytes : ℤ

unfoldable pub gib_to_byte : ℤ → ℤ
gib_to_byte n = to_int64 (scale n gib)

-- The `res` of the source, after its correction.
unfoldable pub ceil_gib : ℕ → ℕ
ceil_gib n = let res = n / gib in if ltb (res * gib) n then res + 1 else res

unfoldable pub byte_ceil_to_gib : ℤ → ℤ
unfolding ceil_gib
byte_ceil_to_gib (pos n) = pos (ceil_gib n)
byte_ceil_to_gib (negsuc n) = pos 0

unfoldable pub is_valid_capacity_bytes : ℤ → Option CapacityRange → Bool
is_valid_capacity_bytes cur none = true
is_valid_capacity_bytes cur (some r) =
    if ltb_ℤ (pos 0) r.required_bytes && ltb_ℤ cur r.required_bytes
    then false
    else if ltb_ℤ (pos 0) r.limit_bytes && ltb_ℤ r.limit_bytes cur
    then false
    else true

-- Why a capacity range is refused.
pub data RangeError : Type 0 where
  negative_range required_above_limit above_max_size above_limit : RangeError

pub data RangeResult : Type 0 where
  bytes : ℤ → RangeResult
  refused : RangeError → RangeResult

unfoldable pub get_request_size_bytes : Option CapacityRange → RangeResult
get_request_size_bytes none = bytes (pos 0)
get_request_size_bytes (some r) =
    if ltb_ℤ r.required_bytes (pos 0) || ltb_ℤ r.limit_bytes (pos 0)
    then refused negative_range
    else let limit = if eqb_ℤ r.limit_bytes (pos 0) then max_int64 else r.limit_bytes in
      if ltb_ℤ limit r.required_bytes then refused required_above_limit else bytes r.required_bytes
