-- ===== src/Common/Calculator/Laws.antt =====
-- The conversions between bytes and GiB: rounding, bounds and where they wrap around.
use zenlayer_cloud_csi_drive.Prelude.{ℕ, ◌+◌, ◌*◌, ◌^◌, ◌≤◌, ◌<◌, ◌≡◌, arith, pos}
use zenlayer_cloud_csi_drive.Common.Calculator.{gib, gib_to_byte, ceil_gib, byte_ceil_to_gib}

-- The least number of GiB that holds n bytes.
pub ceil_gib_bounds : (n : ℕ) → (n ≤ ceil_gib n * gib) × (ceil_gib n * gib < n + gib)
unfolding ceil_gib
ceil_gib_bounds n = ground arith

pub ceil_gib_least : (n k : ℕ) → n ≤ k * gib → ceil_gib n ≤ k
ceil_gib_least n k h = omega (arith, ceil_gib_bounds n)

-- Whole GiB are kept.
pub ceil_gib-gib : (k : ℕ) → ceil_gib (k * gib) ≡ k
ceil_gib-gib k = omega (arith, ceil_gib_bounds (k * gib))

-- Below 2 ^ 33 GiB there is no wrap-around.
pub gib_to_byte_exact : (k : ℕ) → k < 2 ^ 33 → gib_to_byte (pos k) ≡ pos (k * gib)
unfolding gib_to_byte
gib_to_byte_exact k h = ground arith

-- The round trip of a size in whole GiB through bytes, for every size below 2 ^ 33 GiB.
pub byte_ceil_to_gib-gib_to_byte :
    (k : ℕ) → k < 2 ^ 33 → byte_ceil_to_gib (gib_to_byte (pos k)) ≡ pos k
unfolding byte_ceil_to_gib
byte_ceil_to_gib-gib_to_byte k h = ground (arith, gib_to_byte_exact k h, ceil_gib-gib k)
