-- ===== src/Common/Hash.antt =====
-- GenerateHashInEightBytes of pkg/common/common.go: FNV-1a of 32 bits, printed in hexadecimal.
use zenlayer_cloud_csi_drive.Prelude.{
  ℕ, zero, suc, ◌+◌, ◌-◌, ◌*◌, ◌/◌, ◌%◌, ◌^◌, ◌≤◌, ◌<◌, ◌≡◌, refl, ◌∙◌, [], ◌∷◌, ◌++◌, arith, Text,
  length, length-append, ltb, ◌==◌, if◌then◌else◌, true, false,
}

-- The exclusive or of the lowest bits of two numbers.
unfoldable pub xor : ℕ → ℕ → ℕ → ℕ
xor zero a b = 0
xor (suc bits) a b = (if a % 2 == b % 2 then 0 else 1) + 2 * xor bits (a / 2) (b / 2)

abbrev pub offset_basis : ℕ
offset_basis = 2166136261

abbrev pub prime : ℕ
prime = 16777619

-- New32a, Write and Sum32 of hash/fnv.
unfoldable pub fnv_from : ℕ → Text → ℕ
unfolding xor
fnv_from h [] = h
fnv_from h (b ∷ s) = fnv_from (xor 32 h b * prime % 2 ^ 32) s

abbrev pub hex_digit : ℕ → ℕ
hex_digit d = if ltb d 10 then 48 + d else 87 + d

-- The digits of a number, no more than a bound that is the fuel.
unfoldable pub hex_digits : ℕ → ℕ → Text
hex_digits zero n = []
hex_digits (suc fuel) n = elim (ltb n 16) [
  | true ↦ hex_digit n ∷ []
  | false ↦ hex_digits fuel (n / 16) ++ (hex_digit (n % 16) ∷ [])
]

unfoldable pub zeros : ℕ → Text
zeros zero = []
zeros (suc n) = 48 ∷ zeros n

-- `%.8x`: eight digits at least. A number of 64 bits has sixteen at most.
unfoldable pub print_hex : ℕ → Text
unfolding hex_digits zeros
print_hex n = let digits = hex_digits 16 n in zeros (8 - length digits) ++ digits

unfoldable pub generate_hash_in_eight_bytes : Text → Text
unfolding fnv_from print_hex
generate_hash_in_eight_bytes input = print_hex (fnv_from offset_basis input)

fnv_from_small : (s : Text) (h : ℕ) → h < 2 ^ 32 → fnv_from h s < 2 ^ 32
unfolding fnv_from
fnv_from_small [] h lt = lt
fnv_from_small (b ∷ s) h lt = fnv_from_small s (xor 32 h b * prime % 2 ^ 32) (omega arith)

-- The numbers with a number of digits at most.
abbrev below : ℕ → ℕ
below zero = 1
below (suc k) = 16 * below k

hex_digits_short : (fuel k n : ℕ) → n < 16 * below k → length (hex_digits fuel n) ≤ suc k
unfolding hex_digits
hex_digits_short zero k n lt = omega arith
hex_digits_short (suc fuel) zero n lt = ground arith
hex_digits_short (suc fuel) (suc k) n lt =
    let rest = hex_digits_short fuel k (n / 16) in
    ground (arith, length-append (hex_digits fuel (n / 16)) (hex_digit (n % 16) ∷ []), rest)

length-zeros : (n : ℕ) → length (zeros n) ≡ n
unfolding zeros
length-zeros zero = refl
length-zeros (suc n) = omega (arith, length-zeros n)

-- GenerateHashInEightBytes always answers with eight characters: the value is of 32 bits, so that it
-- has eight hexadecimal digits at most, and shorter ones are filled up with zeros.
pub generate_hash_in_eight_bytes-length :
    (input : Text) → length (generate_hash_in_eight_bytes input) ≡ 8
unfolding generate_hash_in_eight_bytes print_hex
generate_hash_in_eight_bytes-length input =
    let n = fnv_from offset_basis input in
    let digits = hex_digits 16 n in
    length-append (zeros (8 - length digits)) digits
    ∙ omega (
      arith,
      length-zeros (8 - length digits),
      hex_digits_short 16 7 n (fnv_from_small input offset_basis (omega arith)),
    )
