-- ===== src/Prelude/Lines.antt =====
-- strings.Split at one byte, strings.TrimSpace and strings.HasPrefix of Go, on the bytes of ASCII.
use Prim.Native.Nat.{ℕ}
use mathlib.Core.Bool.{Bool, true, false, ◌&&◌, ◌||◌}
use mathlib.Core.List.{List, [], ◌∷◌}
use zenlayer_cloud_csi_drive.Prelude.Tests.{leb, ◌==◌, if◌then◌else◌}
use zenlayer_cloud_csi_drive.Prelude.Strings.{Text}

-- A byte put before the first part.
abbrev pub onto_first : ℕ → List Text → List Text
onto_first c [] = (c ∷ []) ∷ []
onto_first c (p ∷ ps) = (c ∷ p) ∷ ps

unfoldable pub split : ℕ → Text → List Text
split sep [] = [] ∷ []
split sep (c ∷ s) = let rest = split sep s in if c == sep then [] ∷ rest else onto_first c rest

abbrev pub newline : ℕ
newline = 10

-- unicode.IsSpace on ASCII.
abbrev pub is_space : ℕ → Bool
is_space c = c == 32 || (leb 9 c && leb c 13)

abbrev pub trim_left : Text → Text
trim_left [] = []
trim_left (c ∷ s) = let rest = trim_left s in if is_space c then rest else c ∷ s

-- A byte before a text that has lost its trailing space.
abbrev pub onto_trimmed : ℕ → Text → Text
onto_trimmed c [] = if is_space c then [] else c ∷ []
onto_trimmed c (d ∷ s) = c ∷ d ∷ s

abbrev pub trim_right : Text → Text
trim_right [] = []
trim_right (c ∷ s) = onto_trimmed c (trim_right s)

unfoldable pub trim_space : Text → Text
trim_space s = trim_left (trim_right s)

unfoldable pub has_prefix : Text → Text → Bool
has_prefix s [] = true
has_prefix [] (p ∷ ps) = false
has_prefix (c ∷ s) (p ∷ ps) = c == p && has_prefix s ps
