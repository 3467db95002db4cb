-- ===== src/Prelude/Slices.antt =====
-- Slices of lists: `take` and `drop`.
use Prim.Native.Nat.{ℕ, zero, suc, ◌+◌, ◌≤◌}
use mathlib.Core.Path.{◌≡◌, refl, ap, ◌∙◌, sym}
use mathlib.Core.List.{List, [], ◌∷◌, ◌++◌}
use native.Mathlib.Omega.{arith}
use zenlayer_cloud_csi_drive.Prelude.Lists.{length, take, drop}

module _ {ℓ} {A : Type ℓ} where
  pub take_all : (n : ℕ) (xs : List A) → length xs ≤ n → take n xs ≡ xs
  take_all zero [] h = refl
  take_all zero (x ∷ xs) h = absurd (omega arith)
  take_all (suc n) [] h = refl
  take_all (suc n) (x ∷ xs) h = ap (◌∷◌ x) (take_all n xs (omega arith))

  drop-nil : (n : ℕ) → ◌≡◌ {A = List A} (drop n []) []
  drop-nil zero = refl
  drop-nil (suc n) = refl

  take-nil : (n : ℕ) → ◌≡◌ {A = List A} (take n []) []
  take-nil zero = refl
  take-nil (suc n) = refl

  pub drop-drop : (a b : ℕ) (xs : List A) → drop b (drop a xs) ≡ drop (a + b) xs
  drop-drop zero b xs = ap (λ n. drop n xs) (omega arith)
  drop-drop (suc a) b [] = drop-nil b ∙ sym (drop-nil (suc a + b))
  drop-drop (suc a) b (x ∷ xs) = drop-drop a b xs ∙ ap (λ n. drop n (x ∷ xs)) (suc-+ a b)
    where
      suc-+ : (a b : ℕ) → suc (a + b) ≡ suc a + b
      suc-+ a b = omega arith

  pub take-take-drop : (a m : ℕ) (xs : List A) → take a xs ++ take m (drop a xs) ≡ take (a + m) xs
  take-take-drop zero m xs = ap (λ n. take n xs) (omega arith)
  take-take-drop (suc a) m [] = take-nil m ∙ sym (take-nil (suc a + m))
  take-take-drop (suc a) m (x ∷ xs) =
      ap (◌∷◌ x) (take-take-drop a m xs) ∙ ap (λ n. take n (x ∷ xs)) (suc-+ a m)
    where
      suc-+ : (a b : ℕ) → suc (a + b) ≡ suc a + b
      suc-+ a b = omega arith
