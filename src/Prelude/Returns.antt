-- ===== src/Prelude/Returns.antt =====
-- What holds of the value that a call returns: one rule for each way to build a call.
use mathlib.Core.Path.{◌≡◌, refl, subst}
use mathlib.Core.Bool.{Bool, true, false}
use native.Mathlib.Omega.{arith}
use zenlayer_cloud_csi_drive.Prelude.Tests.{if◌then◌else◌}
use zenlayer_cloud_csi_drive.Prelude.Result.{Result, ok, Result-cases}
use zenlayer_cloud_csi_drive.Prelude.Act.{
  Act, pure, lift, refuse_if, with_error, ◌>>=◌, ◌>>◌, continue-eq-ok,
}
use mathlib.Core.Logic.{inl, inr}

-- Wherever the call starts, what it returns without an error has the property.
pub record Returns {E W A : Type 0} (Q : A → Type 0) (m : Act E W A) : Type 0 where
  pub at : (w : W) (a : A) (w' : W) → m w ≡ (ok a, w') → Q a

module _ {E W A : Type 0} (Q : A → Type 0) where
  pub Returns-pure : (a : A) → Q a → Returns {E = E} {W = W} Q (pure a)
  Returns-pure a q = record { at = λ w b w' g. subst Q (ground (arith, g)) q }

  pub Returns-refuse_if :
      (b : Bool) (e : E) (k : Act E W A)
      → (b ≡ false → Returns Q k)
      → Returns Q (refuse_if b e >> k)
  Returns-refuse_if true e k h = record { at = λ w a w' g. ground (arith, g) }
  Returns-refuse_if false e k h = h refl

  pub Returns-if :
      (b : Bool) (m n : Act E W A)
      → (b ≡ true → Returns Q m)
      → (b ≡ false → Returns Q n)
      → Returns Q (if b then m else n)
  Returns-if true m n km kn = km refl
  Returns-if false m n km kn = kn refl

  pub Returns-lift : (r : Result E A) → ((a : A) → r ≡ ok a → Q a) → Returns {W = W} Q (lift r)
  Returns-lift r h = record { at = λ w a w' g. h a (ground (arith, g)) }

pub Returns-with_error :
    {E F W A : Type 0} (Q : A → Type 0) (e : E → F) (m : Act E W A)
    → Returns Q m
    → Returns Q (with_error e m)
Returns-with_error Q e m k = record {
  at = λ w a w' g. elim (Result-cases (m w).0) [
    | inl (b, got) ↦ k.at w a w' (ground (arith, got, g))
    | inr (x, got) ↦ ground (arith, got, g)
  ];
}

module _ {E W A B : Type 0} (P : A → Type 0) (Q : B → Type 0) where
  -- What follows may rely on what holds of the value before it.
  pub Returns-bind :
      (m : Act E W A) (k : A → Act E W B)
      → Returns P m
      → ((a : A) → P a → Returns Q (k a))
      → Returns Q (m >>= k)
  Returns-bind m k hm hk = record {
    at = λ w b w' g.
        let (a, got, rest) = continue-eq-ok k (m w).0 (m w).1 g in
        (hk a (hm.at w a (m w).1 (ground (arith, got)))).at (m w).1 b w' rest;
  }

pub Returns-any :
    {E W A B : Type 0} (Q : B → Type 0) (m : Act E W A) (k : A → Act E W B)
    → ((a : A) → Returns Q (k a))
    → Returns Q (m >>= k)
Returns-any Q m k hk =
    Returns-bind (λ a. Unit {0}) Q m k (record { at = λ w a w' g. tt }) (λ a u. hk a)
