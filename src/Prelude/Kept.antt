-- ===== src/Prelude/Kept.antt =====
-- Calls that leave a view of the world alone: one rule for each way to build a call.
use mathlib.Core.Path.{◌≡◌, refl, ◌∙◌}
use mathlib.Core.Bool.{Bool, true, false}
use zenlayer_cloud_csi_drive.Prelude.Tests.{if◌then◌else◌}
use zenlayer_cloud_csi_drive.Prelude.Result.{Result, ok, err}
use zenlayer_cloud_csi_drive.Prelude.Act.{
  Act, pure, raise, lift, attempt, with_error, continue, ◌>>=◌,
}

-- Wherever the call starts, the view f of the world is afterwards what it was.
pub record Kept {E W A V : Type 0} (f : W → V) (m : Act E W A) : Type 0 where
  pub at : (w : W) → f (m w).1 ≡ f w

module _ {W V : Type 0} (f : W → V) where
  pub Kept-lift : {E A : Type 0} (r : Result E A) → Kept f (lift r)
  Kept-lift r = record { at = λ w. refl }

  pub Kept-pure : {E A : Type 0} (a : A) → Kept {E = E} f (pure a)
  Kept-pure a = record { at = λ w. refl }

  pub Kept-raise : {E A : Type 0} (e : E) → Kept {A = A} f (raise e)
  Kept-raise e = record { at = λ w. refl }

  pub Kept-attempt : {E F A : Type 0} (m : Act E W A) → Kept f m → Kept {E = F} f (attempt m)
  Kept-attempt m k = record { at = k.at }

  pub Kept-with_error :
      {E F A : Type 0} (e : E → F) (m : Act E W A) → Kept f m → Kept f (with_error e m)
  Kept-with_error e m k = record { at = k.at }

  pub Kept-if :
      {E A : Type 0} (b : Bool) (m n : Act E W A)
      → Kept f m
      → Kept f n
      → Kept f (if b then m else n)
  Kept-if true m n km kn = km
  Kept-if false m n km kn = kn

  pub Kept-continue :
      {E A B : Type 0} (k : A → Act E W B) (r : Result E A) (w : W)
      → ((a : A) → Kept f (k a))
      → f (continue k r w).1 ≡ f w
  Kept-continue k (ok a) w h = (h a).at w
  Kept-continue k (err e) w h = refl

  pub Kept-bind :
      {E A B : Type 0} (m : Act E W A) (k : A → Act E W B)
      → Kept f m
      → ((a : A) → Kept f (k a))
      → Kept f (m >>= k)
  Kept-bind m k hm hk = record { at = λ w. Kept-continue k (m w).0 (m w).1 hk ∙ hm.at w }

pub ruleset kept =
    (Kept-lift, Kept-pure, Kept-raise, Kept-attempt, Kept-with_error, Kept-if, Kept-bind)
