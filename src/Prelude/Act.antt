-- ===== src/Prelude/Act.antt =====
-- Calls that act on the world outside and may fail: functions of the world, with their bind.
use mathlib.Core.Path.{◌≡◌, refl}
use mathlib.Core.Bool.{Bool, true, false}
use zenlayer_cloud_csi_drive.Prelude.Result.{Result, ok, err}
use native.Mathlib.Omega.{arith}

-- A call with errors in E and results in A, in worlds W.
abbrev pub Act : Type 0 → Type 0 → Type 0 → Type 0
Act E W A = W → Result E A × W

module _ {E W A : Type 0} where
  abbrev pub pure : A → Act E W A
  pure a w = (ok a, w)

  abbrev pub raise : E → Act E W A
  raise e w = (err e, w)

  abbrev pub lift : Result E A → Act E W A
  lift r w = (r, w)

-- What is done with the result of a call.
abbrev pub continue : {E W A B : Type 0} → (A → Act E W B) → Result E A → Act E W B
continue f (ok a) w = f a w
continue f (err e) w = (err e, w)

infixl 5 ◌>>=◌ ◌>>◌
abbrev pub ◌>>=◌ : {E W A B : Type 0} → Act E W A → (A → Act E W B) → Act E W B
◌>>=◌ m f w = continue f (m w).0 (m w).1

abbrev pub ◌>>◌ : {E W B : Type 0} → Act E W (Unit {0}) → Act E W B → Act E W B
m >> k = m >>= λ _. k

-- `if err` guard: goes on only where the test fails.
abbrev pub refuse_if : {E W : Type 0} → Bool → E → Act E W (Unit {0})
refuse_if true e w = (err e, w)
refuse_if false e w = (ok tt, w)

-- The inversion of a successful call.
pub continue-eq-ok :
    {E W A B : Type 0} (f : A → Act E W B) (r : Result E A) (w : W) {b : B} {w' : W}
    → continue f r w ≡ (ok b, w')
    → (a : A) × (r ≡ ok a) × (f a w ≡ (ok b, w'))
continue-eq-ok f (ok a) w h = (a, refl, h)
continue-eq-ok f (err e) w h = ground arith

pub refuse_if-eq-ok :
    {E W B : Type 0} (b : Bool) (e : E) (k : Act E W B) (w : W) {x : B} {w' : W}
    → (refuse_if b e >> k) w ≡ (ok x, w')
    → (b ≡ false) × (k w ≡ (ok x, w'))
refuse_if-eq-ok true e k w h = ground arith
refuse_if-eq-ok false e k w h = (refl, h)

-- A test that does not fail is passed.
pub refuse_if-bind :
    {E W B : Type 0} (b : Bool) (e : E) (k : Act E W B) (w : W)
    → b ≡ false
    → (refuse_if b e >> k) w ≡ k w
refuse_if-bind true e k w h = ground arith
refuse_if-bind false e k w h = refl

-- A call whose error is looked at: the result as a value.
abbrev pub attempt : {E F W A : Type 0} → Act E W A → Act F W (Result E A)
attempt m w = (ok (m w).0, (m w).1)

-- A call whose error stands for another one.
abbrev pub renamed : {E F A : Type 0} → (E → F) → Result E A → Result F A
renamed f (ok a) = ok a
renamed f (err e) = err (f e)

abbrev pub with_error : {E F W A : Type 0} → (E → F) → Act E W A → Act F W A
with_error f m w = (renamed f (m w).0, (m w).1)
