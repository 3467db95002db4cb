-- ===== src/Prelude/Result.antt =====
-- Functions that may fail: a value, or the kind of an error.
use mathlib.Core.Path.{◌≡◌, refl}
use mathlib.Core.Logic.{◌⊎◌, inl, inr}
use mathlib.Core.Bool.{Bool, true, false}
use mathlib.Core.Option.{Option, none, some}

pub data Result (E A : Type 0) : Type 0 where
  ok : A → Result E A
  err : E → Result E A

module _ {E A B : Type 0} where
  infixl 5 ◌>>=◌
  abbrev pub ◌>>=◌ : Result E A → (A → Result E B) → Result E B
  err z >>= next = err z
  ok x >>= next = next x

  pub >>=_cong :
      (r : Result E A) (k l : A → Result E B) → ((x : A) → k x ≡ l x) → (r >>= k) ≡ (r >>= l)
  >>=_cong (err z) k l same = refl
  >>=_cong (ok x) k l same = same x

  -- Where the whole succeeds, the first part does, and what follows it.
  pub >>=-eq-ok :
      (r : Result E A) (next : A → Result E B) {y : B} (whole : (r >>= next) ≡ ok y)
      → (x : A) × (r ≡ ok x) × (next x ≡ ok y)
  >>=-eq-ok (err z) next whole = cc
  >>=-eq-ok (ok x) next whole = (x, refl, whole)

pub >>=_assoc :
    {E A B C : Type 0} (m : Result E A) (f : A → Result E B) (g : B → Result E C)
    → ((m >>= f) >>= g) ≡ (m >>= λ a. f a >>= g)
>>=_assoc (ok a) f g = refl
>>=_assoc (err e) f g = refl

abbrev pub from_option : {E A : Type 0} → E → Option A → Result E A
from_option e none = err e
from_option e (some a) = ok a

pub Result-cases :
    {E A : Type 0} (r : Result E A) → ((a : A) × (r ≡ ok a)) ⊎ ((x : E) × (r ≡ err x))
Result-cases (ok a) = inl (a, refl)
Result-cases (err x) = inr (x, refl)

abbrev pub is_ok : {E A : Type 0} → Result E A → Bool
is_ok (ok a) = true
is_ok (err e) = false
