-- ===== src/Rpc/State/Answers.antt =====
-- What holds of the answers of a handler, one rule for each way to build a handler.
use zenlayer_cloud_csi_drive.Prelude.{
  ◌≡◌, refl, subst, Bool, true, false, Option, none, some, arith, Text, if◌then◌else◌, Bool-cases,
  inl, inr,
}
use zenlayer_cloud_csi_drive.Prelude.Result.{Result, ok, err}
use zenlayer_cloud_csi_drive.Common.Lock.{has, try_acquire, release}
use zenlayer_cloud_csi_drive.Rpc.State.{
  Server, Rpc, Code, respond, refuse, proceed, require, or_code, some_or, with_lock, locked, ◌>>=◌,
  ◌>>◌,
}

-- Wherever the handler starts, what it answers without an error has the property.
pub record Answers {W A : Type 0} (Q : A → Type 0) (m : Rpc W A) : Type 0 where
  pub at : (s : Server W) (a : A) (s' : Server W) → m s ≡ (ok a, s') → Q a

module _ {W A : Type 0} (Q : A → Type 0) where
  pub Answers-respond : (a : A) → Q a → Answers {W = W} Q (respond a)
  Answers-respond a q = record { at = λ s b s' h. subst Q (ground (arith, h)) q }

  pub Answers-refuse : (c : Code) → Answers {W = W} Q (refuse c)
  Answers-refuse c = record { at = λ s b s' h. ground (arith, h) }

  pub Answers-if :
      (b : Bool) (m n : Rpc W A) → Answers Q m → Answers Q n → Answers Q (if b then m else n)
  Answers-if true m n km kn = km
  Answers-if false m n km kn = kn

  pub Answers-with_lock : (key : Text) (m : Rpc W A) → Answers Q m → Answers Q (with_lock key m)
  unfolding with_lock locked try_acquire release
  Answers-with_lock key m k = record {
    at = λ s a s' h. elim (Bool-cases (has key s.locks.locks)) [
      | inl taken ↦ ground (arith, taken, h)
      | inr free ↦
          let r = m (record s { locks = (try_acquire key s.locks).1 }) in
          k.at (record s { locks = (try_acquire key s.locks).1 }) a r.1 (ground (arith, free, h))
    ];
  }

  pub Answers-require :
      (b : Bool) (c : Code) (k : Rpc W A) → (b ≡ true → Answers Q k) → Answers Q (require b c >> k)
  Answers-require true c k h = h refl
  Answers-require false c k h = record { at = λ s b s' g. ground (arith, g) }

module _ {W A B : Type 0} (Q : B → Type 0) where
  Answers-proceed :
      (r : Result Code A) (f : A → Rpc W B) (s : Server W) (b : B) (s' : Server W)
      → ((a : A) → Answers Q (f a))
      → proceed f r s ≡ (ok b, s')
      → Q b
  Answers-proceed (ok a) f s b s' k h = (k a).at s b s' h
  Answers-proceed (err c) f s b s' k h = ground (arith, h)

  pub Answers-bind :
      (m : Rpc W A) (f : A → Rpc W B) → ((a : A) → Answers Q (f a)) → Answers Q (m >>= f)
  Answers-bind m f k = record { at = λ s b s' h. Answers-proceed (m s).0 f (m s).1 b s' k h }

  -- What follows may rely on the value that was there.
  pub Answers-some_or :
      (c : Code) (o : Option A) (f : A → Rpc W B)
      → ((a : A) → o ≡ some a → Answers Q (f a))
      → Answers Q (some_or c o >>= f)
  Answers-some_or c none f k = record { at = λ s b s' h. ground (arith, h) }
  Answers-some_or c (some a) f k = k a refl

  pub Answers-or_code :
      {E : Type 0} (c : Code) (r : Result E A) (f : A → Rpc W B)
      → ((a : A) → r ≡ ok a → Answers Q (f a))
      → Answers Q (or_code c r >>= f)
  Answers-or_code c (ok a) f k = k a refl
  Answers-or_code c (err e) f k = record { at = λ s b s' h. ground (arith, h) }

pub Answers-weaken :
    {W A : Type 0} (Q R : A → Type 0) (m : Rpc W A)
    → Answers Q m
    → ((a : A) → Q a → R a)
    → Answers R m
Answers-weaken Q R m k f = record { at = λ s a s' h. f a (k.at s a s' h) }

-- What follows may rely on what holds of the answer before it.
module _ {W A B : Type 0} (Q : A → Type 0) (R : B → Type 0) where
  Answers-proceed_with :
      (r : Result Code A) (f : A → Rpc W B) (s : Server W) (b : B) (s' : Server W)
      → ((a : A) → r ≡ ok a → Q a)
      → ((a : A) → Q a → Answers R (f a))
      → proceed f r s ≡ (ok b, s')
      → R b
  Answers-proceed_with (ok a) f s b s' q k h = (k a (q a refl)).at s b s' h
  Answers-proceed_with (err c) f s b s' q k h = ground (arith, h)

  pub Answers-bind_with :
      (m : Rpc W A) (f : A → Rpc W B)
      → Answers Q m
      → ((a : A) → Q a → Answers R (f a))
      → Answers R (m >>= f)
  Answers-bind_with m f q k = record {
    at = λ s b s' h.
        Answers-proceed_with (m s).0 f (m s).1 b s' (λ a e. q.at s a (m s).1 (ground (arith, e))) k
          h;
  }

pub ruleset answers = (
  Answers-respond, Answers-refuse, Answers-if, Answers-with_lock, Answers-require, Answers-some_or,
  Answers-or_code, Answers-bind,
)
