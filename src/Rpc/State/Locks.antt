-- ===== src/Rpc/State/Locks.antt =====
-- Handlers give back the locks that they take: one rule for each way to build a handler.
use zenlayer_cloud_csi_drive.Prelude.{
  ◌≡◌, refl, ◌∙◌, Bool, true, false, Option, arith, Text, if◌then◌else◌, Bool-cases, inl, inr,
}
use zenlayer_cloud_csi_drive.Prelude.Result.{Result, ok, err}
use zenlayer_cloud_csi_drive.Common.Lock.{has, try_acquire, release}
use zenlayer_cloud_csi_drive.Common.Lock.Laws.{delete-insert}
use zenlayer_cloud_csi_drive.Prelude.Act.{Act}
use zenlayer_cloud_csi_drive.Rpc.State.{
  Server, Rpc, Code, respond, refuse, proceed, require, or_code, some_or, on_world, with_lock,
  locked, ◌>>=◌,
}

-- Whatever the handler returns, the locks are what they were.
pub record KeepsLocks {W A : Type 0} (m : Rpc W A) : Type 0 where
  pub at : (s : Server W) → (m s).1.locks ≡ s.locks

module _ {W A : Type 0} where
  pub KeepsLocks-respond : (a : A) → KeepsLocks {W = W} (respond a)
  KeepsLocks-respond a = record { at = λ s. refl }

  pub KeepsLocks-refuse : (c : Code) → KeepsLocks {W = W} {A = A} (refuse c)
  KeepsLocks-refuse c = record { at = λ s. refl }

  pub KeepsLocks-some_or : (c : Code) (o : Option A) → KeepsLocks {W = W} (some_or c o)
  KeepsLocks-some_or c o = record { at = λ s. ground arith }

  pub KeepsLocks-or_code :
      {E : Type 0} (c : Code) (r : Result E A) → KeepsLocks {W = W} (or_code c r)
  KeepsLocks-or_code c (ok a) = record { at = λ s. refl }
  KeepsLocks-or_code c (err e) = record { at = λ s. refl }

  pub KeepsLocks-on_world : {E : Type 0} (c : Code) (m : Act E W A) → KeepsLocks (on_world c m)
  KeepsLocks-on_world c m = record { at = λ s. refl }

  pub KeepsLocks-if :
      (b : Bool) (m n : Rpc W A) → KeepsLocks m → KeepsLocks n → KeepsLocks (if b then m else n)
  KeepsLocks-if true m n km kn = km
  KeepsLocks-if false m n km kn = kn

  pub KeepsLocks-with_lock :
      (key : Text) (m : Rpc W A) → KeepsLocks m → KeepsLocks (with_lock key m)
  unfolding with_lock locked try_acquire release
  KeepsLocks-with_lock key m k = record {
    at = λ s. elim (Bool-cases (has key s.locks.locks)) [
      | inl taken ↦ rw taken refl
      | inr free ↦ ground (
        arith,
        free,
        k.at (record s { locks = (try_acquire key s.locks).1 }),
        delete-insert key s.locks.locks free,
      )
    ];
  }

pub KeepsLocks-require : {W : Type 0} (b : Bool) (c : Code) → KeepsLocks {W = W} (require b c)
KeepsLocks-require true c = record { at = λ s. refl }
KeepsLocks-require false c = record { at = λ s. refl }

module _ {W A B : Type 0} where
  KeepsLocks-proceed :
      (r : Result Code A) (f : A → Rpc W B) (s : Server W)
      → ((a : A) → KeepsLocks (f a))
      → (proceed f r s).1.locks ≡ s.locks
  KeepsLocks-proceed (ok a) f s kf = (kf a).at s
  KeepsLocks-proceed (err c) f s kf = refl

  pub KeepsLocks-bind :
      (m : Rpc W A) (f : A → Rpc W B)
      → KeepsLocks m
      → ((a : A) → KeepsLocks (f a))
      → KeepsLocks (m >>= f)
  KeepsLocks-bind m f km kf = record { at = λ s. KeepsLocks-proceed (m s).0 f (m s).1 kf ∙ km.at s }

pub ruleset keeps_locks = (
  KeepsLocks-respond, KeepsLocks-refuse, KeepsLocks-some_or, KeepsLocks-or_code,
  KeepsLocks-on_world, KeepsLocks-if, KeepsLocks-with_lock, KeepsLocks-require, KeepsLocks-bind,
)
