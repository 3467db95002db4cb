-- ===== src/Rpc/State/Worlds.antt =====
-- What a handler keeps of the world, one rule for each way to build a handler.
use zenlayer_cloud_csi_drive.Prelude.{
  ◌≡◌, refl, subst, Bool, true, false, Option, none, some, arith, Text, if◌then◌else◌, Bool-cases,
  inl, inr,
}
use zenlayer_cloud_csi_drive.Prelude.Result.{Result, ok, err, Result-cases}
use zenlayer_cloud_csi_drive.Common.Lock.{has, try_acquire, release}
use zenlayer_cloud_csi_drive.Prelude.Act.{Act}
use zenlayer_cloud_csi_drive.Rpc.State.{
  Server, Rpc, Code, respond, refuse, proceed, require, or_code, some_or, on_world, with_lock,
  locked, ◌>>=◌, ◌>>◌,
}

-- What holds of the world before the handler holds of the world after it.
pub record Keeps {W A : Type 0} (P : W → Type 0) (m : Rpc W A) : Type 0 where
  pub at : (s : Server W) → P s.world → P (m s).1.world

module _ {W A : Type 0} (P : W → Type 0) where
  pub Keeps-respond : (a : A) → Keeps P (respond a)
  Keeps-respond a = record { at = λ s h. h }

  pub Keeps-refuse : (c : Code) → Keeps {A = A} P (refuse c)
  Keeps-refuse c = record { at = λ s h. h }

  pub Keeps-on_world :
      {E : Type 0} (c : Code) (m : Act E W A) → ((w : W) → P w → P (m w).1) → Keeps P (on_world c m)
  Keeps-on_world c m k = record { at = λ s. k s.world }

  pub Keeps-if : (b : Bool) (m n : Rpc W A) → Keeps P m → Keeps P n → Keeps P (if b then m else n)
  Keeps-if true m n km kn = km
  Keeps-if false m n km kn = kn

  pub Keeps-with_lock : (key : Text) (m : Rpc W A) → Keeps P m → Keeps P (with_lock key m)
  unfolding with_lock locked try_acquire release
  Keeps-with_lock key m k = record {
    at = λ s h. elim (Bool-cases (has key s.locks.locks)) [
      | inl taken ↦ subst P (ground (arith, taken)) h
      | inr free ↦
          subst P (ground (arith, free)) (k.at (record s { locks = (try_acquire key s.locks).1 }) h)
    ];
  }

pub Keeps-require : {W : Type 0} (P : W → Type 0) (b : Bool) (c : Code) → Keeps P (require b c)
Keeps-require P true c = record { at = λ s h. h }
Keeps-require P false c = record { at = λ s h. h }

pub Keeps-or_code :
    {W E A : Type 0} (P : W → Type 0) (c : Code) (r : Result E A) → Keeps P (or_code c r)
Keeps-or_code P c (ok a) = record { at = λ s h. h }
Keeps-or_code P c (err e) = record { at = λ s h. h }

module _ {W A B : Type 0} (P : W → Type 0) where
  Keeps-proceed :
      (r : Result Code A) (f : A → Rpc W B) (s : Server W)
      → ((a : A) → Keeps P (f a))
      → P s.world
      → P (proceed f r s).1.world
  Keeps-proceed (ok a) f s kf h = (kf a).at s h
  Keeps-proceed (err c) f s kf h = h

  pub Keeps-bind :
      (m : Rpc W A) (f : A → Rpc W B) → Keeps P m → ((a : A) → Keeps P (f a)) → Keeps P (m >>= f)
  Keeps-bind m f km kf = record { at = λ s h. Keeps-proceed (m s).0 f (m s).1 kf (km.at s h) }

  -- What follows may rely on what came before it having answered.
  pub Keeps-bind_then :
      (m : Rpc W A) (f : A → Rpc W B)
      → Keeps P m
      → ((s : Server W) (a : A) → (m s).0 ≡ ok a → Keeps P (f a))
      → Keeps P (m >>= f)
  Keeps-bind_then m f km kf = record {
    at = λ s h. elim (Result-cases (m s).0) [
      | inl (a, g) ↦ rw g ((kf s a g).at (m s).1 (km.at s h))
      | inr (x, g) ↦ rw g (km.at s h)
    ];
  }

  -- What follows may rely on the value that was there.
  pub Keeps-some_or :
      (c : Code) (o : Option A) (f : A → Rpc W B)
      → ((a : A) → o ≡ some a → Keeps P (f a))
      → Keeps P (some_or c o >>= f)
  Keeps-some_or c none f k = record { at = λ s h. h }
  Keeps-some_or c (some a) f k = k a refl

  -- What follows may rely on what the call answered, in a world with the property.
  pub Keeps-on_world_then :
      {E : Type 0} (c : Code) (m : Act E W A) (f : A → Rpc W B)
      → ((w : W) → P w → P (m w).1)
      → ((w : W) (a : A) → P w → (m w).0 ≡ ok a → Keeps P (f a))
      → Keeps P (on_world c m >>= f)
  Keeps-on_world_then c m f km kf = record {
    at = λ s h. elim (Result-cases (m s.world).0) [
      | inl (a, g) ↦
          rw g ((kf s.world a h g).at (record s { world = (m s.world).1 }) (km s.world h))
      | inr (x, g) ↦ rw g (km s.world h)
    ];
  }

-- What follows a check.
pub Keeps-checked :
    {W A : Type 0} (P : W → Type 0) (b : Bool) (c : Code) (m : Rpc W A)
    → Keeps P m
    → Keeps P (require b c >> m)
Keeps-checked P b c m k = Keeps-bind P (require b c) (λ u. m) (Keeps-require P b c) (λ u. k)

pub ruleset keeps = (
  Keeps-respond, Keeps-refuse, Keeps-if, Keeps-with_lock, Keeps-require, Keeps-or_code,
  Keeps-some_or, Keeps-bind,
)
