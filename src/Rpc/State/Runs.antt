-- ===== src/Rpc/State/Runs.antt =====
-- The inversion of a handler that answers without an error, one lemma for each way to build it.
use zenlayer_cloud_csi_drive.Prelude.{
  ◌≡◌, refl, Bool, true, false, Option, none, some, arith, Text, Bool-cases, inl, inr,
}
use zenlayer_cloud_csi_drive.Prelude.Result.{Result, ok, err, Result-cases}
use zenlayer_cloud_csi_drive.Common.Lock.{ResourceLocks, has, try_acquire, release}
use zenlayer_cloud_csi_drive.Common.Lock.Laws.{delete-insert}
use zenlayer_cloud_csi_drive.Prelude.Act.{Act}
use zenlayer_cloud_csi_drive.Rpc.State.{
  Server, Rpc, Code, proceed, require, or_code, some_or, on_world, with_lock, locked, ◌>>=◌, ◌>>◌,
}

pub proceed-eq-ok :
    {W A B : Type 0} (f : A → Rpc W B) (r : Result Code A) (s : Server W) {b : B} {s' : Server W}
    → proceed f r s ≡ (ok b, s')
    → (a : A) × (r ≡ ok a) × (f a s ≡ (ok b, s'))
proceed-eq-ok f (ok a) s h = (a, refl, h)
proceed-eq-ok f (err c) s h = ground arith

pub require-eq-ok :
    {W B : Type 0} (t : Bool) (c : Code) (k : Rpc W B) (s : Server W) {b : B} {s' : Server W}
    → (require t c >> k) s ≡ (ok b, s')
    → (t ≡ true) × (k s ≡ (ok b, s'))
require-eq-ok true c k s h = (refl, h)
require-eq-ok false c k s h = ground arith

pub some_or-eq-ok :
    {W A B : Type 0} (c : Code) (o : Option A) (k : A → Rpc W B) (s : Server W) {b : B}
    {s' : Server W}
    → (some_or c o >>= k) s ≡ (ok b, s')
    → (a : A) × (o ≡ some a) × (k a s ≡ (ok b, s'))
some_or-eq-ok c none k s h = ground arith
some_or-eq-ok c (some a) k s h = (a, refl, h)

pub or_code-eq-ok :
    {W E A B : Type 0} (c : Code) (r : Result E A) (k : A → Rpc W B) (s : Server W) {b : B}
    {s' : Server W}
    → (or_code c r >>= k) s ≡ (ok b, s')
    → (a : A) × (r ≡ ok a) × (k a s ≡ (ok b, s'))
or_code-eq-ok c (ok a) k s h = (a, refl, h)
or_code-eq-ok c (err e) k s h = ground arith

-- The call has answered, and the rest runs in the world that it leaves.
pub on_world-eq-ok :
    {E W A B : Type 0} (c : Code) (m : Act E W A) (k : A → Rpc W B) (s : Server W) {b : B}
    {s' : Server W}
    → (on_world c m >>= k) s ≡ (ok b, s')
    → (a : A) × (m s.world ≡ (ok a, (m s.world).1))
      × (k a (record s { world = (m s.world).1 }) ≡ (ok b, s'))
on_world-eq-ok c m k s h = elim (Result-cases (m s.world).0) [
  | inl (a, g) ↦ (a, ground (arith, g), ground (arith, g))
  | inr (x, g) ↦ ground (arith, g)
]

pub on_world_last :
    {E W A : Type 0} (c : Code) (m : Act E W A) (s : Server W) {a : A} {s' : Server W}
    → on_world c m s ≡ (ok a, s')
    → m s.world ≡ (ok a, s'.world)
on_world_last c m s h = elim (Result-cases (m s.world).0) [
  | inl (b, g) ↦ ground (arith, g, h)
  | inr (x, g) ↦ ground (arith, g, h)
]

-- The lock was free, and the body has answered.
pub with_lock-eq-ok :
    {W A : Type 0} (key : Text) (m : Rpc W A) (s : Server W) {a : A} {s' : Server W}
    → with_lock key m s ≡ (ok a, s')
    → (l : ResourceLocks) × (t : Server W) × (m (record s { locks = l }) ≡ (ok a, t))
      × (t.world ≡ s'.world)
unfolding with_lock locked try_acquire release
with_lock-eq-ok key m s h = elim (Bool-cases (has key s.locks.locks)) [
  | inl taken ↦ ground (arith, taken)
  | inr free ↦ (
    (try_acquire key s.locks).1,
    (m (record s { locks = (try_acquire key s.locks).1 })).1,
    ground (arith, free),
    ground (arith, free),
  )
]

pub with_lock-free :
    {W A : Type 0} (key : Text) (m : Rpc W A) (s : Server W) {a : A} {s' : Server W}
    → with_lock key m s ≡ (ok a, s')
    → has key s.locks.locks ≡ false
unfolding with_lock try_acquire
with_lock-free key m s h = elim (Bool-cases (has key s.locks.locks)) [
  | inl taken ↦ absurd (ground (arith, taken, h))
  | inr free ↦ free
]

-- A body that changes nothing, with a lock that is free, changes nothing.
pub with_lock_quiet :
    {W A : Type 0} (key : Text) (m : Rpc W A) (s : Server W) (r : Result Code A)
    → has key s.locks.locks ≡ false
    → ((u : Server W) → u.world ≡ s.world → m u ≡ (r, u))
    → with_lock key m s ≡ (r, s)
unfolding with_lock locked try_acquire release
with_lock_quiet key m s r free k = ground (
  arith,
  free,
  k (record s { locks = (try_acquire key s.locks).1 }) refl,
  delete-insert key s.locks.locks free,
)

pub require-bind :
    {W B : Type 0} (t : Bool) (c : Code) (k : Rpc W B) (s : Server W)
    → t ≡ true
    → (require t c >> k) s ≡ k s
require-bind true c k s h = refl
require-bind false c k s h = ground (arith, h)
