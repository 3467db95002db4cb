-- ===== src/Rpc/State.antt =====
-- What the handlers of pkg/disk/rpcserver act on, and the status codes that they return.
pub mod Locks
pub mod Runs
pub mod Worlds
pub mod Answers
pub mod Refusals
use zenlayer_cloud_csi_drive.Prelude.{Bool, true, false, Option, none, some, Text, if◌then◌else◌}
use zenlayer_cloud_csi_drive.Prelude.Result.{Result, ok, err}
use zenlayer_cloud_csi_drive.Common.Lock.{ResourceLocks, try_acquire, release}
use zenlayer_cloud_csi_drive.Prelude.Act.{Act}

-- The codes of google.golang.org/grpc/codes that the handlers use.
pub data Code : Type 0 where
  invalid_argument not_found already_exists failed_precondition aborted out_of_range unimplemented
        internal :
      Code

-- The locks of one server, and the world outside.
pub record Server (W : Type 0) : Type 0 where
  pub locks : ResourceLocks
  pub world : W

abbrev pub Rpc : Type 0 → Type 0 → Type 0
Rpc W A = Server W → Result Code A × Server W

module _ {W A : Type 0} where
  abbrev pub respond : A → Rpc W A
  respond a s = (ok a, s)

  abbrev pub refuse : Code → Rpc W A
  refuse c s = (err c, s)

abbrev pub proceed : {W A B : Type 0} → (A → Rpc W B) → Result Code A → Rpc W B
proceed f (ok a) s = f a s
proceed f (err c) s = (err c, s)

infixl 5 ◌>>=◌ ◌>>◌
abbrev pub ◌>>=◌ : {W A B : Type 0} → Rpc W A → (A → Rpc W B) → Rpc W B
◌>>=◌ m f s = proceed f (m s).0 (m s).1

abbrev pub ◌>>◌ : {W B : Type 0} → Rpc W (Unit {0}) → Rpc W B → Rpc W B
m >> k = m >>= λ _. k

-- A check at the head of a handler: it returns the code unless the test holds.
abbrev pub require : {W : Type 0} → Bool → Code → Rpc W (Unit {0})
require true c s = (ok tt, s)
require false c s = (err c, s)

-- A pure step that may fail; whatever the error, the handler returns the code.
abbrev pub or_code : {W E A : Type 0} → Code → Result E A → Rpc W A
or_code c (ok a) s = (ok a, s)
or_code c (err e) s = (err c, s)

abbrev pub some_or : {W A : Type 0} → Code → Option A → Rpc W A
some_or c o s = elim o [ none ↦ (err c, s) | some a ↦ (ok a, s) ]

abbrev pub code_for : {A E : Type 0} → Code → Result E A → Result Code A
code_for c (ok a) = ok a
code_for c (err e) = err c

-- A call that acts on the world; whatever the error, the handler returns the code.
abbrev pub on_world : {E W A : Type 0} → Code → Act E W A → Rpc W A
on_world c m s = (code_for c (m s.world).0, record s { world = (m s.world).1 })

-- The body runs with the lock held; the deferred release runs however the body ends.
unfoldable pub locked : {W A : Type 0} → Text → Rpc W A → ResourceLocks → Rpc W A
locked key body locks s =
    let r = body (record s { locks = locks }) in
    (r.0, record (r.1) { locks = release key (r.1).locks })

unfoldable pub with_lock : {W A : Type 0} → Text → Rpc W A → Rpc W A
unfolding locked
with_lock key body s =
    if (try_acquire key s.locks).0
    then locked key body (try_acquire key s.locks).1 s
    else (err aborted, s)
