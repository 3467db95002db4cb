-- ===== src/Rpc/State/Refusals.antt =====
-- Handlers that answer with an error and do nothing, one rule for each way to build a handler.
use zenlayer_cloud_csi_drive.Prelude.{◌≡◌, refl, Bool, true, false, Option, none, some, Text}
use zenlayer_cloud_csi_drive.Prelude.Result.{err}
use zenlayer_cloud_csi_drive.Common.Lock.{has, try_acquire}
use zenlayer_cloud_csi_drive.Rpc.State.{
  Server, Rpc, Code, aborted, require, some_or, with_lock, ◌>>=◌, ◌>>◌,
}

-- Started with the server s, the handler answers with an error and leaves the server as it is.
pub record Refuses {W A : Type 0} (s : Server W) (m : Rpc W A) : Type 0 where
  pub code : Code
  pub at : m s ≡ (err code, s)

module _ {W A : Type 0} (s : Server W) where
  pub Refuses-require :
      (t : Bool) (c : Code) (k : Rpc W A) → Refuses s k → Refuses s (require t c >> k)
  Refuses-require true c k r = r
  Refuses-require false c k r = record { code = c; at = refl }

  pub Refuses-with_lock :
      (key : Text) (m : Rpc W A) → has key s.locks.locks ≡ true → Refuses s (with_lock key m)
  unfolding with_lock try_acquire
  Refuses-with_lock key m taken = record { code = aborted; at = rw taken refl }

module _ {W A B : Type 0} (s : Server W) where
  -- What follows may rely on the value that was there.
  pub Refuses-some_or :
      (c : Code) (o : Option A) (k : A → Rpc W B)
      → ((a : A) → o ≡ some a → Refuses s (k a))
      → Refuses s (some_or c o >>= k)
  Refuses-some_or c none k r = record { code = c; at = refl }
  Refuses-some_or c (some a) k r = r a refl

  pub Refuses-bind : (m : Rpc W A) (k : A → Rpc W B) → Refuses s m → Refuses s (m >>= k)
  Refuses-bind m k r = record { code = r.code; at = rw (r.at) refl }

pub ruleset refuses = (Refuses-require, Refuses-with_lock, Refuses-some_or, Refuses-bind)
