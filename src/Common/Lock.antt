-- ===== src/Common/Lock.antt =====
-- pkg/common/lock.go: the set of resources that an operation is working on.
pub mod Laws
pub mod Exclusion
use zenlayer_cloud_csi_drive.Prelude.{
  Bool, true, false, List, [], ◌∷◌, ◌||◌, Text, str_eq, if◌then◌else◌,
}

-- The string set of the source, each member once.
pub record ResourceLocks : Type 0 where
  pub locks : List Text

abbrev pub new_resource_locks : ResourceLocks
new_resource_locks = record { locks = [] }

unfoldable pub has : Text → List Text → Bool
has k [] = false
has k (j ∷ l) = str_eq j k || has k l

unfoldable pub delete : Text → List Text → List Text
delete k [] = []
delete k (j ∷ l) = let rest = delete k l in if str_eq j k then rest else j ∷ rest

-- The calls are atomic: each runs under the mutex of the source.
unfoldable pub try_acquire : Text → ResourceLocks → Bool × ResourceLocks
try_acquire id l = if has id l.locks then (false, l) else (true, record l { locks = id ∷ l.locks })

unfoldable pub release : Text → ResourceLocks → ResourceLocks
release id l = record l { locks = delete id l.locks }
