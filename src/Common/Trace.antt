-- ===== src/Common/Trace.antt =====
-- EntryFunction and ExitFunction of pkg/common/common.go.
pub mod Laws
use zenlayer_cloud_csi_drive.Prelude.{
  ℕ, ◌-◌, ◌/◌, List, [], ◌∷◌, Option, none, some, Text, str_eq, if◌then◌else◌,
}
use zenlayer_cloud_csi_drive.Common.Hash.{generate_hash_in_eight_bytes}

-- The map entryTimes, from hashes to times in nanoseconds; a hash has one entry.
abbrev pub EntryTimes : Type 0
EntryTimes = List (Text × ℕ)

unfoldable pub lookup : Text → EntryTimes → Option ℕ
lookup k [] = none
lookup k ((j, t) ∷ es) = let rest = lookup k es in if str_eq j k then some t else rest

unfoldable pub delete : Text → EntryTimes → EntryTimes
delete k [] = []
delete k ((j, t) ∷ es) = let rest = delete k es in if str_eq j k then rest else (j, t) ∷ rest

abbrev pub assign : Text → ℕ → EntryTimes → EntryTimes
assign k t es = (k, t) ∷ delete k es

-- What the two functions print, with the elapsed milliseconds where they are known.
pub data Info : Type 0 where
  enter : Text → ℕ → Text → Info
  exit : Text → ℕ → Text → Option ℕ → Info

-- `time_string` is String of a time in UTC, `current` what time.Now reads.
unfoldable pub entry_function : (ℕ → Text) → ℕ → Text → EntryTimes → Info × Text × EntryTimes
entry_function time_string current function_name es =
    let hash = generate_hash_in_eight_bytes (time_string current) in
    (enter function_name current hash, hash, assign hash current es)

-- The clock that Sub reads never goes back.
unfoldable pub exit_function : ℕ → Text → Text → EntryTimes → Info × EntryTimes
unfolding lookup delete
exit_function current function_name hash es = elim (lookup hash es) [
  | none ↦ (exit function_name current hash none, es)
  | some start ↦
      (exit function_name current hash (some ((current - start) / 1000000)), delete hash es)
]
