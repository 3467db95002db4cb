-- ===== src/Common/Trace/Laws.antt =====
-- What ExitFunction reports of the entry that it ends.
use zenlayer_cloud_csi_drive.Prelude.{ℕ, ◌≡◌, ◌-◌, ◌/◌, some, arith, Text, false, str_eq}
use zenlayer_cloud_csi_drive.Common.Hash.{generate_hash_in_eight_bytes}
use zenlayer_cloud_csi_drive.Common.Trace.{
  EntryTimes, lookup, delete, exit, entry_function, exit_function,
}

-- The calls that leave the entry of a hash alone: entries at times that give another hash, and exits
-- with another hash, in any order and number.
pub data Others (time_string : ℕ → Text) (h : Text) : EntryTimes → EntryTimes → Type 0 where
  done : (es : EntryTimes) → Others time_string h es es
  entered :
      (t : ℕ) (name : Text) (es fs : EntryTimes)
      → str_eq (generate_hash_in_eight_bytes (time_string t)) h ≡ false
      → Others time_string h (entry_function time_string t name es).2 fs
      → Others time_string h es fs
  left :
      (t : ℕ) (name k : Text) (es fs : EntryTimes)
      → str_eq k h ≡ false
      → Others time_string h (exit_function t name k es).1 fs
      → Others time_string h es fs

exit_function-some :
    (start t : ℕ) (name h : Text) (es : EntryTimes)
    → lookup h es ≡ some start
    → exit_function t name h es ≡ (exit name t h (some ((t - start) / 1000000)), delete h es)
unfolding exit_function
exit_function-some start t name h es e = ground (arith, e)
