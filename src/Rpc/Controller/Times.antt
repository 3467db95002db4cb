-- ===== src/Rpc/Controller/Times.antt =====
-- parseSnapCreationTime of pkg/disk/rpcserver/controllerserver.go, over the package time of Go as a
-- parameter.
use zenlayer_cloud_csi_drive.Prelude.{
  List, [], ◌∷◌, Option, none, some, Text, codes, is_empty, length, leb, if◌then◌else◌, ℤ, pos,
  ltb_ℤ,
}
use zenlayer_cloud_csi_drive.Prelude.Lines.{trim_space}
use zenlayer_cloud_csi_drive.Driver.StorageClass.Parameters.{atoi}

-- time.Parse, time.Unix, time.UnixMilli and the current time, as timestamps.
pub record Times (T : Type 0) : Type 0 where
  pub parse : Text → Text → Option T
  pub unix : ℤ → T
  pub unix_milli : ℤ → T
  pub now : T

-- The first two are time.RFC3339Nano and time.RFC3339.
abbrev pub snap_create_time_layouts : List Text
snap_create_time_layouts =
    codes "2006-01-02T15:04:05.999999999Z07:00"
    ∷ codes "2006-01-02T15:04:05Z07:00"
    ∷ codes "2006-01-02T15:04:05"
    ∷ codes "2006-01-02 15:04:05"
    ∷ codes "2006-01-02 15:04:05Z07:00"
    ∷ codes "2006-01-02"
    ∷ []

module _ {T : Type 0} (t : Times T) where
  unfoldable pub first_layout : List Text → Text → Option T
  first_layout [] s = none
  first_layout (l ∷ ls) s =
      let rest = first_layout ls s in elim (t.parse l s) [ none ↦ rest | some u ↦ some u ]

  -- A number of seconds, or of milliseconds where it has 13 digits or more.
  unfoldable pub from_epoch : Text → Option T
  unfolding atoi
  from_epoch s = elim (atoi s) [
    | none ↦ none
    | some n ↦
        if ltb_ℤ (pos 0) n
        then some (if leb 13 (length s) then t.unix_milli n else t.unix n)
        else none
  ]

  -- What cannot be read stands for the current time.
  unfoldable pub or_now : Option T → Option T → T
  or_now (some u) epoch = u
  or_now none (some u) = u
  or_now none none = t.now

  unfoldable pub parse_snap_creation_time : Text → T
  unfolding trim_space first_layout from_epoch or_now
  parse_snap_creation_time raw =
      let trimmed = trim_space raw in
      if is_empty trimmed
      then t.now
      else or_now (first_layout snap_create_time_layouts trimmed) (from_epoch trimmed)
