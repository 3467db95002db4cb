-- ===== src/Common/Mount/Success.antt =====
-- FormatAndMount that succeeds has mounted the device.
use zenlayer_cloud_csi_drive.Prelude.{
  ◌≡◌, Bool, true, false, List, ◌||◌, Text, arith, if◌then◌else◌, inl, inr,
}
use zenlayer_cloud_csi_drive.Prelude.Result.{Result, ok, Result-cases}
use zenlayer_cloud_csi_drive.Prelude.Act.{Act, with_error, attempt, ◌>>=◌, continue-eq-ok}
use zenlayer_cloud_csi_drive.Host.System.{Host, MountError}
use zenlayer_cloud_csi_drive.Host.Contract.{TellsMounts}
use zenlayer_cloud_csi_drive.Common.Mount

-- What holds of the world after a call that succeeds.
record Succeeds {E W A : Type 0} (Q : W → Type 0) (m : Act E W A) : Type 0 where
  pub at : (w : W) (a : A) (w' : W) → m w ≡ (ok a, w') → Q w'

module _ {W : Type 0} (Q : W → Type 0) where
  Succeeds-raise : {E A : Type 0} (e : E) → Succeeds {A = A} Q (Mount.raise e)
  Succeeds-raise e = record { at = λ w a w' g. ground (arith, g) }

  Succeeds-bind :
      {E A B : Type 0} (m : Act E W A) (k : A → Act E W B)
      → ((a : A) → Succeeds Q (k a))
      → Succeeds Q (m >>= k)
  Succeeds-bind m k hk = record {
    at = λ w b w' g.
        let (a, got, rest) = continue-eq-ok k (m w).0 (m w).1 g in (hk a).at (m w).1 b w' rest;
  }

  Succeeds-with_error :
      {E F A : Type 0} (e : E → F) (m : Act E W A) → Succeeds Q m → Succeeds Q (with_error e m)
  Succeeds-with_error e m k = record {
    at = λ w a w' g. elim (Result-cases (m w).0) [
      | inl (b, got) ↦ k.at w b w' (ground (arith, got, g))
      | inr (x, got) ↦ ground (arith, got, g)
    ];
  }

  Succeeds-if :
      {E A : Type 0} (b : Bool) (m n : Act E W A)
      → Succeeds Q m
      → Succeeds Q n
      → Succeeds Q (if b then m else n)
  Succeeds-if true m n km kn = km
  Succeeds-if false m n km kn = kn

ruleset succeeds = (Succeeds-raise, Succeeds-bind, Succeeds-with_error, Succeeds-if)

module _ {W : Type 0} (h : Host W) (MountedAt : W → Text → Text → List Text → Type 0)
    (c : TellsMounts h MountedAt) (source fstype target : Text)
    (mkfs_options options : List Text) where
  Done : W → Type 0
  Done w = MountedAt w target source options

  mount-Done : (f : Text) → Succeeds Done (h.mount source target f options)
  unfolding Done
  mount-Done f = record {
    at = λ w u w' g. c.mounted source target f options w w' (ground (arith, g));
  }

  module _ (read_only : Bool) where
    format_new_disk-Done :
        Succeeds Done (Mount.format_new_disk h read_only source fstype target mkfs_options options)
    unfolding Mount.format_new_disk
    format_new_disk-Done = search (succeeds, mount-Done) depth 20

    if_atari-Done :
        (t : Result Mount.FormatError (Text × Text))
        → Succeeds Done (Mount.if_atari h read_only source fstype target mkfs_options options t)
    unfolding Mount.if_atari
    if_atari-Done t = search (succeeds, format_new_disk-Done) depth 20

    other_content-Done :
        (x : Text)
        → Succeeds Done
            (Mount.other_content h read_only source fstype target mkfs_options options x)
    unfolding Mount.other_content
    other_content-Done x = search (succeeds, if_atari-Done) depth 20

    by_content-Done :
        (e : MountError) (x : Text)
        → Succeeds Done (Mount.by_content h read_only source fstype target mkfs_options options e x)
    unfolding Mount.by_content
    by_content-Done e x = search (succeeds, format_new_disk-Done, other_content-Done) depth 20

    mount_again-Done :
        (e : MountError)
        → Succeeds Done (Mount.mount_again h read_only source fstype target mkfs_options options e)
    unfolding Mount.mount_again
    mount_again-Done e = search (succeeds, by_content-Done) depth 20

    -- The first mount has succeeded, or the one after it does.
    first_mount :
        (w : W) (a : Unit {0}) (w' : W)
        → (attempt (h.mount source target fstype options)
              >>= Mount.after_mount h read_only source fstype target mkfs_options options)
            w
          ≡ (ok a, w')
        → Done w'
    unfolding Mount.after_mount
    first_mount w a w' g = elim (Result-cases (h.mount source target fstype options w).0) [
      | inl (u, got) ↦ (mount-Done fstype).at w u w' (ground (arith, got, g))
      | inr (e, got) ↦
          (mount_again-Done e).at (h.mount source target fstype options w).1 a w'
            (ground (arith, got, g))
    ]

-- Where FormatAndMount succeeds, by the first mount or by the one after mkfs, the device is mounted at
-- the target with the caller's options, or with `defaults` where the caller gave none. A mount that
-- succeeds is taken to have mounted its source at its target with its options.
pub format_and_mount_mounted :
    {W : Type 0} (h : Host W) (MountedAt : W → Text → Text → List Text → Type 0)
    (c : TellsMounts h MountedAt) (source target fstype : Text) (mkfs_options options : List Text)
    (omit_fs_check : Bool) (w w' : W)
    → Mount.format_and_mount h source target fstype mkfs_options options omit_fs_check w
      ≡ (ok tt, w')
    → MountedAt w' target source (Mount.used_options options)
unfolding Mount.format_and_mount Done
format_and_mount_mounted h MountedAt c source target fstype mkfs_options options omit w w' g =
    let r = Mount.is_read_only options in
    let check = Mount.check_device h (r || omit) source in
    let (u, got, rest) = continue-eq-ok _ (check w).0 (check w).1 g in
    first_mount h MountedAt c source fstype target mkfs_options (Mount.used_options options) r
      (check w).1 tt w' rest
