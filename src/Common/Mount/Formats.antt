-- ===== src/Common/Mount/Formats.antt =====
-- FormatAndMount and what the devices hold: when a device keeps it.
use zenlayer_cloud_csi_drive.Prelude.{
  ◌≡◌, refl, ◌∙◌, Bool, true, false, List, [], ◌∷◌, ◌++◌, ◌||◌, Text, codes, arith, str_eq,
  str_eq_iff, is_empty, if◌then◌else◌, Bool-cases, inl, inr,
}
use zenlayer_cloud_csi_drive.Prelude.Result.{Result, ok, err, Result-cases}
use zenlayer_cloud_csi_drive.Prelude.Kept.{Kept, Kept-if, Kept-raise, kept}
use zenlayer_cloud_csi_drive.Prelude.Lines.{has_prefix}
use zenlayer_cloud_csi_drive.Host.System.{Host, MountError}
use zenlayer_cloud_csi_drive.Host.Contract.{TellsFormat}
use zenlayer_cloud_csi_drive.Common.Mount

-- Something that the driver must not lose: a content that is known and not empty.
pub record IsContent (x : Text) : Type 0 where
  pub full : is_empty x ≡ false
  pub known : str_eq x Mount.unknown_data ≡ false

-- The device d, and what it holds.
module _ {W : Type 0} (h : Host W) (format : W → Text → Text) (c : TellsFormat h format)
    (d : Text) where
  abbrev view : W → Text
  view w = format w d

  pub run-Kept :
      (name : Text) (args : List Text)
      → has_prefix name (codes "mkfs.") ≡ false
      → Kept view (h.run name args)
  run-Kept name args other = record { at = λ w. c.format-run name args d w other }

  mount-Kept : (s t f : Text) (o : List Text) → Kept view (h.mount s t f o)
  mount-Kept s t f o = record { at = c.format-mount s t f o d }

  get_disk_format-Kept : (s : Text) → Kept view (h.get_disk_format s)
  get_disk_format-Kept s = record { at = c.format-get_disk_format s d }

  check_device-Kept : (skipped : Bool) (s : Text) → Kept view (Mount.check_device h skipped s)
  unfolding Mount.check_device has_prefix
  check_device-Kept true s = record { at = λ w. refl }
  check_device-Kept false s =
      let quiet = run-Kept (codes "fsck") (codes "-a" ∷ s ∷ []) refl in
      search (kept, quiet) depth 20

  get_disk_fs_type_pt_type-Kept : (s : Text) → Kept view (Mount.get_disk_fs_type_pt_type h s)
  unfolding Mount.get_disk_fs_type_pt_type has_prefix
  get_disk_fs_type_pt_type-Kept s =
      let quiet = λ (args : List Text). run-Kept (codes "blkid") args refl in
      search (kept, quiet) depth 20

  -- mkfs gets the device as its last argument, or gets no argument.
  mkfs-Kept :
      (options : List Text) (name fs s : Text)
      → str_eq d s ≡ false
      → Kept view (h.run name (Mount.mkfs_args options fs s))
  unfolding Mount.mkfs_args Mount.mkfs_default_args
  mkfs-Kept [] name fs s other = record {
    at = λ w. elim (Bool-cases (str_eq fs (codes "ext4") || str_eq fs (codes "ext3"))) [
      | inl e ↦ rw e (
          c.format-mkfs name (codes "-F" ∷ codes "-m0" ∷ codes "-E" ∷ codes "nodiscard" ∷ []) s d w
            other)
      | inr e ↦ elim (Bool-cases (str_eq fs (codes "xfs"))) [
        | inl x ↦ rw (e, x) (c.format-mkfs name (codes "-f" ∷ codes "-K" ∷ []) s d w other)
        | inr x ↦ rw (e, x) (c.format-mkfs_bare name d w)
      ]
    ];
  }
  mkfs-Kept (o ∷ os) name fs s other = record { at = λ w. c.format-mkfs name (o ∷ os) s d w other }

  -- Where the last resort keeps what the device holds, all of FormatAndMount does.
  module _ (read_only : Bool) (source fstype target : Text) (mkfs_options options : List Text)
      (fresh : Kept view
        (Mount.format_new_disk h read_only source fstype target mkfs_options options)) where
    if_atari-Kept :
        (t : Result Mount.FormatError (Text × Text))
        → Kept view (Mount.if_atari h read_only source fstype target mkfs_options options t)
    unfolding Mount.if_atari
    if_atari-Kept t =
        Kept-if view (Mount.is_atari t) _ _ fresh (Kept-raise view Mount.other_file_system)

    other_content-Kept :
        (x : Text)
        → Kept view (Mount.other_content h read_only source fstype target mkfs_options options x)
    unfolding Mount.other_content
    other_content-Kept x = search (kept, if_atari-Kept, get_disk_fs_type_pt_type-Kept) depth 20

    by_content-Kept :
        (e : MountError) (x : Text)
        → Kept view (Mount.by_content h read_only source fstype target mkfs_options options e x)
    unfolding Mount.by_content
    by_content-Kept e x = Kept-if view (is_empty x) _ _ fresh (
        Kept-if view (is_empty fstype || str_eq fstype x) _ _
          (Kept-raise view (Mount.mount_error e)) (other_content-Kept x))

    mount_again-Kept :
        (e : MountError)
        → Kept view (Mount.mount_again h read_only source fstype target mkfs_options options e)
    unfolding Mount.mount_again
    mount_again-Kept e = search (kept, get_disk_format-Kept, by_content-Kept) depth 20

    after_mount-Kept :
        (m : Result MountError (Unit {0}))
        → Kept view (Mount.after_mount h read_only source fstype target mkfs_options options m)
    unfolding Mount.after_mount
    after_mount-Kept (ok u) = record { at = λ w. refl }
    after_mount-Kept (err e) = mount_again-Kept e

  -- A read-only mount refuses to make a file system.
  read_only-Kept :
      (source fstype target : Text) (mkfs_options options : List Text)
      → Kept view (Mount.format_new_disk h true source fstype target mkfs_options options)
  unfolding Mount.format_new_disk
  read_only-Kept source fstype target mkfs_options options = record { at = λ w. refl }

  -- A new file system on a device is none of another device's concern.
  other_device-Kept :
      (read_only : Bool) (source fstype target : Text) (mkfs_options options : List Text)
      → str_eq d source ≡ false
      → Kept view (Mount.format_new_disk h read_only source fstype target mkfs_options options)
  unfolding Mount.format_new_disk
  other_device-Kept true source fstype target mkfs_options options other = record { at = λ w. refl }
  other_device-Kept false source fstype target mkfs_options options other =
      let fs = if is_empty fstype then codes "ext4" else fstype in
      let quiet = mkfs-Kept mkfs_options (codes "mkfs." ++ fs) fs source other in
      record {
        at = λ w.
            elim (Result-cases
              (h.run (codes "mkfs." ++ fs) (Mount.mkfs_args mkfs_options fs source) w).0) [
                | inl (x, g) ↦ rw g (
                    c.format-mount source target fs options d
                      (h.run (codes "mkfs." ++ fs) (Mount.mkfs_args mkfs_options fs source) w).1
                    ∙ quiet.at w)
                | inr (x, g) ↦ rw g (quiet.at w)
              ];
      }

module _ {W : Type 0} (h : Host W) (format : W → Text → Text) (c : TellsFormat h format) where
  -- Whichever the answer of GetDiskFormat is, it is what the device holds.
  mount_again_held :
      (source fstype target : Text) (mkfs_options options : List Text) (read_only : Bool)
      (e : MountError) (w : W)
      → IsContent (format w source)
      → format
          (Mount.mount_again h read_only source fstype target mkfs_options options e w).1
          source
        ≡ format w source
  unfolding Mount.mount_again Mount.by_content Mount.other_content
  mount_again_held source fstype target mkfs_options options r e w held =
      let after = (h.get_disk_format source w).1 in
      elim (Result-cases (h.get_disk_format source w).0) [
        | inl (x, g) ↦
            let said = c.told source x w after (ground (arith, g)) in
            let full : is_empty x ≡ false = rw said at held.full in
            let known : str_eq x Mount.unknown_data ≡ false = rw said at held.known in
            rw g (
              rw (full, known)
                ((Kept-if (view h format c source) (is_empty fstype || str_eq fstype x) _ _
                      (Kept-raise (view h format c source) (Mount.mount_error e))
                      (Kept-raise (view h format c source) Mount.other_file_system)).at
                    after
                  ∙ c.format-get_disk_format source source w))
        | inr (x, g) ↦ rw g (c.format-get_disk_format source source w)
      ]

  after_mount_held :
      (source fstype target : Text) (mkfs_options options : List Text) (read_only : Bool)
      (m : Result MountError (Unit {0})) (w : W)
      → IsContent (format w source)
      → format
          (Mount.after_mount h read_only source fstype target mkfs_options options m w).1
          source
        ≡ format w source
  unfolding Mount.after_mount
  after_mount_held source fstype target mkfs_options options r (ok u) w held = refl
  after_mount_held source fstype target mkfs_options options r (err e) w held =
      mount_again_held source fstype target mkfs_options options r e w held

  after_mount_any :
      (source fstype target : Text) (mkfs_options options : List Text) (read_only : Bool)
      (m : Result MountError (Unit {0})) (d : Text) (w : W)
      → IsContent (format w d)
      → format (Mount.after_mount h read_only source fstype target mkfs_options options m w).1 d
        ≡ format w d
  after_mount_any source fstype target mkfs_options options r m d w held =
      elim (Bool-cases (str_eq d source)) [
        | inl same ↦
            rw (← (str_eq_iff d source).0 same)
              (after_mount_held d fstype target mkfs_options options r m w held)
        | inr other ↦
            (after_mount-Kept h format c d r source fstype target mkfs_options options
                (other_device-Kept h format c d r source fstype target mkfs_options options other)
                m).at
              w
      ]

  -- No device loses what it holds: whatever the options are and however fsck, mount and blkid answer,
  -- a device whose content is known and not empty has it still after FormatAndMount, be it the one
  -- that is mounted or another one. What devices hold is told by GetDiskFormat, and changed only by
  -- mkfs, for its last argument.
  pub format_and_mount_held :
      (source target fstype : Text) (mkfs_options options : List Text) (omit_fs_check : Bool)
      (d : Text) (w : W)
      → IsContent (format w d)
      → format
          (Mount.format_and_mount h source target fstype mkfs_options options omit_fs_check w).1
          d
        ≡ format w d
  unfolding Mount.format_and_mount
  format_and_mount_held source target fstype mkfs_options options omit d w held =
      let r = Mount.is_read_only options in
      let used = Mount.used_options options in
      let check = Mount.check_device h (r || omit) source in
      let same = (check_device-Kept h format c d (r || omit) source).at w in
      let first = h.mount source target fstype used (check w).1 in
      elim (Result-cases (check w).0) [
        | inl (u, g) ↦
            let whole : format first.1 d ≡ format w d =
              c.format-mount source target fstype used d (check w).1 ∙ same in
            let still : IsContent (format first.1 d) = rw whole held in
            rw g (
              after_mount_any source fstype target mkfs_options used r first.0 d first.1 still
              ∙ whole)
        | inr (x, g) ↦ rw g same
      ]

  -- A mount with the option `ro` changes what no device holds, be the device empty or not, however the
  -- calls answer. What devices hold is changed only by mkfs, for its last argument.
  pub format_and_mount_read_only :
      (source target fstype : Text) (mkfs_options options : List Text) (omit_fs_check : Bool)
      (d : Text) (w : W)
      → Mount.is_read_only options ≡ true
      → format
          (Mount.format_and_mount h source target fstype mkfs_options options omit_fs_check w).1
          d
        ≡ format w d
  unfolding Mount.format_and_mount
  format_and_mount_read_only source target fstype mkfs_options options omit d w ro =
      let used = Mount.used_options options in
      let after =
        after_mount-Kept h format c d true source fstype target mkfs_options used
          (read_only-Kept h format c d source fstype target mkfs_options used) in
      let mount_quiet = mount-Kept h format c d in
      let whole : Kept (view h format c d)
          (Mount.format_and_mount h source target fstype mkfs_options options omit) =
        rw ro (search (kept, mount_quiet, after) depth 20) in
      whole.at w
