-- ===== src/Common/Mount.antt =====
-- pkg/common/mount.go: mounting a device, and making a file system on it where there is none.
pub mod Formats
pub mod Success
use zenlayer_cloud_csi_drive.Prelude.{
  ℕ, Bool, true, false, not, List, [], ◌∷◌, ◌++◌, any, ◌&&◌, ◌||◌, Option, none, some, Text, codes,
  str_eq, is_empty, ◌==◌, if◌then◌else◌,
}
use zenlayer_cloud_csi_drive.Prelude.Result.{Result, ok, err, from_option}
use zenlayer_cloud_csi_drive.Prelude.Act.{
  Act, pure, raise, lift, refuse_if, attempt, with_error, ◌>>=◌, ◌>>◌,
}
use zenlayer_cloud_csi_drive.Prelude.Lines.{split, newline}
use zenlayer_cloud_csi_drive.Host.System.{Host, ExecError, exit_status, MountError}

pub data FormatError : Type 0 where
  fsck_uncorrected unformatted_read_only other_file_system invalid_output : FormatError
  mount_error : MountError → FormatError
  format_unknown : MountError → FormatError
  mkfs_failed blkid_failed : ExecError → FormatError

abbrev pub read_only_option : Text
read_only_option = codes "ro"

unfoldable pub is_read_only : List Text → Bool
is_read_only = any (λ o. str_eq o read_only_option)

-- Only a mount without options gets `defaults`.
unfoldable pub used_options : List Text → List Text
used_options [] = codes "defaults" ∷ []
used_options (o ∷ os) = o ∷ os

-- Only the status 4 of fsck stops the mount.
unfoldable pub fsck_verdict : Result ExecError Text → Result FormatError (Unit {0})
fsck_verdict (ok out) = ok tt
fsck_verdict (err (exit_status n)) = if n == 4 then err fsck_uncorrected else ok tt
fsck_verdict (err e) = ok tt

unfoldable pub mkfs_default_args : Text → Text → List Text
mkfs_default_args fs source =
    if str_eq fs (codes "ext4") || str_eq fs (codes "ext3")
    then codes "-F" ∷ codes "-m0" ∷ codes "-E" ∷ codes "nodiscard" ∷ source ∷ []
    else if str_eq fs (codes "xfs")
    then codes "-f" ∷ codes "-K" ∷ source ∷ []
    else []

unfoldable pub mkfs_args : List Text → Text → Text → List Text
unfolding mkfs_default_args
mkfs_args [] fs source = mkfs_default_args fs source
mkfs_args (o ∷ os) fs source = (o ∷ os) ++ source ∷ []

-- One line of blkid, `key=value`; `none` is an invalid line.
unfoldable pub read_tag : List Text → Text × Text → Option (Text × Text)
read_tag (k ∷ v ∷ []) (fs, pt) = some (
    if str_eq k (codes "TYPE")
    then (v, pt)
    else if str_eq k (codes "PTTYPE")
    then (fs, v)
    else (fs, pt))
read_tag ps t = none

unfoldable pub read_tags : List Text → Text × Text → Option (Text × Text)
unfolding read_tag split
read_tags [] t = some t
read_tags (l ∷ ls) t =
    if is_empty l
    then read_tags ls t
    else elim (read_tag (split b'=' l) t) [ none ↦ none | some u ↦ read_tags ls u ]

-- What GetDiskFStypePTtype makes of the outcome of blkid; the status 2 stands for a disk without both.
unfoldable pub blkid_tags : Result ExecError Text → Result FormatError (Text × Text)
unfolding read_tags
blkid_tags (ok out) = from_option invalid_output (read_tags (split newline out) ([], []))
blkid_tags (err (exit_status n)) =
    if n == 2 then ok ([], []) else err (blkid_failed (exit_status n))
blkid_tags (err e) = err (blkid_failed e)

-- An empty disk with encryption, as blkid sees it; an error of blkid leaves both texts empty.
unfoldable pub is_atari : Result FormatError (Text × Text) → Bool
is_atari (ok (fs, pt)) = is_empty fs && str_eq pt (codes "atari")
is_atari (err e) = false

abbrev pub unknown_data : Text
unknown_data = codes "unknown data, probably partitions"

module _ {W : Type 0} (h : Host W) where
  unfoldable pub get_disk_fs_type_pt_type : Text → Act FormatError W (Text × Text)
  unfolding blkid_tags
  get_disk_fs_type_pt_type disk = do
    r ← attempt (
        h.run (codes "blkid") (
          codes "-p"
          ∷ codes "-s"
          ∷ codes "TYPE"
          ∷ codes "-s"
          ∷ codes "PTTYPE"
          ∷ codes "-o"
          ∷ codes "export"
          ∷ disk
          ∷ []))
    lift (blkid_tags r)

  -- The first step of FormatAndMount: fsck, which only read-only mounts and the flag leave out.
  unfoldable pub check_device : Bool → Text → Act FormatError W (Unit {0})
  unfolding fsck_verdict
  check_device skipped source =
      if skipped
      then pure tt
      else do r ← attempt (h.run (codes "fsck") (codes "-a" ∷ source ∷ [])); lift (fsck_verdict r)

  -- What one call mounts where, and how.
  module _ (read_only : Bool) (source fstype target : Text)
      (mkfs_options mount_options : List Text) where
    unfoldable pub format_new_disk : Act FormatError W (Unit {0})
    unfolding mkfs_args
    format_new_disk = do
      refuse_if read_only unformatted_read_only
      let fs = if is_empty fstype then codes "ext4" else fstype
      out ← with_error mkfs_failed (h.run (codes "mkfs." ++ fs) (mkfs_args mkfs_options fs source))
      with_error mount_error (h.mount source target fs mount_options)

    unfoldable pub if_atari : Result FormatError (Text × Text) → Act FormatError W (Unit {0})
    unfolding is_atari format_new_disk
    if_atari tags = if is_atari tags then format_new_disk else raise other_file_system

    -- A device that holds something else than the wanted file system.
    unfoldable pub other_content : Text → Act FormatError W (Unit {0})
    unfolding get_disk_fs_type_pt_type if_atari
    other_content existing =
        if str_eq existing unknown_data
        then attempt (get_disk_fs_type_pt_type source) >>= if_atari
        else raise other_file_system

    unfoldable pub by_content : MountError → Text → Act FormatError W (Unit {0})
    unfolding other_content format_new_disk
    by_content e existing =
        if is_empty existing
        then format_new_disk
        else if is_empty fstype || str_eq fstype existing
        then raise (mount_error e)
        else other_content existing

    -- After a first mount that failed.
    unfoldable pub mount_again : MountError → Act FormatError W (Unit {0})
    unfolding by_content
    mount_again e = with_error format_unknown (h.get_disk_format source) >>= by_content e

    unfoldable pub after_mount : Result MountError (Unit {0}) → Act FormatError W (Unit {0})
    unfolding mount_again
    after_mount (ok u) = pure tt
    after_mount (err e) = mount_again e

  unfoldable pub format_and_mount :
      Text → Text → Text → List Text → List Text → Bool → Act FormatError W (Unit {0})
  unfolding is_read_only used_options check_device after_mount
  format_and_mount source target fstype mkfs_options mount_options omit_fs_check = do
    check_device (is_read_only mount_options || omit_fs_check) source
    mounted ← attempt (h.mount source target fstype (used_options mount_options))
    after_mount (is_read_only mount_options) source fstype target mkfs_options
        (used_options mount_options) mounted
