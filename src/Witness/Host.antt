-- ===== src/Witness/Host.antt =====
-- A host with one disk, /dev/vdb, and room for one mount.
use zenlayer_cloud_csi_drive.Prelude.{
  ◌≡◌, refl, Bool, true, false, not, List, [], ◌∷◌, ◌++◌, Option, none, some, arith, Text, codes,
  str_eq, str_eq_iff, is_empty, if◌then◌else◌, pos,
}
use zenlayer_cloud_csi_drive.Prelude.Result.{Result, ok, err}
use zenlayer_cloud_csi_drive.Prelude.Lines.{has_prefix}
use zenlayer_cloud_csi_drive.Host.System.{Host, FileError, not_exist, mount_failed}
use zenlayer_cloud_csi_drive.Common.Environment.{
  zec_platform, zec_sys_vendor_path, zec_product_serial_path, zec_product_family_path,
}
use zenlayer_cloud_csi_drive.Host.Contract.{TellsFormat, OthersKeepFormat, TellsMounts}
use zenlayer_cloud_csi_drive.Witness.Cloud.{serial}

-- What the disk holds, and the target, the source and the options of the mount.
pub record HostWorld : Type 0 where
  pub content : Text
  pub mounted : Option (Text × Text × List Text)

abbrev pub vdb : Text
vdb = codes "/dev/vdb"

abbrev pub names : Text
names = codes "vda" ++ 10 ∷ codes "vdb" ++ 10 ∷ []

abbrev pub vdb_serial : Text
vdb_serial = codes "/sys/block/vdb/device/block/vdb/serial"

-- The files of the host that the driver reads.
abbrev pub file : Text → Result FileError Text
file p =
    if str_eq p vdb_serial
    then ok (serial ++ 10 ∷ [])
    else if str_eq p zec_sys_vendor_path
    then ok (zec_platform ++ 10 ∷ [])
    else if str_eq p zec_product_serial_path
    then ok (codes "1455441132925494374" ++ 10 ∷ [])
    else if str_eq p zec_product_family_path
    then ok (codes "z-1" ++ 10 ∷ [])
    else if str_eq p (codes "/ak")
    then ok (codes "key")
    else err not_exist

-- The output of a command that makes no file system.
abbrev pub output : Text → Text
output name = if str_eq name (codes "lsblk") then names else codes "53687091200"

-- Is the disk the last argument? The Boolean is the answer for the arguments so far.
abbrev pub disk_last : Bool → List Text → Bool
disk_last so_far [] = so_far
disk_last so_far (a ∷ rest) = disk_last (str_eq a vdb) rest

disk_last-append :
    (so_far : Bool) (args : List Text) (s : Text) → disk_last so_far (args ++ s ∷ []) ≡ str_eq s vdb
disk_last-append so_far [] s = refl
disk_last-append so_far (a ∷ rest) s = disk_last-append (str_eq a vdb) rest s

abbrev pub made : List Text → HostWorld → HostWorld
made args w = if disk_last false args then record w { content = codes "ext4" } else w

abbrev pub is_at : Text → Option (Text × Text × List Text) → Bool
is_at path none = false
is_at path (some (t, s, o)) = str_eq path t

abbrev pub simulated_host : Host HostWorld
simulated_host = record {
  run = λ name args w.
      if has_prefix name (codes "mkfs.") then (ok [], made args w) else (ok (output name), w);
  read_file = λ p w. (file p, w);
  stat = λ p w. (err not_exist, w);
  statfs = λ p w. (ok (record { blocks = 10; bfree = 4; bavail = 3; bsize = pos 4096 }), w);
  mkdir_all = λ p w. (ok tt, w);
  create_file = λ p w. (ok tt, w);
  is_likely_not_mount_point = λ p w. (ok (not (is_at p w.mounted)), w);
  is_mount_point = λ p w. (ok (is_at p w.mounted), w);
  mount = λ s t f o w.
      if is_empty w.content
      then (err mount_failed, w)
      else (ok tt, record w { mounted = some (t, s, o) });
  get_disk_format = λ d w. (ok (if str_eq d vdb then w.content else []), w);
  cleanup_mount_point =
      λ p w. (ok tt, if is_at p w.mounted then record w { mounted = none } else w);
  need_resize = λ d p w. (ok true, w);
  resize = λ d p w. (ok true, w);
}

abbrev pub format : HostWorld → Text → Text
format w d = if str_eq d vdb then w.content else []

abbrev pub MountedAt : HostWorld → Text → Text → List Text → Type 0
MountedAt w t s o = w.mounted ≡ some (t, s, o)

format-made :
    (args : List Text) (s d : Text) (w : HostWorld)
    → str_eq d s ≡ false
    → format (made (args ++ s ∷ []) w) d ≡ format w d
format-made args s d w other =
    ground
      (arith, disk_last-append false args s, str_eq_iff s vdb, str_eq_iff d vdb, str_eq_iff d s)

pub simulated_host-TellsFormat : TellsFormat simulated_host format
simulated_host-TellsFormat = record {
  told = λ d x w w' g. ground (arith, g);
  format-get_disk_format = λ s d w. refl;
  format-mount = λ s t f o d w. ground arith;
  format-run = λ name args d w other. ground (arith, other);
  format-mkfs = λ name args s d w other. ground (arith, format-made args s d w other);
  format-mkfs_bare = λ name d w. ground arith;
}

pub simulated_host-OthersKeepFormat : OthersKeepFormat simulated_host format
simulated_host-OthersKeepFormat = record {
  format-read_file = λ p d w. refl;
  format-mkdir_all = λ p d w. refl;
  format-is_likely_not_mount_point = λ p d w. refl;
  format-need_resize = λ s t d w. refl;
  format-resize = λ s t d w. refl;
}

pub simulated_host-TellsMounts : TellsMounts simulated_host MountedAt
simulated_host-TellsMounts = record {
  mounted = λ s t f o w w' g. ground (arith, g);
  mounted-need_resize = λ d p t s o w there. there;
  mounted-resize = λ d p t s o w there. there;
}

-- The disk as it comes, and with a file system.
abbrev pub blank : HostWorld
blank = record { content = []; mounted = none }

abbrev pub filled : HostWorld
filled = record { content = codes "ext4"; mounted = none }
