-- ===== src/Host/Contract.antt =====
-- What the driver relies on of mount-utils, mkfs, fsck and blkid, as laws about what devices hold and
-- what is mounted.
use zenlayer_cloud_csi_drive.Prelude.{◌≡◌, false, List, [], ◌∷◌, ◌++◌, Text, codes, str_eq}
use zenlayer_cloud_csi_drive.Prelude.Result.{ok}
use zenlayer_cloud_csi_drive.Prelude.Lines.{has_prefix}
use zenlayer_cloud_csi_drive.Host.System.{Host}

module _ {W : Type 0} (h : Host W) where
  -- `format w d` is what the device d holds: its file system, the text of GetDiskFormat for unknown
  -- data, or the empty text. Only commands named mkfs.* change it, and only that of their last
  -- argument.
  pub record TellsFormat (format : W → Text → Text) : Type 0 where
    pub told : (d x : Text) (w w' : W) → h.get_disk_format d w ≡ (ok x, w') → format w d ≡ x
    pub format-get_disk_format :
        (s d : Text) (w : W) → format (h.get_disk_format s w).1 d ≡ format w d
    pub format-mount :
        (s t f : Text) (o : List Text) (d : Text) (w : W)
        → format (h.mount s t f o w).1 d ≡ format w d
    pub format-run :
        (name : Text) (args : List Text) (d : Text) (w : W)
        → has_prefix name (codes "mkfs.") ≡ false
        → format (h.run name args w).1 d ≡ format w d
    pub format-mkfs :
        (name : Text) (args : List Text) (s d : Text) (w : W)
        → str_eq d s ≡ false
        → format (h.run name (args ++ s ∷ []) w).1 d ≡ format w d
    pub format-mkfs_bare : (name d : Text) (w : W) → format (h.run name [] w).1 d ≡ format w d

  -- No other call changes what a device holds.
  pub record OthersKeepFormat (format : W → Text → Text) : Type 0 where
    pub format-read_file : (p d : Text) (w : W) → format (h.read_file p w).1 d ≡ format w d
    pub format-mkdir_all : (p d : Text) (w : W) → format (h.mkdir_all p w).1 d ≡ format w d
    pub format-is_likely_not_mount_point :
        (p d : Text) (w : W) → format (h.is_likely_not_mount_point p w).1 d ≡ format w d
    pub format-need_resize : (s t d : Text) (w : W) → format (h.need_resize s t w).1 d ≡ format w d
    pub format-resize : (s t d : Text) (w : W) → format (h.resize s t w).1 d ≡ format w d

  -- `MountedAt w t s o`: in the world w the source s is mounted at t with the options o.
  pub record TellsMounts (MountedAt : W → Text → Text → List Text → Type 0) : Type 0 where
    pub mounted :
        (s t f : Text) (o : List Text) (w w' : W)
        → h.mount s t f o w ≡ (ok tt, w')
        → MountedAt w' t s o
    -- Looking at a file system and growing it leave the mounts alone.
    pub mounted-need_resize :
        (d p t s : Text) (o : List Text) (w : W)
        → MountedAt w t s o
        → MountedAt (h.need_resize d p w).1 t s o
    pub mounted-resize :
        (d p t s : Text) (o : List Text) (w : W)
        → MountedAt w t s o
        → MountedAt (h.resize d p w).1 t s o
