-- ===== src/Rpc/Node/Mounts.antt =====
-- pkg/disk/rpcserver/nodeserver.go: how the handlers ask for mounts and grow a file system.
use zenlayer_cloud_csi_drive.Prelude.{Bool, true, not, Text, if◌then◌else◌}
use zenlayer_cloud_csi_drive.Prelude.Result.{Result, ok, err}
use zenlayer_cloud_csi_drive.Prelude.Act.{Act, pure, raise, attempt, ◌>>=◌, ◌>>◌}
use zenlayer_cloud_csi_drive.Host.System.{Host, FileError, not_exist, unreadable, MountError}

module _ {W : Type 0} (h : Host W) where
  -- The mount table tells for a file, a comparison with the parent for a directory.
  unfoldable pub already_mounted : Bool → Text → Act FileError W Bool
  already_mounted block path =
      if block
      then h.is_mount_point path
      else h.is_likely_not_mount_point path >>= λ absent. pure (not absent)

  -- A path that is not there is made, and is then no mount point.
  unfoldable pub or_made : Text → Result FileError Bool → Act FileError W Bool
  or_made path (ok absent) = pure absent
  or_made path (err not_exist) = h.mkdir_all path >> pure true
  or_made path (err unreadable) = raise unreadable

  unfoldable pub not_mounted : Text → Act FileError W Bool
  unfolding or_made
  not_mounted path = attempt (h.is_likely_not_mount_point path) >>= or_made path

  -- The file system grows to its device, where it can be told that it has to.
  unfoldable pub grow : Text → Text → Result MountError Bool → Act MountError W (Unit {0})
  grow device path (err e) = pure tt
  grow device path (ok need) = if need then (h.resize device path >>= λ done. pure tt) else pure tt

  unfoldable pub resize_if_needed : Text → Text → Act MountError W (Unit {0})
  unfolding grow
  resize_if_needed device path = attempt (h.need_resize device path) >>= grow device path
