-- ===== src/Host/System.antt =====
-- The calls by which the driver acts on the host, as parameters: commands (k8s.io/utils/exec), files
-- (os, golang.org/x/sys/unix) and mounts (k8s.io/mount-utils). Every call may change the world.
use zenlayer_cloud_csi_drive.Prelude.{ℕ, Bool, List, Text, ℤ}
use zenlayer_cloud_csi_drive.Prelude.Act.{Act}

-- How a command fails: ErrExecutableNotFound, an ExitError with its status, or another error.
pub data ExecError : Type 0 where
  executable_not_found : ExecError
  exit_status : ℕ → ExecError
  not_run : ExecError

-- os.IsNotExist, or another error.
pub data FileError : Type 0 where
  not_exist : FileError
  unreadable : FileError

-- The bits of os.FileMode that the driver reads.
pub record FileMode : Type 0 where
  pub device : Bool
  pub char_device : Bool

-- unix.Statfs_t; the counts are of `uint64`, the size is of `int64`.
pub record StatFs : Type 0 where
  pub blocks : ℕ
  pub bfree : ℕ
  pub bavail : ℕ
  pub bsize : ℤ

-- An error of mount-utils.
pub data MountError : Type 0 where
  mount_failed : MountError

pub record Host (W : Type 0) : Type 0 where
  -- Exec.Command(name, args...).CombinedOutput()
  pub run : Text → List Text → Act ExecError W Text
  pub read_file : Text → Act FileError W Text
  pub stat : Text → Act FileError W FileMode
  pub statfs : Text → Act FileError W StatFs
  -- os.MkdirAll, and os.OpenFile with O_CREATE and the Close after it.
  pub mkdir_all : Text → Act FileError W (Unit {0})
  pub create_file : Text → Act FileError W (Unit {0})
  -- mount.Interface and SafeFormatAndMount
  pub is_likely_not_mount_point : Text → Act FileError W Bool
  pub is_mount_point : Text → Act FileError W Bool
  pub mount : Text → Text → Text → List Text → Act MountError W (Unit {0})
  pub get_disk_format : Text → Act MountError W Text
  -- CleanupMountPoint with the extensive check, and ResizeFs.
  pub cleanup_mount_point : Text → Act MountError W (Unit {0})
  pub need_resize : Text → Text → Act MountError W Bool
  pub resize : Text → Text → Act MountError W Bool
