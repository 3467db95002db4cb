-- ===== src/Rpc/Node/Devices.antt =====
-- pkg/disk/rpcserver/nodeserver.go: finding the device of a disk, its size, and the paths of mounts.
pub mod Laws
use zenlayer_cloud_csi_drive.Prelude.{
  Bool, true, false, not, List, [], ◌∷◌, ◌++◌, ◌&&◌, ◌||◌, Option, none, some, Text, codes, str_eq,
  is_empty, if◌then◌else◌, ℤ,
}
use zenlayer_cloud_csi_drive.Prelude.Result.{Result, ok, err, from_option}
use zenlayer_cloud_csi_drive.Prelude.Act.{Act, pure, raise, lift, attempt, with_error, ◌>>=◌, ◌>>◌}
use zenlayer_cloud_csi_drive.Prelude.Lines.{split, newline, trim_space}
use zenlayer_cloud_csi_drive.Driver.StorageClass.Parameters.{atoi}
use zenlayer_cloud_csi_drive.Host.System.{Host, FileMode, FileError, not_exist, unreadable}

pub data DeviceError : Type 0 where
  command_failed no_device duplicate_serial invalid_size : DeviceError

unfoldable pub check_fs_type : Text → Bool
check_fs_type fs = str_eq fs (codes "ext4") || str_eq fs (codes "xfs") || str_eq fs (codes "ext3")

unfoldable pub serial_path : Text → Text
serial_path dev = codes "/sys/block/" ++ dev ++ codes "/device/block/" ++ dev ++ codes "/serial"

unfoldable pub device_path : Text → Text
device_path dev = codes "/dev/" ++ dev

-- Is this the serial that is looked for? A file that cannot be read is passed over.
unfoldable pub has_serial : Text → Result FileError Text → Bool
unfolding trim_space
has_serial serial (ok raw) = str_eq (trim_space raw) serial
has_serial serial (err e) = false

unfoldable pub is_block_mode : FileMode → Bool
is_block_mode m = m.device && not m.char_device

module _ {W : Type 0} (h : Host W) where
  -- One name of the list: an empty one is passed over without a look at a file.
  unfoldable pub look : Text → Text → W → Bool × W
  unfolding serial_path has_serial
  look serial dev w =
      let (r, after) = h.read_file (serial_path dev) w in
      if is_empty dev then (false, w) else (has_serial serial r, after)

  -- The loop over the names: `found` is the path that is found so far, or empty.
  unfoldable pub scan : Text → Text → List Text → Act DeviceError W Text
  unfolding look device_path
  scan serial found [] w = ((if is_empty found then err no_device else ok found), w)
  scan serial found (dev ∷ devs) w = elim (look serial dev w).0 [
    | false ↦ scan serial found devs (look serial dev w).1
    | true ↦ elim (is_empty found) [
      | true ↦ scan serial (device_path dev) devs (look serial dev w).1
      | false ↦ (err duplicate_serial, (look serial dev w).1)
    ]
  ]

  unfoldable pub get_dev_path_by_serial : Text → Act DeviceError W Text
  unfolding scan split trim_space
  get_dev_path_by_serial serial = do
    out ←
        with_error (λ e. command_failed)
          (h.run (codes "lsblk")
            (codes "-d" ∷ codes "-o" ∷ codes "NAME" ∷ codes "-n" ∷ codes "-i" ∷ []))
    scan serial [] (split newline (trim_space out))

  -- strconv.ParseInt at base 10 and 64 bits is strconv.Atoi.
  unfoldable pub get_block_size_bytes : Text → Act DeviceError W ℤ
  unfolding atoi trim_space
  get_block_size_bytes device = do
    out ←
        with_error (λ e. command_failed)
          (h.run (codes "blockdev") (codes "--getsize64" ∷ device ∷ []))
    lift (from_option invalid_size (atoi (trim_space out)))

  unfoldable pub is_block_device_path : Text → Act FileError W Bool
  unfolding is_block_mode
  is_block_device_path path = do mode ← h.stat path; pure (is_block_mode mode)

  -- A target that is not there: a file for a block device, a directory for a file system.
  unfoldable pub create_target :
      Text → Bool → Result FileError FileMode → Act FileError W (Unit {0})
  create_target path is_block (ok m) = pure tt
  create_target path is_block (err not_exist) =
      if is_block then h.create_file path else h.mkdir_all path
  create_target path is_block (err unreadable) = raise unreadable

  unfoldable pub create_target_mount_path_if_not_exists : Text → Bool → Act FileError W (Unit {0})
  unfolding create_target
  create_target_mount_path_if_not_exists path is_block =
      attempt (h.stat path) >>= create_target path is_block
