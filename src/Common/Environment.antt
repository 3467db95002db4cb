-- ===== src/Common/Environment.antt =====
-- pkg/common/common.go: VerifyEnv, GetZecEnv and GetZecSecret, over the files and commands of a host.
use zenlayer_cloud_csi_drive.Prelude.{
  ℕ, not, [], ◌∷◌, Text, codes, str_eq, is_empty, length, ◌==◌, if◌then◌else◌,
}
use zenlayer_cloud_csi_drive.Prelude.Act.{Act, pure, refuse_if, with_error, ◌>>=◌, ◌>>◌}
use zenlayer_cloud_csi_drive.Prelude.Lines.{newline, trim_space}
use zenlayer_cloud_csi_drive.Host.System.{Host, FileError, ExecError}

pub data EnvError : Type 0 where
  file_error : FileError → EnvError
  command_error : ExecError → EnvError
  unsupported_platform invalid_serial no_zone : EnvError

abbrev pub zec_platform : Text
zec_platform = codes "Zenlayer Elastic Compute"

abbrev pub zec_sys_vendor_path : Text
zec_sys_vendor_path = codes "/sys/class/dmi/id/sys_vendor"

abbrev pub zec_product_family_path : Text
zec_product_family_path = codes "/sys/class/dmi/id/product_family"

abbrev pub zec_product_serial_path : Text
zec_product_serial_path = codes "/sys/class/dmi/id/product_serial"

abbrev pub zecvmid_len : ℕ
zecvmid_len = 19

-- strings.Replace of every newline by nothing.
unfoldable pub without_newlines : Text → Text
without_newlines [] = []
without_newlines (c ∷ s) = let rest = without_newlines s in if c == newline then rest else c ∷ rest

module _ {W : Type 0} (h : Host W) where
  unfoldable pub verify_env : Act EnvError W Text
  unfolding without_newlines
  verify_env = do
    raw ← with_error file_error (h.read_file zec_sys_vendor_path)
    let platform = without_newlines raw
    refuse_if (not (str_eq platform zec_platform)) unsupported_platform
    blockdev ← with_error command_error (h.run (codes "blockdev") (codes "-V" ∷ []))
    lsblk ← with_error command_error (h.run (codes "lsblk") (codes "-V" ∷ []))
    pure platform

  -- The identifier of the VM and its zone.
  unfoldable pub get_zec_env : Act EnvError W (Text × Text)
  unfolding without_newlines
  get_zec_env = do
    raw_id ← with_error file_error (h.read_file zec_product_serial_path)
    let vmid = without_newlines raw_id
    refuse_if (not (length vmid == zecvmid_len)) invalid_serial
    raw_zone ← with_error file_error (h.read_file zec_product_family_path)
    let vm_zone = without_newlines raw_zone
    refuse_if (is_empty vm_zone) no_zone
    pure (vmid, vm_zone)

  unfoldable pub get_zec_secret : Text → Text → Act EnvError W (Text × Text)
  unfolding trim_space
  get_zec_secret akpath skpath = do
    ak ← with_error file_error (h.read_file akpath)
    pw ← with_error file_error (h.read_file skpath)
    pure (trim_space ak, trim_space pw)
