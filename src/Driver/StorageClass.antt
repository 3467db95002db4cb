-- ===== src/Driver/StorageClass.antt =====
-- pkg/disk/driver/storageclass.go
pub mod Parameters
pub mod Sizes
use zenlayer_cloud_csi_drive.Prelude.{
  ℕ, ◌∷◌, [], List, Bool, true, false, ◌&&◌, ◌||◌, Option, none, some, Text, codes, str_eq,
  if◌then◌else◌, ℤ, pos, ltb_ℤ, leb_ℤ,
}
use zenlayer_cloud_csi_drive.Common.Calculator.{
  CapacityRange, RangeResult, bytes, refused, negative_range, required_above_limit, above_max_size,
  above_limit, gib_to_byte, byte_ceil_to_gib,
}
use zenlayer_cloud_csi_drive.Driver.VolumeType.{
  VolumeType, is_valid, volume_type_to_max_size, volume_type_to_min_size,
}

abbrev pub file_system_ext3 : Text
file_system_ext3 = codes "ext3"

abbrev pub file_system_ext4 : Text
file_system_ext4 = codes "ext4"

abbrev pub file_system_xfs : Text
file_system_xfs = codes "xfs"

unfoldable pub is_valid_file_system_type : Text → Bool
is_valid_file_system_type fs =
    str_eq fs file_system_ext3 || str_eq fs file_system_ext4 || str_eq fs file_system_xfs

pub record ZecStorageClass : Type 0 where
  pub disk_type : VolumeType
  pub max_size : ℤ
  pub min_size : ℤ
  pub fs_type : Text
  pub zone_id : Text
  pub place_group_id : Text
  pub burst_enable : Bool

-- `none` is the nil of an invalid type.
unfoldable pub new_default_zec_storage_class_from_type : VolumeType → Option ZecStorageClass
unfolding is_valid volume_type_to_max_size volume_type_to_min_size
new_default_zec_storage_class_from_type t =
    if is_valid t
    then some (record {
      disk_type = t;
      max_size = volume_type_to_max_size t;
      min_size = volume_type_to_min_size t;
      fs_type = file_system_ext4;
      zone_id = [];
      place_group_id = [];
      burst_enable = false;
    })
    else none

-- setTypeSize: negative limits are ignored, a maximum below the minimum is an error.
unfoldable pub set_type_size : ℤ → ℤ → ZecStorageClass → Option ZecStorageClass
set_type_size max_size min_size sc =
    if ltb_ℤ max_size (pos 0) || leb_ℤ min_size (pos 0)
    then some sc
    else if ltb_ℤ max_size min_size
    then none
    else some (record sc { max_size = max_size; min_size = min_size })

unfoldable pub set_fs_type : Text → ZecStorageClass → Option ZecStorageClass
unfolding is_valid_file_system_type
set_fs_type fs sc = if is_valid_file_system_type fs then some (record sc { fs_type = fs }) else none

unfoldable pub format_volume_size_byte : ZecStorageClass → ℤ → ℤ
format_volume_size_byte sc size =
    let raised = if leb_ℤ size sc.min_size then sc.min_size else size in
    if ltb_ℤ sc.max_size raised then sc.max_size else raised

-- The last part of GetRequiredVolumeSizeByte, from the rounding on.
unfoldable pub round_up : ZecStorageClass → ℤ → ℤ → RangeResult
round_up sc limit required =
    let raised = if ltb_ℤ required sc.min_size then sc.min_size else required in
    let actual = gib_to_byte (byte_ceil_to_gib raised) in
    if ltb_ℤ sc.max_size actual
    then refused above_max_size
    else if ltb_ℤ (pos 0) limit && ltb_ℤ limit actual
    then refused above_limit
    else bytes actual

unfoldable pub get_required_volume_size_byte : ZecStorageClass → Option CapacityRange → RangeResult
unfolding round_up
get_required_volume_size_byte sc none = bytes sc.min_size
get_required_volume_size_byte sc (some r) =
    if ltb_ℤ r.required_bytes (pos 0) || ltb_ℤ r.limit_bytes (pos 0)
    then refused negative_range
    else if ltb_ℤ (pos 0) r.limit_bytes && ltb_ℤ r.limit_bytes r.required_bytes
    then refused required_above_limit
    else round_up sc r.limit_bytes r.required_bytes
