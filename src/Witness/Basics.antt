-- ===== src/Witness/Basics.antt =====
-- The locks, identifiers, sizes and storage classes, at concrete inputs.
use zenlayer_cloud_csi_drive.Prelude.{
  ℕ, ◌≡◌, ◌≤◌, ◌*◌, ◌-◌, ◌+◌, ◌^◌, ◌↔◌, refl, true, false, [], ◌∷◌, inr, some, arith, Text, codes,
  pos, negsuc, str_eq,
}
use zenlayer_cloud_csi_drive.Prelude.Result.{ok}
use zenlayer_cloud_csi_drive.Common.Calculator.{gib, bytes, gib_to_byte, byte_ceil_to_gib}
use zenlayer_cloud_csi_drive.Common.Lock.{has, try_acquire}
use zenlayer_cloud_csi_drive.Common.Lock.Exclusion.{
  Running, Reach, idle, acquired, here, next, holds, mutual_exclusion,
}
use zenlayer_cloud_csi_drive.Common.VolumeId.{gen_csi_vol_id, parse_csi_vol_id}
use zenlayer_cloud_csi_drive.Common.VolumeId.Laws.{IsDiskId, parse_csi_vol_id_iff}
use zenlayer_cloud_csi_drive.Driver.VolumeType.{
  zec_max_disk_size_bytes, zec_min_disk_size_bytes, basic_volume_type,
}
use zenlayer_cloud_csi_drive.Driver.StorageClass.{
  ZecStorageClass, file_system_ext4, get_required_volume_size_byte,
}
use zenlayer_cloud_csi_drive.Driver.StorageClass.Sizes.{
  HasLimits, IsAdmissible, range, required_size_sound, required_size_least, required_size_overflow,
}
use zenlayer_cloud_csi_drive.Driver.StorageClass.Parameters.{
  Defaults, Settings, initial_settings, read_parameters, new_zec_storage_class_from_map, equal_fold,
}
use zenlayer_cloud_csi_drive.Driver.StorageClass.Parameters.Laws.{
  swap, new_zec_storage_class_from_map-Reordered,
}
use zenlayer_cloud_csi_drive.Driver.StorageClass.Parameters.{
  atoi, chosen_type, class_of_settings, read_parameter, with_defaults,
}
use zenlayer_cloud_csi_drive.Prelude.{is_empty}
use zenlayer_cloud_csi_drive.Driver.StorageClass.{
  new_default_zec_storage_class_from_type, set_fs_type, set_type_size,
}

abbrev class : ZecStorageClass
class = record {
  disk_type = basic_volume_type;
  max_size = zec_max_disk_size_bytes;
  min_size = zec_min_disk_size_bytes;
  fs_type = file_system_ext4;
  zone_id = codes "z-1";
  place_group_id = codes "g-1";
  burst_enable = false;
}

limited : HasLimits class
limited = record { min = refl; max = refl }

rounded :
    get_required_volume_size_byte class (some (range (25 * gib + 1) (30 * gib)))
    ≡ bytes (pos (26 * gib))
unfolding get_required_volume_size_byte gib_to_byte byte_ceil_to_gib
rounded = refl

required_size_sound_example : IsAdmissible (25 * gib + 1) (30 * gib) 26
required_size_sound_example =
    required_size_sound class (25 * gib + 1) (30 * gib) 26 limited (omega arith) rounded

required_size_least_example :
    (j : ℕ) × (get_required_volume_size_byte class (some (range (25 * gib + 1) (30 * gib)))
      ≡ bytes (pos (j * gib)))
    × (j ≤ 28)
    × IsAdmissible (25 * gib + 1) (30 * gib) j
required_size_least_example =
    required_size_least class (25 * gib + 1) (30 * gib) 28 limited (record {
      above_min = omega arith;
      below_max = omega arith;
      enough = omega arith;
      within = inr (omega arith);
    })

required_size_overflow_example :
    get_required_volume_size_byte class (some (range (2 ^ 63 - 1) 0)) ≡ bytes (negsuc (2 ^ 63 - 1))
required_size_overflow_example =
    required_size_overflow class (2 ^ 63 - 1) limited (omega arith) (omega arith)

parse_csi_vol_id_iff_example :
    (parse_csi_vol_id (codes "1234567890123456789-abcdefghijklmnopqrst")
      ≡ some (codes "1234567890123456789", codes "abcdefghijklmnopqrst"))
    ↔ ((codes "1234567890123456789-abcdefghijklmnopqrst"
          ≡ gen_csi_vol_id (codes "1234567890123456789") (codes "abcdefghijklmnopqrst"))
        × IsDiskId (codes "1234567890123456789") (codes "abcdefghijklmnopqrst"))
parse_csi_vol_id_iff_example =
    parse_csi_vol_id_iff (codes "1234567890123456789-abcdefghijklmnopqrst")
      (codes "1234567890123456789") (codes "abcdefghijklmnopqrst")

-- Operation 1 holds the lock on the disk `d`.
abbrev busy : Running
busy = record { locks = record { locks = codes "d" ∷ [] }; holders = (1, codes "d") ∷ [] }

abbrev first : ℕ
first = 1

reached : Reach idle busy
unfolding try_acquire has
reached = next here (acquired idle 1 (codes "d") (record { locks = codes "d" ∷ [] }) refl)

held : holds 1 (codes "d") busy.holders ≡ true
unfolding holds str_eq
held = refl

mutual_exclusion_example : (first ≡ first) × (has (codes "d") busy.locks.locks ≡ true)
mutual_exclusion_example = mutual_exclusion busy first first (codes "d") reached held held

abbrev defaults : Defaults
defaults = record { default_zone = codes "z-1"; default_resource_group = codes "g-1" }

abbrev typed : Text × Text
typed = (codes "type", codes "1")

abbrev zoned : Text × Text
zoned = (codes "zoneID", codes "z-2")

abbrev settings : Settings
settings = record initial_settings { vol_type = pos 1; zone_id = codes "z-2" }

settled : read_parameters initial_settings (typed ∷ zoned ∷ []) ≡ ok settings
unfolding read_parameters str_eq read_parameter equal_fold atoi
settled = refl

classified : new_zec_storage_class_from_map defaults (typed ∷ zoned ∷ []) ≡ ok class
unfolding new_zec_storage_class_from_map str_eq read_parameters read_parameter equal_fold atoi
    with_defaults is_empty class_of_settings new_default_zec_storage_class_from_type chosen_type
    set_type_size set_fs_type
classified = refl

apart : equal_fold (codes "type") (codes "zoneID") ≡ false
unfolding equal_fold str_eq
apart = refl

new_zec_storage_class_from_map-Reordered_example :
    new_zec_storage_class_from_map defaults (typed ∷ zoned ∷ [])
    ≡ new_zec_storage_class_from_map defaults (zoned ∷ typed ∷ [])
new_zec_storage_class_from_map-Reordered_example =
    new_zec_storage_class_from_map-Reordered defaults (typed ∷ zoned ∷ []) (zoned ∷ typed ∷ [])
      (swap (codes "type") (codes "1") (codes "zoneID") (codes "z-2") apart)
