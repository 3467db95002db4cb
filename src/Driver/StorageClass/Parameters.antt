-- ===== src/Driver/StorageClass/Parameters.antt =====
-- pkg/disk/driver/storageclass.go, NewZecStorageClassFromMap and UpdateParmsZone. A map is the
-- list of its entries in the order in which Go's `range` visits them, which is arbitrary.
pub mod Laws
use zenlayer_cloud_csi_drive.Prelude.{
  ℕ, zero, suc, ◌+◌, ◌-◌, ◌*◌, ◌^◌, Bool, true, false, List, [], ◌∷◌, map, ◌&&◌, ◌||◌, Option, none,
  some, Text, codes, str_eq, is_empty, leb, ltb, ◌==◌, if◌then◌else◌, ℤ, pos, negsuc, eqb_ℤ,
}
use zenlayer_cloud_csi_drive.Prelude.Result.{Result, ok, err, ◌>>=◌, from_option}
use zenlayer_cloud_csi_drive.Driver.VolumeType.{
  VolumeType, default_volume_type, is_valid, zec_max_disk_size_bytes, zec_min_disk_size_bytes,
}
use zenlayer_cloud_csi_drive.Driver.StorageClass.{
  ZecStorageClass, file_system_ext4, new_default_zec_storage_class_from_type, set_type_size,
  set_fs_type,
}

-- strings.ToLower and strings.EqualFold on ASCII; other bytes stay as they are.
unfoldable pub to_lower : Text → Text
to_lower = map λ c. if leb b'A' c && leb c b'Z' then c + 32 else c

unfoldable pub equal_fold : Text → Text → Bool
unfolding to_lower
equal_fold s t = str_eq (to_lower s) (to_lower t)

abbrev pub storage_class_type_name : Text
storage_class_type_name = codes "type"

abbrev pub storage_class_fs_type_name : Text
storage_class_fs_type_name = codes "fsType"

abbrev pub storage_class_zone_id : Text
storage_class_zone_id = codes "zoneID"

abbrev pub storage_class_place_group_id : Text
storage_class_place_group_id = codes "placeGroupID"

abbrev pub storage_class_burst_enable : Text
storage_class_burst_enable = codes "burstEnable"

unfoldable pub digits : ℕ → Text → Option ℕ
digits n [] = some n
digits n (c ∷ s) =
    let rest = digits (n * 10 + (c - b'0')) s in if leb b'0' c && leb c b'9' then rest else none

unfoldable pub unsigned : Text → Option ℕ
unfolding digits
unsigned [] = none
unsigned (c ∷ s) = digits 0 (c ∷ s)

abbrev negated : ℕ → ℤ
negated zero = pos 0
negated (suc n) = negsuc n

-- strconv.Atoi for a 64-bit `int`.
unfoldable pub atoi : Text → Option ℤ
unfolding unsigned
atoi [] = none
atoi (c ∷ s) =
    if c == b'-'
    then elim (unsigned s) [
      | none ↦ none
      | some n ↦ if leb n (2 ^ 63) then some (negated n) else none
    ]
    else elim (if c == b'+' then unsigned s else unsigned (c ∷ s)) [
      | none ↦ none
      | some n ↦ if ltb n (2 ^ 63) then some (pos n) else none
    ]

-- The local variables of the loop.
pub record Settings : Type 0 where
  pub vol_type : ℤ
  pub fs_type : Text
  pub zone_id : Text
  pub place_group_id : Text
  pub burst_enable : Text

abbrev pub initial_settings : Settings
initial_settings = record {
  vol_type = negsuc 0;
  fs_type = file_system_ext4;
  zone_id = [];
  place_group_id = [];
  burst_enable = codes "false";
}

-- common.DefaultZone and common.DefaultResourceGroup, which the command line sets.
pub record Defaults : Type 0 where
  pub default_zone : Text
  pub default_resource_group : Text

pub data ParameterError : Type 0 where
  not_a_number missing_zone_or_group unsupported_volume_type bad_type_size bad_fs_type :
      ParameterError

-- The cases of the switch on the key.
pub data Parameter : Type 0 where
  type_name zone place_group burst fs_type_name other : Parameter

unfoldable pub parameter_of : Text → Parameter
parameter_of k =
    if equal_fold k storage_class_type_name
    then type_name
    else if equal_fold k storage_class_zone_id
    then zone
    else if equal_fold k storage_class_place_group_id
    then place_group
    else if equal_fold k storage_class_burst_enable
    then burst
    else if equal_fold k storage_class_fs_type_name
    then fs_type_name
    else other

unfoldable pub set_parameter : Parameter → Text → Settings → Result ParameterError Settings
set_parameter type_name v t = elim (atoi v) [
  | none ↦ err not_a_number
  | some iv ↦ ok (record t { vol_type = iv })
]
set_parameter zone v t = ok (record t { zone_id = v })
set_parameter place_group v t = ok (record t { place_group_id = v })
set_parameter burst v t = ok (record t { burst_enable = v })
set_parameter fs_type_name v t = if is_empty v then ok t else ok (record t { fs_type = v })
set_parameter other v t = ok t

-- One round of the loop over the parameters.
unfoldable pub read_parameter : Text × Text → Settings → Result ParameterError Settings
unfolding parameter_of set_parameter
read_parameter (k, v) t = set_parameter (parameter_of k) v t

unfoldable pub read_parameters : Settings → List (Text × Text) → Result ParameterError Settings
read_parameters t [] = ok t
read_parameters t (e ∷ opt) = read_parameter e t >>= λ t'. read_parameters t' opt

-- The fallback for zone and group: if either is missing, both are replaced by the defaults.
unfoldable pub with_defaults : Defaults → Settings → Result ParameterError Settings
with_defaults d t =
    if is_empty t.zone_id || is_empty t.place_group_id
    then (if is_empty d.default_zone || is_empty d.default_resource_group
        then err missing_zone_or_group
        else ok (record t { zone_id = d.default_zone; place_group_id = d.default_resource_group }))
    else ok t

unfoldable pub chosen_type : ℤ → VolumeType
chosen_type vol_type = if eqb_ℤ vol_type (negsuc 0) then default_volume_type else vol_type

-- The storage class of the settings. A type that is not valid is refused before a class is made.
unfoldable pub class_of_settings : Settings → Result ParameterError ZecStorageClass
class_of_settings t = do
  sc ←
      from_option unsupported_volume_type
        (new_default_zec_storage_class_from_type (chosen_type t.vol_type))
  sized ←
      from_option bad_type_size (set_type_size zec_max_disk_size_bytes zec_min_disk_size_bytes sc)
  typed ← from_option bad_fs_type (set_fs_type t.fs_type sized)
  ok (record typed {
    zone_id = t.zone_id;
    place_group_id = t.place_group_id;
    burst_enable = str_eq t.burst_enable (codes "true");
  })

unfoldable pub new_zec_storage_class_from_map :
    Defaults → List (Text × Text) → Result ParameterError ZecStorageClass
new_zec_storage_class_from_map d opt = do
  read ← read_parameters initial_settings opt
  settings ← with_defaults d read
  class_of_settings settings

-- UpdateParmsZone: the zone that was picked replaces the configured one.
unfoldable pub update_parms_zone : Text → List (Text × Text) → List (Text × Text)
unfolding equal_fold
update_parms_zone picked [] = []
update_parms_zone picked ((k, v) ∷ opt) =
    (k, (if equal_fold k storage_class_zone_id then picked else v)) ∷ update_parms_zone picked opt
