-- ===== src/Driver/StorageClass/Parameters/Laws.antt =====
-- Which storage classes come out of the parameters.
use zenlayer_cloud_csi_drive.Prelude.{
  ◌≡◌, refl, ap, ◌∙◌, sym, true, false, List, [], ◌∷◌, arith, Text, is_empty, str_eq_iff,
}
use zenlayer_cloud_csi_drive.Prelude.Result.{ok, ◌>>=◌, >>=-eq-ok, >>=_cong, >>=_assoc}
use zenlayer_cloud_csi_drive.Driver.VolumeType.{is_valid}
use zenlayer_cloud_csi_drive.Driver.StorageClass.{
  ZecStorageClass, is_valid_file_system_type, new_default_zec_storage_class_from_type,
  set_type_size, set_fs_type,
}
use zenlayer_cloud_csi_drive.Driver.StorageClass.Sizes.{HasLimits}
use zenlayer_cloud_csi_drive.Driver.StorageClass.Parameters.{
  Settings, Defaults, read_parameter, read_parameters, with_defaults, class_of_settings,
  new_zec_storage_class_from_map, initial_settings, Parameter, type_name, zone, place_group, burst,
  fs_type_name, other, parameter_of, set_parameter, equal_fold, to_lower, storage_class_type_name,
  storage_class_zone_id, storage_class_place_group_id, storage_class_burst_enable,
  storage_class_fs_type_name,
}

-- What every storage class of the driver is like.
pub record IsWellFormed (sc : ZecStorageClass) : Type 0 where
  pub valid_type : is_valid sc.disk_type ≡ true
  pub limits : HasLimits sc
  pub valid_fs : is_valid_file_system_type sc.fs_type ≡ true
  pub has_zone : is_empty sc.zone_id ≡ false
  pub has_group : is_empty sc.place_group_id ≡ false

with_defaults-located :
    (d : Defaults) (t : Settings) {u : Settings}
    → with_defaults d t ≡ ok u
    → (is_empty u.zone_id ≡ false) × (is_empty u.place_group_id ≡ false)
unfolding with_defaults
with_defaults-located d t h = ground arith

class_of_settings-IsWellFormed :
    (t : Settings) {sc : ZecStorageClass}
    → class_of_settings t ≡ ok sc
    → is_empty t.zone_id ≡ false
    → is_empty t.place_group_id ≡ false
    → IsWellFormed sc
unfolding class_of_settings new_default_zec_storage_class_from_type set_type_size set_fs_type
class_of_settings-IsWellFormed t h z g = ground arith

-- Every storage class that is read from parameters has a valid disk type and file system, the
-- driver's limits on the size, and a zone and a resource group that are not empty.
pub new_zec_storage_class_from_map-IsWellFormed :
    (d : Defaults) (opt : List (Text × Text)) (sc : ZecStorageClass)
    → new_zec_storage_class_from_map d opt ≡ ok sc
    → IsWellFormed sc
unfolding new_zec_storage_class_from_map
new_zec_storage_class_from_map-IsWellFormed d opt sc h =
    let (t, e, rest) = >>=-eq-ok (read_parameters initial_settings opt) _ h in
    let (u, e', h') = >>=-eq-ok (with_defaults d t) class_of_settings rest in
    let located = with_defaults-located d t e' in
    class_of_settings-IsWellFormed u h' located.0 located.1

-- If the parameters are read, have no resource group (or an empty one), and make a storage class,
-- then the class has the default zone, whatever zone is among them.
pub zone_ignored_without_group :
    (d : Defaults) (opt : List (Text × Text)) (t : Settings) (sc : ZecStorageClass)
    → read_parameters initial_settings opt ≡ ok t
    → t.place_group_id ≡ []
    → new_zec_storage_class_from_map d opt ≡ ok sc
    → sc.zone_id ≡ d.default_zone
unfolding new_zec_storage_class_from_map with_defaults class_of_settings set_type_size set_fs_type
    new_default_zec_storage_class_from_type is_empty
zone_ignored_without_group d opt t sc e g h = ground (arith, e)

set_parameter_comm :
    (p q : Parameter) (v w : Text) (t : Settings)
    → (p ≡ q → p ≡ other)
    → (set_parameter p v t >>= set_parameter q w) ≡ (set_parameter q w t >>= set_parameter p v)
unfolding set_parameter
set_parameter_comm type_name type_name v w t h = absurd (cc (h refl))
set_parameter_comm zone zone v w t h = absurd (cc (h refl))
set_parameter_comm place_group place_group v w t h = absurd (cc (h refl))
set_parameter_comm burst burst v w t h = absurd (cc (h refl))
set_parameter_comm fs_type_name fs_type_name v w t h = absurd (cc (h refl))
set_parameter_comm p q v w t h = ground arith

equal_fold_join :
    (k j name : Text) → equal_fold k name ≡ true → equal_fold j name ≡ true → equal_fold k j ≡ true
unfolding equal_fold
equal_fold_join k j name h h' = ground (
  arith,
  str_eq_iff (to_lower k) (to_lower name),
  str_eq_iff (to_lower j) (to_lower name),
  str_eq_iff (to_lower k) (to_lower j),
)

parameter_of-injective :
    (k j : Text) → equal_fold k j ≡ false → parameter_of k ≡ parameter_of j → parameter_of k ≡ other
unfolding parameter_of
parameter_of-injective k j h e = ground (
  arith,
  equal_fold_join k j storage_class_type_name,
  equal_fold_join k j storage_class_zone_id,
  equal_fold_join k j storage_class_place_group_id,
  equal_fold_join k j storage_class_burst_enable,
  equal_fold_join k j storage_class_fs_type_name,
)

-- The same entries in another order, in which no entry passes one whose key is the same up to case.
pub data Reordered : List (Text × Text) → List (Text × Text) → Type 0 where
  same : {l : List (Text × Text)} → Reordered l l
  keep : {l m : List (Text × Text)} (e : Text × Text) → Reordered l m → Reordered (e ∷ l) (e ∷ m)
  swap :
      {l : List (Text × Text)} (k v j w : Text)
      → equal_fold k j ≡ false
      → Reordered ((k, v) ∷ (j, w) ∷ l) ((j, w) ∷ (k, v) ∷ l)
  both : {l m n : List (Text × Text)} → Reordered l m → Reordered m n → Reordered l n

read_parameter_comm :
    (k v j w : Text) (t : Settings)
    → equal_fold k j ≡ false
    → (read_parameter (k, v) t >>= read_parameter (j, w))
      ≡ (read_parameter (j, w) t >>= read_parameter (k, v))
unfolding read_parameter
read_parameter_comm k v j w t h =
    set_parameter_comm (parameter_of k) (parameter_of j) v w t (parameter_of-injective k j h)

read_parameters-Reordered :
    {l m : List (Text × Text)} (t : Settings)
    → Reordered l m
    → read_parameters t l ≡ read_parameters t m
unfolding read_parameters
read_parameters-Reordered t same = refl
read_parameters-Reordered t (keep e r) =
    >>=_cong (read_parameter e t) _ _ (λ u. read_parameters-Reordered u r)
read_parameters-Reordered t (swap {l} k v j w h) =
    sym (>>=_assoc (read_parameter (k, v) t) (read_parameter (j, w)) (λ u. read_parameters u l))
    ∙ ap (λ m. m >>= λ u. read_parameters u l) (read_parameter_comm k v j w t h)
    ∙ >>=_assoc (read_parameter (j, w) t) (read_parameter (k, v)) (λ u. read_parameters u l)
read_parameters-Reordered t (both r r') =
    read_parameters-Reordered t r ∙ read_parameters-Reordered t r'

-- The storage class does not depend on the order in which Go visits the parameters, as long as
-- entries whose keys are the same up to case keep their order.
pub new_zec_storage_class_from_map-Reordered :
    (d : Defaults) (l m : List (Text × Text))
    → Reordered l m
    → new_zec_storage_class_from_map d l ≡ new_zec_storage_class_from_map d m
unfolding new_zec_storage_class_from_map
new_zec_storage_class_from_map-Reordered d l m r = rw (read_parameters-Reordered initial_settings r)
