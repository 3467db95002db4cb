-- ===== src/Driver/VolumeType.antt =====
-- pkg/disk/driver/types.go: disk types, VM types and the limits of a disk's size.
use zenlayer_cloud_csi_drive.Prelude.{
  ◌*◌, Bool, true, false, List, [], ◌∷◌, Option, none, some, Text, codes, str_eq, if◌then◌else◌, ℤ,
  pos, negsuc, eqb_ℤ,
}
use zenlayer_cloud_csi_drive.Common.Calculator.{gib}

-- An `int` of the source: 1 is Basic, 2 is Standard.
abbrev pub VolumeType : Type 0
VolumeType = ℤ

abbrev pub invalid_volume_type : VolumeType
invalid_volume_type = negsuc 0

abbrev pub basic_volume_type : VolumeType
basic_volume_type = pos 1

abbrev pub standard_volume_type : VolumeType
standard_volume_type = pos 2

abbrev pub default_volume_type : VolumeType
default_volume_type = standard_volume_type

abbrev pub basic_nvme_name : Text
basic_nvme_name = codes "Basic NVMe SSD"

abbrev pub standard_nvme_name : Text
standard_nvme_name = codes "Standard NVMe SSD"

-- The map VolumeTypeName.
unfoldable pub volume_type_name : VolumeType → Option Text
volume_type_name v =
    if eqb_ℤ v basic_volume_type
    then some basic_nvme_name
    else if eqb_ℤ v standard_volume_type
    then some standard_nvme_name
    else none

-- VolumeType.String; a missing key reads as the empty text.
unfoldable pub type_to_string : VolumeType → Text
unfolding volume_type_name
type_to_string v = elim (volume_type_name v) [ none ↦ [] | some s ↦ s ]

unfoldable pub string_to_type : Text → VolumeType
string_to_type s =
    if str_eq basic_nvme_name s
    then basic_volume_type
    else if str_eq s standard_nvme_name
    then standard_volume_type
    else invalid_volume_type

unfoldable pub is_valid : VolumeType → Bool
unfolding volume_type_name
is_valid v = elim (volume_type_name v) [ none ↦ false | some s ↦ true ]

-- An `int` of the source.
abbrev pub VmType : Type 0
VmType = ℤ

abbrev pub basic_vm_type : VmType
basic_vm_type = pos 1

abbrev pub basic_vm_name : Text
basic_vm_name = codes "BasicVm"

-- The map VmTypeName.
unfoldable pub vm_type_name : VmType → Option Text
vm_type_name t = if eqb_ℤ t basic_vm_type then some basic_vm_name else none

-- The map VmTypeValue.
unfoldable pub vm_type_value : Text → Option VmType
vm_type_value s = if str_eq basic_vm_name s then some basic_vm_type else none

-- The map VolumeTypeAttachConstraint; a missing key reads as the empty list.
unfoldable pub volume_type_attach_constraint : VolumeType → List VmType
volume_type_attach_constraint v =
    if eqb_ℤ v basic_volume_type
    then basic_vm_type ∷ []
    else if eqb_ℤ v standard_volume_type
    then basic_vm_type ∷ []
    else []

abbrev pub zec_max_disk_size_bytes : ℤ
zec_max_disk_size_bytes = pos (32768 * gib)

abbrev pub zec_min_disk_size_bytes : ℤ
zec_min_disk_size_bytes = pos (20 * gib)

-- The maps VolumeTypeToMinSize and VolumeTypeToMaxSize; a missing key reads as 0.
unfoldable pub volume_type_to_min_size : VolumeType → ℤ
unfolding is_valid
volume_type_to_min_size v = if is_valid v then zec_min_disk_size_bytes else pos 0

unfoldable pub volume_type_to_max_size : VolumeType → ℤ
unfolding is_valid
volume_type_to_max_size v = if is_valid v then zec_max_disk_size_bytes else pos 0
