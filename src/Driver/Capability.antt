-- ===== src/Driver/Capability.antt =====
-- pkg/disk/driver/driver.go, types.go and utils.go: what the driver supports. A protobuf
-- enumeration is open, so its values are numbers; the constants name those that the code uses.
use zenlayer_cloud_csi_drive.Prelude.{
  ℕ, Bool, true, false, List, [], ◌∷◌, ◌++◌, Option, none, some, Text, codes, any, all, ◌==◌,
  if◌then◌else◌, ℤ,
}

-- csi.VolumeCapability_AccessMode_Mode
abbrev pub AccessMode : Type 0
AccessMode = ℕ

abbrev pub mode_unknown : AccessMode
mode_unknown = 0

abbrev pub single_node_writer : AccessMode
single_node_writer = 1

abbrev pub single_node_single_writer : AccessMode
single_node_single_writer = 6

-- csi.ControllerServiceCapability_RPC_Type
abbrev pub ControllerRpc : Type 0
ControllerRpc = ℕ

abbrev pub controller_unknown : ControllerRpc
controller_unknown = 0

abbrev pub create_delete_volume : ControllerRpc
create_delete_volume = 1

abbrev pub publish_unpublish_volume : ControllerRpc
publish_unpublish_volume = 2

abbrev pub create_delete_snapshot : ControllerRpc
create_delete_snapshot = 5

abbrev pub controller_expand_volume : ControllerRpc
controller_expand_volume = 9

-- csi.NodeServiceCapability_RPC_Type
abbrev pub NodeRpc : Type 0
NodeRpc = ℕ

abbrev pub node_unknown : NodeRpc
node_unknown = 0

abbrev pub stage_unstage_volume : NodeRpc
stage_unstage_volume = 1

abbrev pub get_volume_stats : NodeRpc
get_volume_stats = 2

abbrev pub node_expand_volume : NodeRpc
node_expand_volume = 3

-- csi.PluginCapability: a service or a kind of volume expansion.
pub data PluginCapability : Type 0 where
  service : ℕ → PluginCapability
  volume_expansion : ℕ → PluginCapability

abbrev pub controller_service : ℕ
controller_service = 1

abbrev pub volume_accessibility_constraints : ℕ
volume_accessibility_constraints = 2

abbrev pub online : ℕ
online = 1

-- csi.VolumeCapability_MountVolume
pub record MountVolume : Type 0 where
  pub fs_type : Text
  pub mount_flags : List Text

pub data AccessType : Type 0 where
  block : AccessType
  mount : MountVolume → AccessType

-- csi.VolumeCapability; a part that is not set is `none`.
pub record VolumeCapability : Type 0 where
  pub access_mode : Option AccessMode
  pub access_type : Option AccessType

-- GetAccessMode().GetMode(), which reads what is not set as UNKNOWN.
unfoldable pub get_mode : VolumeCapability → AccessMode
get_mode c = elim c.access_mode [ none ↦ mode_unknown | some m ↦ m ]

-- GetBlock() != nil
unfoldable pub is_block : VolumeCapability → Bool
is_block c = elim c.access_type [
  | none ↦ false
  | some t ↦ elim t [ block ↦ true | mount m ↦ false ]
]

-- GetMount()
unfoldable pub get_mount : VolumeCapability → Option MountVolume
get_mount c = elim c.access_type [
  | none ↦ none
  | some t ↦ elim t [ block ↦ none | mount m ↦ some m ]
]

pub record DiskDriver : Type 0 where
  pub name : Text
  pub version : Text
  pub node_id : Text
  pub zone_id : Text
  pub max_volume : ℤ
  pub volume_cap : List AccessMode
  pub controller_cap : List ControllerRpc
  pub node_cap : List NodeRpc
  pub plugin_cap : List PluginCapability

-- Before InitDiskDriver every field has Go's zero value.
abbrev pub get_disk_driver : ℤ → DiskDriver
get_disk_driver zero_value = record {
  name = [];
  version = [];
  node_id = [];
  zone_id = [];
  max_volume = zero_value;
  volume_cap = [];
  controller_cap = [];
  node_cap = [];
  plugin_cap = [];
}

-- InitDiskDriver; InitDiskDriverInput has the same fields, and a nil input is `none`. The
-- capabilities stand in the lists with the protobuf messages around them left out.
unfoldable pub init_disk_driver : DiskDriver → Option DiskDriver → DiskDriver
init_disk_driver d none = d
init_disk_driver d (some input) = record d {
  name = input.name;
  version = input.version;
  node_id = input.node_id;
  zone_id = input.zone_id;
  max_volume = input.max_volume;
  volume_cap = input.volume_cap;
  controller_cap = input.controller_cap;
  node_cap = input.node_cap;
  plugin_cap = input.plugin_cap;
}

abbrev pub default_volume_access_mode_type : List AccessMode
default_volume_access_mode_type = single_node_writer ∷ single_node_single_writer ∷ []

abbrev pub default_controller_service_capability : List ControllerRpc
default_controller_service_capability =
    create_delete_volume ∷ publish_unpublish_volume ∷ controller_expand_volume
    ∷ create_delete_snapshot ∷ []

abbrev pub default_node_service_capability : List NodeRpc
default_node_service_capability = stage_unstage_volume ∷ node_expand_volume ∷ get_volume_stats ∷ []

abbrev pub default_plugin_capability : List PluginCapability
default_plugin_capability =
    service controller_service
    ∷ volume_expansion online
    ∷ service volume_accessibility_constraints
    ∷ []

unfoldable pub validate_controller_service_request : DiskDriver → ControllerRpc → Bool
validate_controller_service_request d c =
    if c == controller_unknown then true else any (λ cap. c == cap) d.controller_cap

unfoldable pub validate_node_service_request : DiskDriver → NodeRpc → Bool
validate_node_service_request d c =
    if c == node_unknown then true else any (λ cap. c == cap) d.node_cap

unfoldable pub validate_volume_access_mode : DiskDriver → AccessMode → Bool
validate_volume_access_mode d c = any (λ mode. c == mode) d.volume_cap

unfoldable pub validate_volume_capability : DiskDriver → VolumeCapability → Bool
unfolding validate_volume_access_mode get_mode
validate_volume_capability d cap = validate_volume_access_mode d (get_mode cap)

unfoldable pub validate_volume_capabilities : DiskDriver → List VolumeCapability → Bool
unfolding validate_volume_access_mode get_mode
validate_volume_capabilities d = all (λ cap. validate_volume_access_mode d (get_mode cap))

unfoldable pub is_service : ℕ → PluginCapability → Bool
is_service cap (service t) = t == cap
is_service cap (volume_expansion t) = false

unfoldable pub validate_plugin_capability_service : DiskDriver → ℕ → Bool
unfolding is_service
validate_plugin_capability_service d cap = any (is_service cap) d.plugin_cap

unfoldable pub get_topology_zone_key : DiskDriver → Text
get_topology_zone_key d = codes "topology." ++ d.name ++ codes "/zone"

unfoldable pub get_topology_vm_type_key : DiskDriver → Text
get_topology_vm_type_key d = codes "topology." ++ d.name ++ codes "/Vm-type"
