-- ===== src/Rpc/Placement.antt =====
-- pkg/disk/rpcserver/controllerserver.go: PickTopology, IsValidTopology and GetVolumeTopology.
pub mod Visits
pub mod Laws
use zenlayer_cloud_csi_drive.Prelude.{
  Bool, true, false, List, [], ◌∷◌, map, any, Option, none, some, Text, str_eq, if◌then◌else◌,
}
use zenlayer_cloud_csi_drive.Prelude.Result.{Result, ok, err, ◌>>=◌}
use zenlayer_cloud_csi_drive.Driver.VolumeType.{
  VmType, is_valid, vm_type_name, vm_type_value, volume_type_attach_constraint,
}
use zenlayer_cloud_csi_drive.Driver.Capability.{
  DiskDriver, get_topology_vm_type_key, get_topology_zone_key,
}
use zenlayer_cloud_csi_drive.Driver.Topology.{Topology, empty_topology, set_vm_type, set_zone}
use zenlayer_cloud_csi_drive.Cloud.Types.{ZecVolume}

-- csi.Topology: a map from keys to values, as the list of its entries in the order of a visit. The map
-- itself has no order; Placement/Visits relates the orders in which it may be visited.
abbrev pub Segments : Type 0
Segments = List (Text × Text)

pub record TopologyRequirement : Type 0 where
  pub requisite : List Segments
  pub preferred : List Segments

pub data PickError : Type 0 where
  unsupported_instance_type invalid_topology_key : PickError

unfoldable pub read_segment : DiskDriver → Topology → Text × Text → Result PickError Topology
unfolding vm_type_value set_zone set_vm_type get_topology_zone_key get_topology_vm_type_key
read_segment d t (k, v) =
    if str_eq k (get_topology_zone_key d)
    then ok (set_zone v t)
    else if str_eq k (get_topology_vm_type_key d)
    then elim (vm_type_value v) [
      | none ↦ err unsupported_instance_type
      | some vt ↦ ok (set_vm_type vt t)
    ]
    else err invalid_topology_key

unfoldable pub read_segments : DiskDriver → Topology → Segments → Result PickError Topology
unfolding read_segment
read_segments d t [] = ok t
read_segments d t (e ∷ es) = read_segment d t e >>= λ t'. read_segments d t' es

-- Each loop of the source returns in its first round.
unfoldable pub pick_first : DiskDriver → List Segments → Result PickError (Option Topology)
unfolding read_segments
pick_first d [] = ok none
pick_first d (s ∷ ss) = read_segments d empty_topology s >>= λ t. ok (some t)

unfoldable pub pick_from :
    DiskDriver → List Segments → List Segments → Result PickError (Option Topology)
unfolding pick_first
pick_from d [] requisite = pick_first d requisite
pick_from d (s ∷ ss) requisite = pick_first d (s ∷ ss)

unfoldable pub pick_topology :
    DiskDriver → Option TopologyRequirement → Result PickError (Option Topology)
unfolding pick_from
pick_topology d none = ok none
pick_topology d (some r) = pick_from d r.preferred r.requisite

-- One topology of a volume, with its two entries in one of their orders; the name of a VM type that is not in the map reads as empty.
unfoldable pub segments_of : DiskDriver → Text → VmType → Segments
unfolding get_topology_zone_key get_topology_vm_type_key vm_type_name
segments_of d zone vm =
    (get_topology_vm_type_key d, elim (vm_type_name vm) [ none ↦ [] | some s ↦ s ])
    ∷ (get_topology_zone_key d, zone)
    ∷ []

unfoldable pub get_volume_topology : DiskDriver → ZecVolume → List Segments
unfolding segments_of is_valid volume_type_attach_constraint
get_volume_topology d v =
    if is_valid v.type
    then map (λ vm. segments_of d v.zone vm) (volume_type_attach_constraint v.type)
    else []

-- `proto_equal` is google.golang.org/protobuf/proto.Equal on topologies.
unfoldable pub is_valid_topology :
    (Segments → Segments → Bool) → DiskDriver → ZecVolume → Option TopologyRequirement → Bool
unfolding get_volume_topology
is_valid_topology proto_equal d v none = true
is_valid_topology proto_equal d v (some r) = elim r.requisite [
  | [] ↦ true
  | s ∷ ss ↦ any (λ q. any (λ t. proto_equal q t) (get_volume_topology d v)) (s ∷ ss)
]
