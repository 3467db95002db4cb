-- ===== src/Rpc/Placement/Laws.antt =====
-- The topologies that a volume is reported with are topologies that it can be asked for.
use zenlayer_cloud_csi_drive.Prelude.{
  ◌≡◌, ap, ◌∙◌, ◌≢◌, Bool, true, List, [], ◌∷◌, ◌++◌, any, any-middle, some, arith, Text,
  str_eq_iff, str_eq_refl, codes,
}
use zenlayer_cloud_csi_drive.Prelude.Result.{ok}
use zenlayer_cloud_csi_drive.Driver.VolumeType.{
  is_valid, vm_type_name, vm_type_value, volume_type_name, volume_type_attach_constraint,
  basic_vm_type, basic_vm_name,
}
use zenlayer_cloud_csi_drive.Driver.Capability.{
  DiskDriver, get_topology_vm_type_key, get_topology_zone_key,
}
use zenlayer_cloud_csi_drive.Driver.Topology.{new_topology, set_vm_type, set_zone}
use zenlayer_cloud_csi_drive.Cloud.Types.{ZecVolume}
use zenlayer_cloud_csi_drive.Rpc.Placement.Visits.{Visits, pick_first-Visits}
use zenlayer_cloud_csi_drive.Rpc.Placement.{
  Segments, read_segment, read_segments, pick_first, pick_from, pick_topology, segments_of,
  get_volume_topology, is_valid_topology,
}

append_injective : (a b c : Text) → a ++ b ≡ a ++ c → b ≡ c
append_injective [] b c h = h
append_injective (x ∷ a) b c h = append_injective a b c (ground (arith, h))

tail_apart : (b : Text) → b ++ codes "/zone" ≢ b ++ codes "/Vm-type"
tail_apart b h = ground (arith, append_injective b (codes "/zone") (codes "/Vm-type") h)

keys_apart : (d : DiskDriver) → get_topology_zone_key d ≢ get_topology_vm_type_key d
unfolding get_topology_zone_key get_topology_vm_type_key
keys_apart d h = tail_apart d.name (append_injective (codes "topology.") _ _ h)

pub pick_first-segments_of :
    (d : DiskDriver) (zone : Text) (ss : List Segments)
    → pick_first d (segments_of d zone basic_vm_type ∷ ss)
      ≡ ok (some (new_topology zone basic_vm_type))
unfolding pick_first read_segments read_segment segments_of vm_type_name vm_type_value set_zone
    set_vm_type new_topology
pick_first-segments_of d zone ss = ground (
  arith,
  keys_apart d,
  str_eq_iff (get_topology_vm_type_key d) (get_topology_zone_key d),
  str_eq_refl (get_topology_zone_key d),
  str_eq_refl (get_topology_vm_type_key d),
  str_eq_refl basic_vm_name,
)

pub get_volume_topology_one :
    (d : DiskDriver) (v : ZecVolume)
    → is_valid v.type ≡ true
    → get_volume_topology d v ≡ segments_of d v.zone basic_vm_type ∷ []
unfolding get_volume_topology is_valid volume_type_attach_constraint volume_type_name
get_volume_topology_one d v h = ground (arith, h)

-- A round trip: a volume of a valid type is reported with one topology, and in whatever order PickTopology
-- visits its entries, as the first of the preferred topologies, or of the requisite ones where none is
-- preferred, it picks the zone of the volume and the VM type.
pub pick_topology-get_volume_topology :
    (d : DiskDriver) (v : ZecVolume) (s : Segments) (more requisite : List Segments)
    → is_valid v.type ≡ true
    → Visits (segments_of d v.zone basic_vm_type) s
    → (get_volume_topology d v ≡ segments_of d v.zone basic_vm_type ∷ [])
      × (pick_topology d (some (record { requisite = requisite; preferred = s ∷ more }))
          ≡ ok (some (new_topology v.zone basic_vm_type)))
      × (pick_topology d (some (record { requisite = s ∷ more; preferred = [] }))
          ≡ ok (some (new_topology v.zone basic_vm_type)))
unfolding pick_topology pick_from
pick_topology-get_volume_topology d v s more requisite h r =
    let picked = pick_first-Visits d _ [] more r (pick_first-segments_of d v.zone []) in
    (get_volume_topology_one d v h, picked, picked)

-- If a volume is reported with a topology among others, and proto.Equal holds of that topology
-- and itself, then the volume passes IsValidTopology for every requirement that has the topology
-- among its requisite ones.
pub get_volume_topology_valid :
    (proto_equal : Segments → Segments → Bool) (d : DiskDriver) (v : ZecVolume) (t : Segments)
    (before after others more preferred : List Segments)
    → get_volume_topology d v ≡ others ++ t ∷ more
    → proto_equal t t ≡ true
    → is_valid_topology proto_equal d v
        (some (record { requisite = before ++ t ∷ after; preferred = preferred }))
      ≡ true
unfolding is_valid_topology
get_volume_topology_valid proto_equal d v t before after others more preferred own same =
    let here : any (λ u. proto_equal t u) (get_volume_topology d v) ≡ true =
      ap (any (λ u. proto_equal t u)) own ∙ any-middle (λ u. proto_equal t u) others t more same in
    elim before
      as (λ k.
        is_valid_topology proto_equal d v
          (some (record { requisite = k ++ t ∷ after; preferred = preferred }))
        ≡ true) [
          | [] ↦
              any-middle (λ q. any (λ u. proto_equal q u) (get_volume_topology d v)) [] t after here
          | b ∷ bs ↦
              any-middle (λ q. any (λ u. proto_equal q u) (get_volume_topology d v)) (b ∷ bs) t
                after here
        ]
