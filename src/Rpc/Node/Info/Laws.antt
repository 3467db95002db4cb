-- ===== src/Rpc/Node/Info/Laws.antt =====
-- What the node tells of itself and of its volumes.
use zenlayer_cloud_csi_drive.Prelude.{
  ℕ, ◌≡◌, ◌↔◌, ◌≤◌, ◌<◌, ◌+◌, ◌*◌, ◌^◌, refl, subst, true, List, [], ◌∷◌, some, arith, Text, pos,
}
use zenlayer_cloud_csi_drive.Prelude.Result.{ok}
use zenlayer_cloud_csi_drive.Driver.VolumeType.{basic_vm_type, vm_type_name, is_valid}
use zenlayer_cloud_csi_drive.Driver.Capability.{DiskDriver}
use zenlayer_cloud_csi_drive.Driver.Topology.{new_topology}
use zenlayer_cloud_csi_drive.Cloud.Types.{ZecVolume}
use zenlayer_cloud_csi_drive.Rpc.State.{Server}
use zenlayer_cloud_csi_drive.Rpc.Placement.{
  Segments, segments_of, get_volume_topology, pick_topology, pick_from,
}
use zenlayer_cloud_csi_drive.Rpc.Placement.Visits.{Visits, same, pick_first-Visits}
use zenlayer_cloud_csi_drive.Rpc.Placement.Laws.{pick_first-segments_of, get_volume_topology_one}
use zenlayer_cloud_csi_drive.Rpc.Node.Requests.{NodeInfo}
use zenlayer_cloud_csi_drive.Rpc.Node.Server.{NodeServer}
use zenlayer_cloud_csi_drive.Rpc.Node.Info.{size_of_blocks, usage_of, node_get_info}

-- The answer of NodeGetInfo.
abbrev pub info_of : DiskDriver → NodeInfo
info_of d = record {
  node_id = d.node_id;
  max_volumes_per_node = d.max_volume;
  accessible_topology = segments_of d d.zone_id basic_vm_type;
}

node_get_info-answers :
    {W : Type 0} (ns : NodeServer W) (s : Server W)
    → node_get_info ns s ≡ (ok (info_of ns.driver), s)
unfolding node_get_info segments_of vm_type_name
node_get_info-answers ns s = refl

-- Segments of different zones are no orders of the same map: PickTopology tells them apart.
zone_injective :
    (d : DiskDriver) (a b : Text)
    → Visits (segments_of d a basic_vm_type) (segments_of d b basic_vm_type)
    → a ≡ b
unfolding new_topology
zone_injective d a b r =
    let picked = pick_first-Visits d _ [] [] r (pick_first-segments_of d a []) in
    ground (arith, picked, pick_first-segments_of d b [])

-- The node and the controller agree on where a disk can be used. NodeGetInfo answers with the
-- identifier of the VM, its limit and a topology. A request that prefers this topology is placed in
-- the zone of the node, on its type of VM, in whatever order the entries are visited; and a disk of a
-- valid type is reported with one topology, which has the entries of that of the node exactly if the
-- disk is in the zone of the node.
pub node_get_info-placement :
    {W : Type 0} (ns : NodeServer W) (s : Server W) (v : ZecVolume) (asked : Segments)
    (more requisite : List Segments)
    → is_valid v.type ≡ true
    → Visits (info_of ns.driver).accessible_topology asked
    → (own : Segments) × (node_get_info ns s ≡ (ok (info_of ns.driver), s))
      × (pick_topology ns.driver (some (record { requisite = requisite; preferred = asked ∷ more }))
          ≡ ok (some (new_topology ns.driver.zone_id basic_vm_type)))
      × (get_volume_topology ns.driver v ≡ own ∷ [])
      × (Visits own (info_of ns.driver).accessible_topology ↔ (v.zone ≡ ns.driver.zone_id))
unfolding pick_topology pick_from
node_get_info-placement ns s v asked more requisite valid r =
    let d = ns.driver in
    (
      segments_of d v.zone basic_vm_type,
      node_get_info-answers ns s,
      pick_first-Visits d _ [] more r (pick_first-segments_of d d.zone_id []),
      get_volume_topology_one d v valid,
      (
        zone_injective d v.zone d.zone_id,
        λ zone.
            subst (λ z. Visits (segments_of d v.zone basic_vm_type) (segments_of d z basic_vm_type))
              zone same,
      ),
    )

size_of_blocks_exact :
    (b n : ℕ) → n * b < 2 ^ 63 → b < 2 ^ 64 → size_of_blocks (pos b) n ≡ pos (n * b)
unfolding size_of_blocks
size_of_blocks_exact b n small fits = ground arith

-- The statistics of a file system are exact where they fit: for a file system of a available, r
-- reserved and u used blocks of b bytes, less than 2 ^ 63 bytes in all, NodeGetVolumeStats reports
-- (a + r + u) * b bytes in total, a * b available and u * b used; no multiplication and no
-- subtraction wraps around, and what is used and what is available do not pass the total.
pub usage_of_exact :
    (a r u b : ℕ)
    → (a + r + u) * b < 2 ^ 63
    → b < 2 ^ 63
    → (usage_of (record { blocks = a + r + u; bfree = a + r; bavail = a; bsize = pos b })
        ≡ record { available = pos (a * b); total = pos ((a + r + u) * b); used = pos (u * b) })
      × (a * b + u * b ≤ (a + r + u) * b)
unfolding usage_of
usage_of_exact a r u b small fits =
    let one : (a + r + u) * b ≡ a * b + r * b + u * b = grind arith in
    let two : (a + r) * b ≡ a * b + r * b = grind arith in
    let total = size_of_blocks_exact b (a + r + u) small (omega arith) in
    let free = size_of_blocks_exact b (a + r) (omega arith) (omega arith) in
    let available = size_of_blocks_exact b a (omega arith) (omega arith) in
    (ground (arith, total, free, available), omega arith)
