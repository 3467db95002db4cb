-- ===== src/Rpc/Placement/Visits.antt =====
-- The orders in which Go may visit the map of a topology, and that PickTopology picks the same in each.
use zenlayer_cloud_csi_drive.Prelude.{
  ◌≡◌, refl, ap, ◌∙◌, sym, false, List, ◌∷◌, some, arith, Text, str_eq, str_eq_iff, ◌⊎◌, inl, inr,
  Bool-cases, Option-cases,
}
use zenlayer_cloud_csi_drive.Prelude.Result.{ok, >>=-eq-ok}
use zenlayer_cloud_csi_drive.Driver.VolumeType.{VmType, vm_type_value}
use zenlayer_cloud_csi_drive.Driver.Capability.{
  DiskDriver, get_topology_vm_type_key, get_topology_zone_key,
}
use zenlayer_cloud_csi_drive.Driver.Topology.{Topology, empty_topology, set_vm_type, set_zone}
use zenlayer_cloud_csi_drive.Rpc.Placement.{Segments, read_segment, read_segments, pick_first}

-- The same entries, visited in another order; entries that pass each other have different keys, as in
-- a map they do.
pub data Visits : Segments → Segments → Type 0 where
  same : {l : Segments} → Visits l l
  keep : {l m : Segments} (e : Text × Text) → Visits l m → Visits (e ∷ l) (e ∷ m)
  swap :
      {l : Segments} (k v j w : Text)
      → str_eq k j ≡ false
      → Visits ((k, v) ∷ (j, w) ∷ l) ((j, w) ∷ (k, v) ∷ l)
  both : {l m n : Segments} → Visits l m → Visits m n → Visits l n

-- An entry that PickTopology reads: a zone, or a type of VM.
abbrev Reads : DiskDriver → Text → Text → Type 0
Reads d k v =
    (k ≡ get_topology_zone_key d)
    ⊎ ((str_eq k (get_topology_zone_key d) ≡ false)
        × (k ≡ get_topology_vm_type_key d)
        × (a : VmType) × (vm_type_value v ≡ some a))

abbrev effect : (d : DiskDriver) (k v : Text) → Reads d k v → Topology → Topology
effect d k v (inl e) t = set_zone v t
effect d k v (inr (n, e, a, g)) t = set_vm_type a t

read_segment-eq-ok :
    (d : DiskDriver) (t u : Topology) (k v : Text)
    → read_segment d t (k, v) ≡ ok u
    → (r : Reads d k v) × (u ≡ effect d k v r t)
unfolding read_segment
read_segment-eq-ok d t u k v h = elim (Bool-cases (str_eq k (get_topology_zone_key d))) [
  | inl z ↦ (inl ((str_eq_iff k (get_topology_zone_key d)).0 z), ground (arith, h, z))
  | inr n ↦ elim (Bool-cases (str_eq k (get_topology_vm_type_key d))) [
    | inr m ↦ absurd (ground (arith, h, n, m))
    | inl y ↦ elim (Option-cases (vm_type_value v)) [
      | inl g ↦ absurd (ground (arith, h, n, y, g))
      | inr (a, g) ↦ (
        inr (n, (str_eq_iff k (get_topology_vm_type_key d)).0 y, a, g),
        ground (arith, h, n, y, g),
      )
    ]
  ]
]

effect-read_segment :
    (d : DiskDriver) (t : Topology) (k v : Text) (r : Reads d k v)
    → read_segment d t (k, v) ≡ ok (effect d k v r t)
unfolding read_segment
effect-read_segment d t k v (inl e) =
    let z = (str_eq_iff k (get_topology_zone_key d)).1 e in rw z refl
effect-read_segment d t k v (inr (n, e, a, g)) =
    let y = (str_eq_iff k (get_topology_vm_type_key d)).1 e in rw (n, y, g) refl

effect_comm :
    (d : DiskDriver) (t : Topology) (k v j w : Text) (r : Reads d k v) (q : Reads d j w)
    → str_eq k j ≡ false
    → effect d j w q (effect d k v r t) ≡ effect d k v r (effect d j w q t)
unfolding set_zone set_vm_type
effect_comm d t k v j w (inl e) (inl e') apart =
    absurd (ground (arith, apart, str_eq_iff k j, e, e'))
effect_comm d t k v j w (inl e) (inr q) apart = refl
effect_comm d t k v j w (inr r) (inl e') apart = refl
effect_comm d t k v j w (inr (n, e, a, g)) (inr (n', e', a', g')) apart =
    absurd (ground (arith, apart, str_eq_iff k j, e, e'))

read_segment_comm :
    (d : DiskDriver) (t u t' : Topology) (k v j w : Text)
    → str_eq k j ≡ false
    → read_segment d t (k, v) ≡ ok u
    → read_segment d u (j, w) ≡ ok t'
    → (x : Topology) × (read_segment d t (j, w) ≡ ok x) × (read_segment d x (k, v) ≡ ok t')
read_segment_comm d t u t' k v j w apart h h' =
    let (r, e) = read_segment-eq-ok d t u k v h in
    let (q, e') = read_segment-eq-ok d u t' j w h' in
    (
      effect d j w q t,
      effect-read_segment d t j w q,
      effect-read_segment d (effect d j w q t) k v r
          ∙ ap (λ y. ok y) (sym (e' ∙ ap (effect d j w q) e ∙ effect_comm d t k v j w r q apart)),
    )

pub read_segments-Visits :
    {l m : Segments} (d : DiskDriver) (t u : Topology)
    → Visits l m
    → read_segments d t l ≡ ok u
    → read_segments d t m ≡ ok u
unfolding read_segments
read_segments-Visits d t u same h = h
read_segments-Visits d t u (keep e r) h =
    let (x, first, rest) = >>=-eq-ok (read_segment d t e) _ h in
    rw first (read_segments-Visits d x u r rest)
read_segments-Visits d t u (swap {l} k v j w apart) h =
    let (x, first, rest) = >>=-eq-ok (read_segment d t (k, v)) _ h in
    let (y, second, last) = >>=-eq-ok (read_segment d x (j, w)) _ rest in
    let (z, first', second') = read_segment_comm d t x y k v j w apart first second in
    rw (first', second') last
read_segments-Visits d t u (both r r') h =
    read_segments-Visits d t u r' (read_segments-Visits d t u r h)

-- The first topology, be it a preferred or a requisite one, may be visited in any order.
pub pick_first-Visits :
    {l m : Segments} (d : DiskDriver) (t : Topology) (ls ms : List Segments)
    → Visits l m
    → pick_first d (l ∷ ls) ≡ ok (some t)
    → pick_first d (m ∷ ms) ≡ ok (some t)
unfolding pick_first
pick_first-Visits {l} d t ls ms r h =
    let (x, read, last) = >>=-eq-ok (read_segments d empty_topology l) _ h in
    rw (read_segments-Visits d empty_topology x r read) last
