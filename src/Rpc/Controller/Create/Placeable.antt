-- ===== src/Rpc/Controller/Create/Placeable.antt =====
-- Requests whose topologies fit the zone that is planned for them.
use zenlayer_cloud_csi_drive.Prelude.{List, [], ◌∷◌, ◌++◌}
use zenlayer_cloud_csi_drive.Driver.Topology.{new_topology}
use zenlayer_cloud_csi_drive.Driver.VolumeType.{basic_vm_type}
use zenlayer_cloud_csi_drive.Driver.Capability.{
  DiskDriver, volume_accessibility_constraints, validate_plugin_capability_service,
}
use zenlayer_cloud_csi_drive.Rpc.Placement.{Segments, segments_of, pick_topology, pick_from}
use zenlayer_cloud_csi_drive.Rpc.Placement.Laws.{
  pick_first-segments_of, get_volume_topology_one, get_volume_topology_valid,
}
use zenlayer_cloud_csi_drive.Rpc.Controller.Create.{is_some}
use zenlayer_cloud_csi_drive.Prelude.{◌≡◌, refl, ap, ◌∙◌, some, none, arith, Text}
use zenlayer_cloud_csi_drive.Prelude.Result.{ok}
use zenlayer_cloud_csi_drive.Rpc.State.{Server}
use zenlayer_cloud_csi_drive.Rpc.Requests.{CreateVolumeRequest}
use zenlayer_cloud_csi_drive.Rpc.Controller.Server.{ControllerServer}
use zenlayer_cloud_csi_drive.Rpc.Controller.Create.{Plan, plan, place, picked}
use zenlayer_cloud_csi_drive.Prelude.{true}
use zenlayer_cloud_csi_drive.Rpc.Placement.{is_valid_topology}
use zenlayer_cloud_csi_drive.Rpc.Controller.Create.Settled.{IsPlaceable}

-- A request without topologies.
pub no_topology-IsPlaceable :
    {W : Type 0} (cs : ControllerServer W) (req : CreateVolumeRequest)
    → req.accessibility_requirements ≡ none
    → IsPlaceable cs req
unfolding is_valid_topology
no_topology-IsPlaceable cs req e = record { at = λ s p x made here valid. rw e refl }

picked_first :
    (d : DiskDriver) (zone : Text) (requisite more : List Segments)
    → pick_topology d (
        some
          (record { requisite = requisite; preferred = segments_of d zone basic_vm_type ∷ more }))
      ≡ ok (some (new_topology zone basic_vm_type))
unfolding pick_topology pick_from
picked_first d zone requisite more = pick_first-segments_of d zone more

-- The zone that is picked is the zone that is planned.
plan-zone :
    {W : Type 0} (cs : ControllerServer W) (req : CreateVolumeRequest) (s : Server W) (p : Plan)
    (zone : Text)
    → is_some req.accessibility_requirements ≡ true
    → validate_plugin_capability_service cs.driver volume_accessibility_constraints ≡ true
    → pick_topology cs.driver req.accessibility_requirements
      ≡ ok (some (new_topology zone basic_vm_type))
    → (plan cs req s).0 ≡ ok p
    → p.topology.zone_id ≡ zone
unfolding plan place picked new_topology
plan-zone cs req s p zone asked able picked_ made = ground (arith, asked, able, picked_, made)

-- A request whose first preferred topology is one that the driver reports, and is among the requisite
-- ones.
pub reported-IsPlaceable :
    {W : Type 0} (cs : ControllerServer W) (req : CreateVolumeRequest) (zone : Text)
    (before after more : List Segments)
    → req.accessibility_requirements
      ≡ some (record {
        requisite = before ++ segments_of cs.driver zone basic_vm_type ∷ after;
        preferred = segments_of cs.driver zone basic_vm_type ∷ more;
      })
    → validate_plugin_capability_service cs.driver volume_accessibility_constraints ≡ true
    → cs.proto_equal
        (segments_of cs.driver zone basic_vm_type)
        (segments_of cs.driver zone basic_vm_type)
      ≡ true
    → IsPlaceable cs req
reported-IsPlaceable cs req zone before after more e able same = record {
  at = λ s p x made here valid.
      let zone_ =
        here
        ∙ plan-zone cs req s p zone (ap is_some e) able
            (ap (pick_topology cs.driver) e ∙ picked_first cs.driver zone _ more) made in
      let own =
        get_volume_topology_one cs.driver x valid
        ∙ ap (λ z. segments_of cs.driver z basic_vm_type ∷ []) zone_ in
      ap (is_valid_topology cs.proto_equal cs.driver x) e
      ∙ get_volume_topology_valid cs.proto_equal cs.driver x
          (segments_of cs.driver zone basic_vm_type) before after [] []
          (segments_of cs.driver zone basic_vm_type ∷ more) own same;
}
