-- ===== src/Rpc/Controller/Create.antt =====
-- CreateVolume of pkg/disk/rpcserver/controllerserver.go.
pub mod Laws
pub mod Quiet
pub mod Settled
pub mod Search
pub mod Source
pub mod Again
pub mod Placeable
use zenlayer_cloud_csi_drive.Prelude.{
  Bool, true, false, not, List, [], ◌∷◌, ◌&&◌, Option, none, some, Text, is_empty, leb, length,
  if◌then◌else◌, ℤ, pos, eqb_ℤ,
}
use zenlayer_cloud_csi_drive.Prelude.Result.{Result, ok, err}
use zenlayer_cloud_csi_drive.Common.Calculator.{
  CapacityRange, RangeResult, bytes, refused, gib_to_byte, byte_ceil_to_gib,
  is_valid_capacity_bytes,
}
use zenlayer_cloud_csi_drive.Driver.VolumeType.{basic_vm_type, type_to_string}
use zenlayer_cloud_csi_drive.Driver.Capability.{
  VolumeCapability, create_delete_snapshot, create_delete_volume,
  validate_plugin_capability_service, validate_volume_capabilities,
  volume_accessibility_constraints,
}
use zenlayer_cloud_csi_drive.Driver.Topology.{Topology, new_topology}
use zenlayer_cloud_csi_drive.Driver.StorageClass.{ZecStorageClass, get_required_volume_size_byte}
use zenlayer_cloud_csi_drive.Driver.StorageClass.Parameters.{
  new_zec_storage_class_from_map, update_parms_zone,
}
use zenlayer_cloud_csi_drive.Cloud.Exec.{CloudError}
use zenlayer_cloud_csi_drive.Cloud.Types.{ZecVolume}
use zenlayer_cloud_csi_drive.Cloud.Lookup.{Lookup, absent, found, conflict, failed}
use zenlayer_cloud_csi_drive.Rpc.State.{
  Rpc, Code, respond, refuse, require, or_code, some_or, on_world, with_lock, ◌>>=◌, ◌>>◌,
  invalid_argument, not_found, internal, unimplemented, already_exists, aborted, out_of_range,
}
use zenlayer_cloud_csi_drive.Rpc.Placement.{
  Segments, TopologyRequirement, pick_topology, is_valid_topology, get_volume_topology,
}
use zenlayer_cloud_csi_drive.Rpc.Requests.{
  ContentSource, from_snapshot, from_volume, unset, CreateVolumeRequest, Volume,
}
use zenlayer_cloud_csi_drive.Rpc.Controller.Server.{ControllerServer, check_capability, gen_vol_id}

-- The checks on the capabilities of the request.
unfoldable pub capabilities_fit :
    {W : Type 0} → ControllerServer W → Option (List VolumeCapability) → Bool
capabilities_fit cs none = false
capabilities_fit cs (some caps) = validate_volume_capabilities cs.driver caps

abbrev pub is_some : {A : Type 0} → Option A → Bool
is_some none = false
is_some (some a) = true

-- What CreateVolume works out before it asks the cloud.
pub record Plan : Type 0 where
  pub class : ZecStorageClass
  pub topology : Topology
  pub parameters : List (Text × Text)
  pub size : ℤ

-- A number of bytes, or the refusal of the range.
abbrev pub size_of : RangeResult → Option ℤ
size_of (bytes n) = some n
size_of (refused e) = none

module _ {W : Type 0} (cs : ControllerServer W) where
  -- The topology that the requirements ask for; the parameters then name its zone.
  unfoldable pub picked :
      ZecStorageClass
      → List (Text × Text)
      → Option TopologyRequirement
      → Rpc W (Topology × List (Text × Text))
  picked sc params requirements = do
    picked ← or_code invalid_argument (pick_topology cs.driver requirements)
    topo ← some_or invalid_argument picked
    respond (topo, update_parms_zone topo.zone_id params)

  unfoldable pub place :
      ZecStorageClass
      → List (Text × Text)
      → Option TopologyRequirement
      → Rpc W (Topology × List (Text × Text))
  unfolding picked
  place sc params requirements =
      if is_some requirements
        && validate_plugin_capability_service cs.driver volume_accessibility_constraints
      then picked sc params requirements
      else respond (new_topology sc.zone_id basic_vm_type, params)

  unfoldable pub plan : CreateVolumeRequest → Rpc W Plan
  unfolding place
  plan req = do
    sc ← or_code invalid_argument (new_zec_storage_class_from_map cs.defaults req.parameters)
    placed ← place sc req.parameters req.accessibility_requirements
    size ← some_or out_of_range (size_of (get_required_volume_size_byte sc req.capacity_range))
    respond (record { class = sc; topology = placed.0; parameters = placed.1; size = size })

  unfoldable pub is_compatible : CreateVolumeRequest → Plan → ZecVolume → Bool
  is_compatible req p v =
      is_valid_capacity_bytes (gib_to_byte v.size) req.capacity_range
      && is_valid_topology cs.proto_equal cs.driver v req.accessibility_requirements
      && eqb_ℤ v.type p.class.disk_type

  -- A volume of the name that is there already.
  unfoldable pub reuse : CreateVolumeRequest → Plan → ZecVolume → Rpc W Volume
  unfolding is_compatible
  reuse req p v = do
    require (is_compatible req p v) already_exists
    id ← some_or aborted (gen_vol_id v)
    respond (record {
      volume_id = id;
      capacity_bytes = gib_to_byte v.size;
      volume_context = p.parameters;
      content_source = req.content_source;
      accessible_topology = get_volume_topology cs.driver v;
    })

  -- The response for a volume that was just created, which is looked up first.
  unfoldable pub created : Plan → Option ContentSource → Text → Rpc W Volume
  created p source new_id = do
    looked_up ← on_world internal (cs.cloud.find_volume new_id)
    v ← some_or aborted looked_up
    id ← some_or aborted (gen_vol_id v)
    respond (record {
      volume_id = id;
      capacity_bytes = gib_to_byte (byte_ceil_to_gib p.size);
      volume_context = p.parameters;
      content_source = source;
      accessible_topology = get_volume_topology cs.driver v;
    })

  unfoldable pub create_empty : CreateVolumeRequest → Plan → Rpc W Volume
  unfolding created
  create_empty req p = do
    new_id ← on_world internal (
        cs.cloud.create_volume req.name (byte_ceil_to_gib p.size) (type_to_string p.class.disk_type)
          p.topology.zone_id p.class.place_group_id p.class.burst_enable)
    created p none new_id

  -- With the lock on the snapshot held.
  unfoldable pub restore : CreateVolumeRequest → Plan → Text → Rpc W Volume
  unfolding created
  restore req p snap = do
    looked_up ← on_world internal (cs.cloud.find_snapshot snap)
    info ← some_or not_found looked_up
    require info.disk_ability internal
    new_id ← on_world internal (
        cs.cloud.create_volume_from_snapshot req.name (byte_ceil_to_gib p.size)
          (type_to_string p.class.disk_type) p.topology.zone_id p.class.place_group_id snap
          p.class.burst_enable)
    created p (some (from_snapshot snap)) new_id

  unfoldable pub create_from_snapshot : CreateVolumeRequest → Plan → Text → Rpc W Volume
  unfolding check_capability with_lock restore
  create_from_snapshot req p snap = do
    check_capability cs create_delete_snapshot
    require (not (is_empty snap)) invalid_argument
    with_lock snap (restore req p snap)

  unfoldable pub make : CreateVolumeRequest → Plan → Option ContentSource → Rpc W Volume
  unfolding create_empty create_from_snapshot
  make req p none = create_empty req p
  make req p (some (from_snapshot snap)) = create_from_snapshot req p snap
  make req p (some (from_volume vol)) = refuse unimplemented
  make req p (some unset) = refuse internal

  -- By what the lookup of the name has found.
  unfoldable pub settle : CreateVolumeRequest → Plan → Lookup ZecVolume → Rpc W Volume
  unfolding reuse make
  settle req p absent = make req p req.content_source
  settle req p (found v) = reuse req p v
  settle req p (conflict v) = refuse already_exists
  settle req p (failed e) = refuse internal

  -- FindVolumeByName, on the server's world.
  unfoldable pub find_by_name : CreateVolumeRequest → Plan → Rpc W (Lookup ZecVolume)
  find_by_name req p s =
      let r =
        cs.cloud.find_volume_by_name req.name p.topology.zone_id (byte_ceil_to_gib p.size)
          (type_to_string p.class.disk_type) p.class.place_group_id s.world in
      (ok r.0, record s { world = r.1 })

  -- With the lock on the name held.
  unfoldable pub provision : CreateVolumeRequest → Rpc W Volume
  unfolding plan find_by_name settle
  provision req = do p ← plan req; existing ← find_by_name req p; settle req p existing

  unfoldable pub create_volume : CreateVolumeRequest → Rpc W Volume
  unfolding check_capability capabilities_fit with_lock provision
  create_volume req = do
    check_capability cs create_delete_volume
    require (capabilities_fit cs req.volume_capabilities) invalid_argument
    require (not (is_empty req.name)) invalid_argument
    require (leb (length req.name) 64) invalid_argument
    with_lock req.name (provision req)
