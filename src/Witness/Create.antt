-- ===== src/Witness/Create.antt =====
-- Creating volumes, on the cloud with one disk.
use zenlayer_cloud_csi_drive.Prelude.{
  ◌≡◌, ◌⊎◌, ◌*◌, refl, false, [], ◌∷◌, ◌≤ℤ◌, none, some, arith, codes, str_eq, is_empty, pos,
  length, ◌==◌,
}
use zenlayer_cloud_csi_drive.Prelude.Result.{ok, err}
use zenlayer_cloud_csi_drive.Common.Calculator.{gib}
use zenlayer_cloud_csi_drive.Driver.Capability.{validate_volume_capabilities}
use zenlayer_cloud_csi_drive.Driver.StorageClass.Sizes.{range}
use zenlayer_cloud_csi_drive.Driver.StorageClass.{file_system_ext4}
use zenlayer_cloud_csi_drive.Cloud.Types.{zec_volume_of}
use zenlayer_cloud_csi_drive.Driver.VolumeType.{basic_vm_type, type_to_string}
use zenlayer_cloud_csi_drive.Driver.StorageClass.{set_type_size, set_fs_type}
use zenlayer_cloud_csi_drive.Driver.StorageClass.Parameters.{
  atoi, equal_fold, new_zec_storage_class_from_map, read_parameter, read_parameters, with_defaults,
  class_of_settings, chosen_type, update_parms_zone,
}
use zenlayer_cloud_csi_drive.Cloud.Lookup.{found, find_volume_by_name}
use zenlayer_cloud_csi_drive.Driver.Topology.{new_topology}
use zenlayer_cloud_csi_drive.Rpc.Placement.{get_volume_topology}
use zenlayer_cloud_csi_drive.Rpc.Requests.{CreateVolumeRequest, Volume, from_snapshot}
use zenlayer_cloud_csi_drive.Rpc.Controller.Server as Server
use zenlayer_cloud_csi_drive.Rpc.Controller.Server.{ControllerServer, supports_all}
use zenlayer_cloud_csi_drive.Rpc.Controller.Create.{Plan, plan, place, create_volume}
use zenlayer_cloud_csi_drive.Rpc.Controller.Create.Quiet.{IsTaken, create_volume_quiet}
use zenlayer_cloud_csi_drive.Rpc.State as RS
use zenlayer_cloud_csi_drive.Rpc.Controller.Create.Laws.{create_volume-InRange}
use zenlayer_cloud_csi_drive.Witness.Cloud.{World, zone, group, free_disk}
use zenlayer_cloud_csi_drive.Common.Lock.{delete, has, release, try_acquire}
use zenlayer_cloud_csi_drive.Cloud.Disks.{attach_volume, detach_volume, find_volume, resize_volume}
use zenlayer_cloud_csi_drive.Driver.StorageClass.{
  get_required_volume_size_byte, new_default_zec_storage_class_from_type,
}
use zenlayer_cloud_csi_drive.Driver.VolumeType.{string_to_type}
use zenlayer_cloud_csi_drive.Common.Calculator.{
  byte_ceil_to_gib, gib_to_byte, is_valid_capacity_bytes,
}
use zenlayer_cloud_csi_drive.Cloud.Disks as Disks
use zenlayer_cloud_csi_drive.Driver.Capability.{
  validate_plugin_capability_service, get_topology_zone_key,
}
use zenlayer_cloud_csi_drive.Rpc.Placement.{Segments, segments_of, pick_topology, is_valid_topology}
use zenlayer_cloud_csi_drive.Rpc.Controller.Create.Source.{FindsOne, create_source_pending}
use zenlayer_cloud_csi_drive.Rpc.Controller.Create.Again.{create_volume_again}
use zenlayer_cloud_csi_drive.Rpc.Controller.Create.Placeable.{reported-IsPlaceable}
use zenlayer_cloud_csi_drive.Witness.Names.{all_listed, names}
use zenlayer_cloud_csi_drive.Cloud.Manager.Listing.{IsUnused}
use zenlayer_cloud_csi_drive.Witness.Setup.{driver, server, start, volume_name, writer}

abbrev create_request : CreateVolumeRequest
create_request = record {
  name = codes "pvc-1";
  capacity_range = some (range (30 * gib) (60 * gib));
  volume_capabilities = some (writer ∷ []);
  parameters = [];
  content_source = none;
  accessibility_requirements = none;
}

abbrev created_disk : World
created_disk = some (record free_disk {
  disk_size = some (pos 30);
  disk_category = some (codes "Standard NVMe SSD");
})

abbrev new_volume : Volume
new_volume = record {
  volume_id = volume_name;
  capacity_bytes = pos (30 * gib);
  volume_context = [];
  content_source = none;
  accessible_topology = get_volume_topology driver (zec_volume_of free_disk);
}

created : create_volume server create_request (start none) ≡ (ok new_volume, start created_disk)
unfolding create_volume is_empty str_eq zec_volume_of validate_volume_capabilities try_acquire has
    new_zec_storage_class_from_map release read_parameters delete with_defaults class_of_settings
    new_default_zec_storage_class_from_type chosen_type set_type_size set_fs_type
    get_required_volume_size_byte gib_to_byte byte_ceil_to_gib find_volume_by_name
    Disks.create_volume type_to_string find_volume get_volume_topology new_topology
    Server.gen_vol_id string_to_type
created = refl

create_volume-InRange_example :
    ((30 * gib ≡ 0) ⊎ (pos (30 * gib) ≤ℤ pos (30 * gib)))
    × ((60 * gib ≡ 0) ⊎ (pos (30 * gib) ≤ℤ pos (60 * gib)))
create_volume-InRange_example =
    create_volume-InRange server create_request (start none) (start created_disk) new_volume
      (30 * gib) (60 * gib) refl (omega arith) created

-- The size of the disk that is there.
abbrev same_request : CreateVolumeRequest
same_request = record create_request {
  capacity_range = some (range (40 * gib) (60 * gib));
  parameters = (codes "type", codes "1") ∷ [];
}

abbrev same_plan : Plan
same_plan = record {
  class = record {
    disk_type = pos 1;
    max_size = pos (32768 * gib);
    min_size = pos (20 * gib);
    fs_type = file_system_ext4;
    zone_id = zone;
    place_group_id = group;
    burst_enable = false;
  };
  topology = new_topology zone basic_vm_type;
  parameters = same_request.parameters;
  size = pos (40 * gib);
}

same_plan_made : (s : RS.Server World) → (plan server same_request s).0 ≡ ok same_plan
unfolding plan place is_empty str_eq new_zec_storage_class_from_map read_parameters with_defaults
    class_of_settings new_default_zec_storage_class_from_type chosen_type set_type_size set_fs_type
    get_required_volume_size_byte gib_to_byte new_topology byte_ceil_to_gib read_parameter
    string_to_type equal_fold atoi
same_plan_made s = refl

-- The lookup of that plan finds the disk.
same_found :
    (p : Plan)
    → p ≡ same_plan
    → (server.cloud.find_volume_by_name same_request.name p.topology.zone_id
        (byte_ceil_to_gib p.size)
        (type_to_string p.class.disk_type)
        p.class.place_group_id
        (some free_disk)).0
      ≡ found (zec_volume_of free_disk)
unfolding find_volume_by_name is_empty str_eq zec_volume_of string_to_type type_to_string
    byte_ceil_to_gib new_topology
same_found p e = rw e refl

same-IsTaken : IsTaken server same_request (some free_disk)
unfolding find_volume_by_name is_empty str_eq zec_volume_of string_to_type
same-IsTaken = record {
  quiet = λ s p h. refl;
  told = λ s p h. rw (same_found p (ground (arith, h, same_plan_made s))) refl;
}

create_volume_quiet_example :
    (create_volume server same_request (start (some free_disk))).1.world ≡ some free_disk
create_volume_quiet_example =
    create_volume_quiet server same_request (start (some free_disk)) same-IsTaken

-- A request with a topology as the driver reports it.
abbrev reported : Segments
reported = segments_of driver zone basic_vm_type

abbrev reported_request : CreateVolumeRequest
reported_request = record create_request {
  accessibility_requirements =
      some (record { requisite = reported ∷ []; preferred = reported ∷ [] });
}

created_reported :
    create_volume server reported_request (start none) ≡ (ok new_volume, start created_disk)
unfolding create_volume is_empty str_eq zec_volume_of validate_volume_capabilities try_acquire has
    new_zec_storage_class_from_map release read_parameters delete with_defaults class_of_settings
    new_default_zec_storage_class_from_type chosen_type set_type_size set_fs_type
    get_required_volume_size_byte gib_to_byte byte_ceil_to_gib find_volume_by_name
    Disks.create_volume type_to_string find_volume get_volume_topology new_topology
    Server.gen_vol_id string_to_type pick_topology segments_of validate_plugin_capability_service
    update_parms_zone
created_reported = refl

create_volume_again_example :
    create_volume server reported_request (start created_disk) ≡ (ok new_volume, start created_disk)
unfolding validate_plugin_capability_service
create_volume_again_example =
    create_volume_again server reported_request (IsUnused all_listed) (start none)
      (start created_disk) new_volume (30 * gib) (60 * gib) names refl (omega arith)
      (reported-IsPlaceable server reported_request zone [] [] [] refl refl refl) created_reported

-- A request whose topologies name only the zone is answered once, and refused when it is repeated.
abbrev zone_only : Segments
zone_only = (get_topology_zone_key driver, zone) ∷ []

-- proto.Equal is taken to tell topologies with different numbers of keys apart.
abbrev strict_server : ControllerServer World
strict_server = record server { proto_equal = λ a b. length a == length b }

abbrev zone_request : CreateVolumeRequest
zone_request = record create_request {
  accessibility_requirements = some (record { requisite = zone_only ∷ []; preferred = [] });
}

zone_answered : (create_volume strict_server zone_request (start none)).0 ≡ ok new_volume
unfolding create_volume is_empty str_eq zec_volume_of validate_volume_capabilities try_acquire has
    new_zec_storage_class_from_map release read_parameters delete with_defaults class_of_settings
    new_default_zec_storage_class_from_type chosen_type set_type_size set_fs_type
    get_required_volume_size_byte gib_to_byte byte_ceil_to_gib find_volume_by_name
    Disks.create_volume type_to_string find_volume get_volume_topology new_topology
    Server.gen_vol_id string_to_type pick_topology segments_of validate_plugin_capability_service
    update_parms_zone is_valid_topology
zone_answered = refl

zone_repeated :
    (create_volume strict_server zone_request (start created_disk)).0 ≡ err RS.already_exists
unfolding create_volume is_empty str_eq zec_volume_of validate_volume_capabilities try_acquire has
    new_zec_storage_class_from_map release read_parameters delete with_defaults class_of_settings
    new_default_zec_storage_class_from_type chosen_type set_type_size set_fs_type
    get_required_volume_size_byte gib_to_byte byte_ceil_to_gib find_volume_by_name
    Disks.create_volume type_to_string find_volume get_volume_topology new_topology
    Server.gen_vol_id string_to_type pick_topology segments_of validate_plugin_capability_service
    update_parms_zone is_valid_topology is_valid_capacity_bytes
zone_repeated = refl

-- A snapshot that another request works on, and a name that is free.
abbrev source_request : CreateVolumeRequest
source_request = record create_request {
  content_source = some (from_snapshot (codes "5678901234567890123"));
}

abbrev waiting : RS.Server World
waiting = record { locks = record { locks = codes "5678901234567890123" ∷ [] }; world = none }

create_source_pending_example :
    ((create_volume server source_request waiting).1.world ≡ none)
    × ((v : Volume)
        → (create_volume server source_request waiting).0 ≡ ok v
        → FindsOne server source_request waiting)
unfolding find_volume_by_name has str_eq is_empty
create_source_pending_example =
    create_source_pending server source_request (codes "5678901234567890123") waiting refl refl
      (λ p h. refl)

-- The request is answered ABORTED, after the checks and the lookup.
source_aborted : create_volume server source_request waiting ≡ (err RS.aborted, waiting)
unfolding create_volume is_empty str_eq zec_volume_of validate_volume_capabilities try_acquire has
    new_zec_storage_class_from_map release read_parameters delete with_defaults class_of_settings
    new_default_zec_storage_class_from_type chosen_type set_type_size set_fs_type
    get_required_volume_size_byte gib_to_byte byte_ceil_to_gib find_volume_by_name type_to_string
    new_topology string_to_type
source_aborted = refl
