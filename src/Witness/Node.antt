-- ===== src/Witness/Node.antt =====
-- The node service over the host with one disk.
use zenlayer_cloud_csi_drive.Prelude.{
  ◌≡◌, ◌⊎◌, ◌↔◌, ◌*◌, refl, true, false, [], ◌∷◌, some, Text, codes, str_eq, is_empty, pos,
}
use zenlayer_cloud_csi_drive.Prelude.Result.{ok}
use zenlayer_cloud_csi_drive.Common.Lock.{new_resource_locks, has}
use zenlayer_cloud_csi_drive.Common.Calculator.{gib, bytes, get_request_size_bytes}
use zenlayer_cloud_csi_drive.Common.VolumeId.{parse_csi_vol_id}
use zenlayer_cloud_csi_drive.Common.Mount.Formats.{IsContent}
use zenlayer_cloud_csi_drive.Cloud.Types.{zec_volume_of}
use zenlayer_cloud_csi_drive.Driver.Capability.{
  VolumeCapability, MountVolume, mount, single_node_writer, is_block, validate_node_service_request,
  stage_unstage_volume,
}
use zenlayer_cloud_csi_drive.Driver.StorageClass.Sizes.{range}
use zenlayer_cloud_csi_drive.Driver.Topology.{new_topology}
use zenlayer_cloud_csi_drive.Driver.VolumeType.{basic_vm_type, is_valid}
use zenlayer_cloud_csi_drive.Rpc.State.{Server}
use zenlayer_cloud_csi_drive.Rpc.Placement.{get_volume_topology, pick_topology}
use zenlayer_cloud_csi_drive.Rpc.Node.Requests.{
  NodePublishRequest, NodeCleanupRequest, NodeStageRequest, NodeExpandRequest,
}
use zenlayer_cloud_csi_drive.Rpc.Node.Devices.{get_dev_path_by_serial}
use zenlayer_cloud_csi_drive.Rpc.Node.Devices.Laws.{
  get_dev_path_by_serial_lem, only_device, matching,
}
use zenlayer_cloud_csi_drive.Prelude.Lines.{split, newline, trim_space, has_prefix}
use zenlayer_cloud_csi_drive.Rpc.Node.Mounts.{not_mounted}
use zenlayer_cloud_csi_drive.Rpc.Node.Server.{
  NodeServer, add_mount_flags, cleanup_key, feat_mountopt_enable,
}
use zenlayer_cloud_csi_drive.Rpc.Node.Stage.{node_stage_volume, node_unstage_volume}
use zenlayer_cloud_csi_drive.Rpc.Node.Stage.Laws.{Staged, node_stage-Staged}
use zenlayer_cloud_csi_drive.Rpc.Node.Stage.Quiet.{node_stage_quiet}
use zenlayer_cloud_csi_drive.Rpc.Node.Stage.Devices.{node_stage_held}
use zenlayer_cloud_csi_drive.Rpc.Node.Publish.{
  bind_options, node_publish_volume, node_unpublish_volume,
}
use zenlayer_cloud_csi_drive.Rpc.Node.Publish.Modes.{pieces, read_only_after, said}
use zenlayer_cloud_csi_drive.Rpc.Node.Publish.Laws.{Published, node_publish-Published}
use zenlayer_cloud_csi_drive.Rpc.Node.Publish.Cleanup.{cleanup_any}
use zenlayer_cloud_csi_drive.Rpc.Node.Expand.{node_expand_volume}
use zenlayer_cloud_csi_drive.Rpc.Node.Expand.Laws.{Grown, node_expand-Grown}
use zenlayer_cloud_csi_drive.Rpc.Node.Info.{node_get_info}
use zenlayer_cloud_csi_drive.Rpc.Node.Info.Laws.{info_of, node_get_info-placement}
use zenlayer_cloud_csi_drive.Rpc.Placement.{Segments, segments_of}
use zenlayer_cloud_csi_drive.Rpc.Placement.Visits.{Visits, swap}
use zenlayer_cloud_csi_drive.Driver.Capability.{get_topology_vm_type_key, get_topology_zone_key}
use zenlayer_cloud_csi_drive.Driver.VolumeType.{basic_vm_name}
use zenlayer_cloud_csi_drive.Rpc.Node.Dispatch.{node_stage, node_unstage, serve_node}
use zenlayer_cloud_csi_drive.Rpc.Node.Dispatch.Locks.{serve_node-locks}
use zenlayer_cloud_csi_drive.Witness.Cloud.{disk_id, serial, free_disk}
use zenlayer_cloud_csi_drive.Witness.Setup.{driver, volume_name, named}
use zenlayer_cloud_csi_drive.Witness.Host.{
  HostWorld, vdb, names, file, simulated_host, format, MountedAt, simulated_host-TellsFormat,
  simulated_host-OthersKeepFormat, simulated_host-TellsMounts, blank, filled,
}
use zenlayer_cloud_csi_drive.Common.Lock.{delete, release, try_acquire}
use zenlayer_cloud_csi_drive.Rpc.Node.Devices.{
  create_target_mount_path_if_not_exists, device_path, has_serial, serial_path,
}
use zenlayer_cloud_csi_drive.Rpc.Node.Expand.{expand_file_system, expand_parsed}
use zenlayer_cloud_csi_drive.Driver.VolumeType.{string_to_type}

abbrev node_server : NodeServer HostWorld
node_server = record { driver = driver; host = simulated_host; feature_gates = [] }

abbrev begin : HostWorld → Server HostWorld
begin w = record { locks = new_resource_locks; world = w }

abbrev stage_path : Text
stage_path = codes "/stage"

abbrev target : Text
target = codes "/pod"

abbrev as_file_system : MountVolume
as_file_system = record { fs_type = []; mount_flags = [] }

abbrev file_system : VolumeCapability
file_system = record {
  access_mode = some single_node_writer;
  access_type = some (mount as_file_system);
}

abbrev stage_request : NodeStageRequest
stage_request = record {
  volume_id = volume_name;
  staging_target_path = stage_path;
  volume_capability = some file_system;
}

abbrev staged_world : HostWorld
staged_world = record {
  content = codes "ext4";
  mounted = some (stage_path, vdb, codes "defaults" ∷ []);
}

content : IsContent (format filled vdb)
unfolding str_eq is_empty
content = record { full = refl; known = refl }

staged : node_stage_volume node_server stage_request (begin blank) ≡ (ok tt, begin staged_world)
unfolding node_stage_volume is_empty parse_csi_vol_id try_acquire has str_eq release
    get_dev_path_by_serial delete has_prefix
staged = refl

node_stage-Staged_example :
    ((simulated_host.is_likely_not_mount_point stage_path blank).0 ≡ ok false)
    ⊎ Staged node_server MountedAt simulated_host-TellsMounts stage_path serial as_file_system
        (not_mounted simulated_host stage_path blank).1
        staged_world
node_stage-Staged_example =
    node_stage-Staged node_server MountedAt simulated_host-TellsMounts stage_request file_system
      as_file_system disk_id serial (begin blank) (begin staged_world) named refl refl staged

at_stage_path :
    simulated_host.is_likely_not_mount_point stage_path staged_world ≡ (ok false, staged_world)
unfolding str_eq
at_stage_path = refl

node_stage_quiet_example :
    (node_stage_volume node_server stage_request (begin staged_world)).1.world ≡ staged_world
node_stage_quiet_example =
    node_stage_quiet node_server stage_request (begin staged_world) at_stage_path

node_stage_held_example :
    format (node_stage_volume node_server stage_request (begin filled)).1.world vdb
    ≡ format filled vdb
node_stage_held_example =
    node_stage_held node_server format simulated_host-TellsFormat simulated_host-OthersKeepFormat
      vdb stage_request (begin filled) content

abbrev publish_request : NodePublishRequest
publish_request = record {
  volume_id = volume_name;
  staging_target_path = stage_path;
  target_path = target;
  volume_capability = some file_system;
  readonly = true;
}

abbrev published_world : HostWorld
published_world = record {
  content = codes "ext4";
  mounted = some (target, stage_path, codes "bind" ∷ codes "ro" ∷ []);
}

published :
    node_publish_volume node_server publish_request (begin staged_world)
    ≡ (ok tt, begin published_world)
unfolding node_publish_volume is_empty parse_csi_vol_id try_acquire has str_eq release
    create_target_mount_path_if_not_exists delete
published = refl

node_publish-Published_example :
    Published node_server MountedAt simulated_host-TellsMounts publish_request file_system serial
      staged_world published_world
node_publish-Published_example =
    node_publish-Published node_server MountedAt simulated_host-TellsMounts publish_request
      file_system disk_id serial (begin staged_world) (begin published_world) named refl published

-- An identifier that is not one of the driver.
abbrev foreign : NodeCleanupRequest
foreign = record { volume_id = codes "pv-1"; path = stage_path }

free : has (cleanup_key foreign.volume_id) [] ≡ false
unfolding has
free = refl

able : validate_node_service_request driver stage_unstage_volume ≡ true
unfolding validate_node_service_request
able = refl

named_foreign : (is_empty foreign.volume_id ≡ false) × (is_empty foreign.path ≡ false)
unfolding is_empty
named_foreign = (refl, refl)

cleaned : (simulated_host.cleanup_mount_point stage_path staged_world).1 ≡ filled
unfolding str_eq
cleaned = refl

cleanup_any_example :
    (node_unpublish_volume node_server foreign (begin staged_world)
      ≡ (ok tt, begin (simulated_host.cleanup_mount_point stage_path staged_world).1))
    × (node_unstage_volume node_server foreign (begin staged_world)
        ≡ (ok tt, begin (simulated_host.cleanup_mount_point stage_path staged_world).1))
cleanup_any_example =
    cleanup_any node_server foreign (begin staged_world) named_foreign.0 named_foreign.1 free able

serve_node-locks_example :
    (serve_node node_server
      (node_stage stage_request ∷ node_unstage foreign ∷ [])
      (begin blank)).1.locks
    ≡ new_resource_locks
serve_node-locks_example =
    serve_node-locks node_server (node_stage stage_request ∷ node_unstage foreign ∷ [])
      (begin blank)

listed_names :
    simulated_host.run
      (codes "lsblk")
      (codes "-d" ∷ codes "-o" ∷ codes "NAME" ∷ codes "-n" ∷ codes "-i" ∷ [])
      blank
    ≡ (ok names, blank)
unfolding has_prefix str_eq
listed_names = refl

one_device : only_device (matching file serial (split newline (trim_space names))) ≡ ok vdb
unfolding split trim_space is_empty has_serial str_eq serial_path device_path
one_device = refl

get_dev_path_by_serial_lem_example :
    get_dev_path_by_serial simulated_host serial blank
    ≡ (only_device (matching file serial (split newline (trim_space names))), blank)
get_dev_path_by_serial_lem_example =
    get_dev_path_by_serial_lem simulated_host file blank (λ p. refl) serial names listed_names

abbrev expand_request : NodeExpandRequest
expand_request = record {
  volume_id = volume_name;
  volume_path = target;
  capacity_range = some (range (50 * gib) 0);
  volume_capability = some file_system;
}

asked : get_request_size_bytes expand_request.capacity_range ≡ bytes (pos (50 * gib))
unfolding get_request_size_bytes
asked = refl

grown_to :
    node_expand_volume node_server expand_request (begin published_world)
    ≡ (ok (some (pos (50 * gib))), begin published_world)
unfolding node_expand_volume is_empty expand_file_system get_request_size_bytes parse_csi_vol_id
    expand_parsed try_acquire has has_prefix release str_eq delete
grown_to = refl

no_block : is_block file_system ≡ false
unfolding is_block
no_block = refl

node_expand-Grown_example :
    Grown node_server target serial (pos (50 * gib)) published_world (some (pos (50 * gib)))
node_expand-Grown_example =
    node_expand-Grown node_server expand_request file_system disk_id serial (pos (50 * gib))
      (begin published_world) (begin published_world) (some (pos (50 * gib))) named refl no_block
      asked grown_to

valid_type : is_valid (zec_volume_of free_disk).type ≡ true
unfolding is_valid zec_volume_of string_to_type str_eq
valid_type = refl

-- The entries of the node's topology, the zone first.
abbrev zone_first : Segments
zone_first =
    (get_topology_zone_key driver, driver.zone_id)
    ∷ (get_topology_vm_type_key driver, basic_vm_name)
    ∷ []

node-Visits : Visits (info_of driver).accessible_topology zone_first
unfolding segments_of str_eq
node-Visits =
    swap (get_topology_vm_type_key driver) basic_vm_name (get_topology_zone_key driver)
      driver.zone_id refl

node_get_info-placement_example :
    (own : Segments) × (node_get_info node_server (begin blank)
      ≡ (ok (info_of driver), begin blank))
    × (pick_topology driver (some (record { requisite = []; preferred = zone_first ∷ [] }))
        ≡ ok (some (new_topology driver.zone_id basic_vm_type)))
    × (get_volume_topology driver (zec_volume_of free_disk) ≡ own ∷ [])
    × (Visits own (info_of driver).accessible_topology
        ↔ ((zec_volume_of free_disk).zone ≡ driver.zone_id))
node_get_info-placement_example =
    node_get_info-placement node_server (begin blank) (zec_volume_of free_disk) zone_first [] []
      valid_type node-Visits

-- With the feature gate, a flag `rw` undoes the `ro` of a read-only request.
flags_win :
    read_only_after false (
      pieces (
        bind_options
          (feat_mountopt_enable ∷ [])
          true
          (some (record { fs_type = []; mount_flags = codes "rw" ∷ [] }))))
    ≡ false
unfolding bind_options read_only_after said split str_eq add_mount_flags
flags_win = refl

-- Without it, the request is mounted read-only.
no_flags :
    read_only_after false (
      pieces (bind_options [] true (some (record { fs_type = []; mount_flags = codes "rw" ∷ [] }))))
    ≡ true
unfolding bind_options read_only_after said split str_eq add_mount_flags
no_flags = refl
