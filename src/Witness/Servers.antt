-- ===== src/Witness/Servers.antt =====
-- Expanding, deleting and validating, on the cloud with one disk.
use zenlayer_cloud_csi_drive.Prelude.{
  ◌≡◌, ◌*◌, refl, true, false, [], ◌∷◌, none, some, arith, Text, str_eq, is_empty, pos,
  if◌then◌else◌,
}
use zenlayer_cloud_csi_drive.Prelude.Result.{ok, err}
use zenlayer_cloud_csi_drive.Common.Calculator.{gib}
use zenlayer_cloud_csi_drive.Common.Lock.{new_resource_locks, has}
use zenlayer_cloud_csi_drive.Common.VolumeId.{parse_csi_vol_id}
use zenlayer_cloud_csi_drive.Driver.Capability.{validate_volume_capabilities}
use zenlayer_cloud_csi_drive.Driver.StorageClass.Sizes.{range}
use zenlayer_cloud_csi_drive.Cloud.Types.{ZecVolume, zec_volume_of}
use zenlayer_cloud_csi_drive.Cloud.Manager.Contract.{volumes}
use zenlayer_cloud_csi_drive.Driver.VolumeType.{is_valid, basic_vm_type}
use zenlayer_cloud_csi_drive.Rpc.Placement.{get_volume_topology, segments_of}
use zenlayer_cloud_csi_drive.Rpc.Requests.{
  ExpandRequest, ExpandResponse, ValidateRequest, Confirmed,
}
use zenlayer_cloud_csi_drive.Rpc.Controller.Server as Server
use zenlayer_cloud_csi_drive.Rpc.Controller.Server.{ControllerServer, supports_all}
use zenlayer_cloud_csi_drive.Rpc.Controller.Server.Laws.{delete_volume-deleted, validate-verdict}
use zenlayer_cloud_csi_drive.Rpc.Controller.Expand.{controller_expand_volume}
use zenlayer_cloud_csi_drive.Rpc.Controller.Expand.Laws.{IsLargeEnough, expand-IsLargeEnough}
use zenlayer_cloud_csi_drive.Rpc.Controller.Dispatch.{publish, remove, serve, handle}
use zenlayer_cloud_csi_drive.Rpc.State as RS
use zenlayer_cloud_csi_drive.Rpc.Controller.Dispatch.Pending.{pending_refused}
use zenlayer_cloud_csi_drive.Rpc.Controller.Dispatch.Locks.{serve-locks}
use zenlayer_cloud_csi_drive.Witness.Cloud.{World, disk_id, serial, zone, free_disk, disk}
use zenlayer_cloud_csi_drive.Common.Lock.{delete, has, release, try_acquire}
use zenlayer_cloud_csi_drive.Cloud.Disks.{attach_volume, detach_volume, find_volume, resize_volume}
use zenlayer_cloud_csi_drive.Driver.StorageClass.{
  get_required_volume_size_byte, new_default_zec_storage_class_from_type,
}
use zenlayer_cloud_csi_drive.Driver.VolumeType.{string_to_type}
use zenlayer_cloud_csi_drive.Common.Calculator.{byte_ceil_to_gib, gib_to_byte}
use zenlayer_cloud_csi_drive.Cloud.Disks as Disks
use zenlayer_cloud_csi_drive.Witness.Setup.{
  driver, server, start, faithful, volume_name, named, there, writer,
}
use zenlayer_cloud_csi_drive.Witness.Attach.{publish_request}

abbrev expand_request : ExpandRequest
expand_request = record {
  volume_id = volume_name;
  capacity_range = some (range (50 * gib) 0);
  volume_capability = some writer;
}

abbrev expanded : ExpandResponse
expanded = record { capacity_bytes = pos (50 * gib); node_expansion_required = false }

grown :
    controller_expand_volume server expand_request (start (some free_disk))
    ≡ (ok expanded, start (some (record free_disk { disk_size = some (pos 50) })))
unfolding controller_expand_volume is_empty str_eq parse_csi_vol_id zec_volume_of try_acquire has
    find_volume release new_default_zec_storage_class_from_type delete string_to_type
    get_required_volume_size_byte gib_to_byte byte_ceil_to_gib resize_volume
grown = refl

expand-IsLargeEnough_example : IsLargeEnough (50 * gib) 40 expanded
unfolding zec_volume_of
expand-IsLargeEnough_example =
    expand-IsLargeEnough server (volumes disk) expand_request (start (some free_disk)) _ expanded
      disk_id serial (zec_volume_of free_disk) (50 * gib) 0 40 faithful named refl (omega arith)
      (there free_disk) refl (omega arith) grown

deleted : Server.delete_volume server volume_name (start (some free_disk)) ≡ (ok tt, start none)
unfolding Server.delete_volume is_empty str_eq parse_csi_vol_id zec_volume_of try_acquire has
    Disks.delete_volume release delete
deleted = refl

delete_volume-deleted_example : volumes disk none disk_id ≡ none
delete_volume-deleted_example =
    delete_volume-deleted server (volumes disk) volume_name (start (some free_disk)) (start none)
      disk_id serial faithful named deleted

abbrev validate_request : ValidateRequest
validate_request = record {
  volume_id = volume_name;
  volume_capabilities = writer ∷ [];
  volume_context = [];
  parameters = [];
}

abbrev confirmed : Confirmed
confirmed = record { volume_context = []; volume_capabilities = writer ∷ []; parameters = [] }

validated :
    Server.validate_volume_capabilities server validate_request (start (some free_disk))
    ≡ (ok (some confirmed), start (some free_disk))
unfolding Server.validate_volume_capabilities is_empty str_eq zec_volume_of parse_csi_vol_id
    find_volume
validated = refl

validate-verdict_example :
    (id : Text) × (n : Text) × (v : ZecVolume) × (parse_csi_vol_id volume_name ≡ some (id, n))
    × (volumes disk (some free_disk) id ≡ some v)
    × (some confirmed
        ≡ (if validate_volume_capabilities driver (writer ∷ []) then some confirmed else none))
validate-verdict_example =
    validate-verdict server (volumes disk) validate_request (start (some free_disk))
      (start (some free_disk)) (some confirmed) faithful validated

serve-locks_example :
    (serve server
      (publish publish_request ∷ remove volume_name ∷ [])
      (start (some free_disk))).1.locks
    ≡ new_resource_locks
serve-locks_example =
    serve-locks server (publish publish_request ∷ remove volume_name ∷ []) (start (some free_disk))

valid : is_valid (zec_volume_of free_disk).type ≡ true
unfolding is_valid zec_volume_of string_to_type str_eq
valid = refl

own :
    get_volume_topology driver (zec_volume_of free_disk)
    ≡ segments_of driver zone basic_vm_type ∷ []
unfolding get_volume_topology zec_volume_of string_to_type str_eq
own = refl

abbrev busy : RS.Server World
busy = record { locks = record { locks = disk_id ∷ [] }; world = some free_disk }

-- A second request for the disk that another one works on.
pending_refused_example :
    (c : RS.Code) × (handle server (publish publish_request) busy ≡ (err c, busy))
unfolding parse_csi_vol_id has str_eq
pending_refused_example = pending_refused server (publish publish_request) busy disk_id refl refl
