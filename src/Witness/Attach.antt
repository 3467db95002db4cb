-- ===== src/Witness/Attach.antt =====
-- Attaching and detaching, on the cloud with one disk.
use zenlayer_cloud_csi_drive.Prelude.{◌≡◌, ◌≢◌, refl, false, some, arith, Text, str_eq, is_empty}
use zenlayer_cloud_csi_drive.Prelude.Result.{ok}
use zenlayer_cloud_csi_drive.Common.VolumeId.{parse_csi_vol_id}
use zenlayer_cloud_csi_drive.Driver.Capability.{validate_volume_capability}
use zenlayer_cloud_csi_drive.Cloud.Types.{zec_volume_of}
use zenlayer_cloud_csi_drive.Cloud.Manager.Contract.{volumes}
use zenlayer_cloud_csi_drive.Rpc.Requests.{PublishRequest, UnpublishRequest}
use zenlayer_cloud_csi_drive.Rpc.Controller.Attach.{
  controller_publish_volume, controller_unpublish_volume,
}
use zenlayer_cloud_csi_drive.Rpc.Controller.Attach.Publish.{
  IsOn, publish-IsOn, publish_quiet, publish_elsewhere,
}
use zenlayer_cloud_csi_drive.Rpc.Controller.Attach.Unpublish.{
  IsOff, unpublish-IsOff, unpublish_quiet,
}
use zenlayer_cloud_csi_drive.Witness.Cloud.{disk_id, serial, vm, zone, free_disk, on_vm, disk}
use zenlayer_cloud_csi_drive.Common.Lock.{delete, has, release, try_acquire}
use zenlayer_cloud_csi_drive.Cloud.Disks.{attach_volume, detach_volume, find_volume}
use zenlayer_cloud_csi_drive.Cloud.Instances.{get_vm_status}
use zenlayer_cloud_csi_drive.Witness.Setup.{
  server, start, faithful, volume_name, named, there, writer,
}

abbrev pub publish_request : PublishRequest
publish_request = record {
  volume_id = volume_name;
  node_id = vm;
  volume_capability = some writer;
  readonly = false;
}

published :
    controller_publish_volume server publish_request (start (some free_disk))
    ≡ (ok tt, start (some (on_vm vm free_disk)))
unfolding controller_publish_volume is_empty str_eq parse_csi_vol_id zec_volume_of
    validate_volume_capability try_acquire has find_volume get_vm_status release attach_volume
    delete
published = refl

publish-IsOn_example :
    (id : Text) × (n : Text) × (parse_csi_vol_id volume_name ≡ some (id, n))
    × IsOn vm (volumes disk (some (on_vm vm free_disk)) id)
publish-IsOn_example =
    publish-IsOn server (volumes disk) publish_request (start (some free_disk))
      (start (some (on_vm vm free_disk))) faithful published

publish_quiet_example :
    volumes disk
      (controller_publish_volume server publish_request (start (some (on_vm vm free_disk)))).1.world
      disk_id
    ≡ volumes disk (some (on_vm vm free_disk)) disk_id
unfolding is_empty zec_volume_of
publish_quiet_example =
    publish_quiet server (volumes disk) publish_request (start (some (on_vm vm free_disk))) disk_id
      serial (zec_volume_of (on_vm vm free_disk)) faithful named (there (on_vm vm free_disk)) refl
      disk_id

publish_elsewhere_example :
    ((controller_publish_volume server publish_request (start (some (on_vm zone free_disk)))).0
      ≢ ok tt)
    × ((x : Text)
        → volumes disk
            (controller_publish_volume server publish_request
              (start (some (on_vm zone free_disk)))).1.world
            x
          ≡ volumes disk (some (on_vm zone free_disk)) x)
unfolding is_empty zec_volume_of
publish_elsewhere_example =
    publish_elsewhere server (volumes disk) publish_request (start (some (on_vm zone free_disk)))
      disk_id serial (zec_volume_of (on_vm zone free_disk)) faithful named
      (there (on_vm zone free_disk)) refl (λ same. ground (arith, same))

abbrev unpublish_request : UnpublishRequest
unpublish_request = record { volume_id = volume_name; node_id = vm }

unpublished :
    controller_unpublish_volume server unpublish_request (start (some (on_vm vm free_disk)))
    ≡ (ok tt, start (some free_disk))
unfolding controller_unpublish_volume is_empty str_eq parse_csi_vol_id zec_volume_of try_acquire has
    find_volume release detach_volume delete
unpublished = refl

unpublish-IsOff_example : IsOff vm (volumes disk (some free_disk) disk_id)
unpublish-IsOff_example =
    unpublish-IsOff server (volumes disk) unpublish_request (start (some (on_vm vm free_disk)))
      (start (some free_disk)) disk_id serial faithful named unpublished

unpublish_quiet_example :
    volumes disk
      (controller_unpublish_volume server unpublish_request (start (some free_disk))).1.world
      disk_id
    ≡ volumes disk (some free_disk) disk_id
unfolding zec_volume_of
unpublish_quiet_example =
    unpublish_quiet server (volumes disk) unpublish_request (start (some free_disk)) disk_id serial
      (zec_volume_of free_disk) faithful named (there free_disk) (λ same. ground (arith, same))
      disk_id
