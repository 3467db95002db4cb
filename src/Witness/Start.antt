-- ===== src/Witness/Start.antt =====
-- Starting the process: a controller on the host with one disk, and endpoints.
use zenlayer_cloud_csi_drive.Prelude.{
  ℕ, ◌≡◌, ◌||◌, ◌+◌, refl, true, false, [], none, some, codes, str_eq, is_empty, pos,
}
use zenlayer_cloud_csi_drive.Prelude.Result.{ok, err}
use zenlayer_cloud_csi_drive.Prelude.Act.{Act}
use zenlayer_cloud_csi_drive.Cloud.Exec.{CloudError, nil_client}
use zenlayer_cloud_csi_drive.Cloud.Client.{ZecClient, ZecCloudManager}
use zenlayer_cloud_csi_drive.Cloud.Instances.{node_driver_type, controller_driver_type}
use zenlayer_cloud_csi_drive.Rpc.Start.{Servers}
use zenlayer_cloud_csi_drive.Cmd.{Flags, Surroundings, start_up, serving, probe_loop}
use zenlayer_cloud_csi_drive.Cmd.Probing.{Ends, probe_loop-Ends}
use zenlayer_cloud_csi_drive.Cmd.Roles.{InOrder, is_some, start_up_roles}
use zenlayer_cloud_csi_drive.Witness.Host.{HostWorld, simulated_host, blank}
use zenlayer_cloud_csi_drive.Cmd.{check_flags, manager_of, secrets, wait_for_cloud}
use zenlayer_cloud_csi_drive.Common.Environment.{get_zec_env, get_zec_secret, verify_env}
use zenlayer_cloud_csi_drive.Prelude.Lines.{has_prefix}
use zenlayer_cloud_csi_drive.Cloud.Instances.{new_zec_cloud_manager, probe}

-- A client that answers every call and does nothing.
abbrev idle_client : ZecClient HostWorld
idle_client = record {
  describe_disks = λ q w. (ok none, w);
  create_disks = λ q w. (ok none, w);
  release_disk = λ id w. (ok tt, w);
  attach_disks = λ ids v w. (ok tt, w);
  detach_disks = λ ids check w. (ok none, w);
  resize_disk = λ id size w. (ok tt, w);
  describe_instances_status = λ vms w. (ok none, w);
  describe_instances = λ vms w. (ok none, w);
  describe_zones = λ w. (ok tt, w);
  describe_disk_regions = λ w. (ok none, w);
  create_snapshot = λ id n w. (ok none, w);
  delete_snapshots = λ ids w. (ok none, w);
  describe_snapshots = λ q w. (ok none, w);
}

abbrev around : Surroundings HostWorld
around = record {
  host = simulated_host;
  new_client = λ ak sk. ok (some idle_client);
  clock = record { pause = λ w. w; rounds = λ w. 5 };
  sleep = λ w. w;
  proto_equal = λ a b. true;
}

abbrev flags : Flags
flags = record {
  driver_name = codes "disk.csi.zenlayer.com";
  endpoint = codes "unix://csi/csi.sock";
  max_volume = pos 9;
  secretpath_ak = codes "/ak";
  secretpath_pw = codes "/ak";
  driver_type = codes "controller";
  mix_driver = false;
  feature_gates = [];
  default_zone = [];
  default_resource_group = [];
}

abbrev manager : ZecCloudManager HostWorld
manager = record { zec_client = some idle_client; iscontroller = true; clock = around.clock }

abbrev servers : Servers HostWorld
servers = serving around flags (codes "1455441132925494374", codes "z-1") manager

comes_up : start_up around flags blank ≡ (ok servers, blank)
unfolding start_up check_flags str_eq is_empty verify_env has_prefix get_zec_env secrets
    get_zec_secret manager_of new_zec_cloud_manager wait_for_cloud probe_loop probe
comes_up = refl

start_up_roles_example :
    InOrder around flags servers
    × (is_some servers.identity_server ≡ true)
    × (is_some servers.controller_server ≡ str_eq (codes "controller") controller_driver_type)
    × (is_some servers.node_server ≡ (str_eq (codes "controller") node_driver_type || false))
start_up_roles_example = start_up_roles around flags blank blank servers comes_up

abbrev never : Act CloudError ℕ (Unit {0})
never w = (err nil_client, w)

probe_loop-Ends_example : Ends never (λ n. n + 1) 5 0 (probe_loop 5 never (λ n. n + 1) 0)
probe_loop-Ends_example = probe_loop-Ends never (λ n. n + 1) 5 0

full : is_empty (codes "csi/csi.sock") ≡ false
unfolding is_empty
full = refl
