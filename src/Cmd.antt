-- ===== src/Cmd.antt =====
-- cmd/main.go: the flags of the process, and what it does before it serves.
pub mod Probing
pub mod Roles
use zenlayer_cloud_csi_drive.Prelude.{
  ℕ, zero, suc, ◌-◌, Bool, true, false, not, List, [], ◌∷◌, ◌++◌, ◌&&◌, ◌||◌, Option, none, some,
  Text, codes, str_eq, is_empty, length, drop, leb, if◌then◌else◌, ℤ, pos,
}
use zenlayer_cloud_csi_drive.Prelude.Result.{Result, ok, err}
use zenlayer_cloud_csi_drive.Prelude.Act.{
  Act, pure, raise, lift, refuse_if, attempt, with_error, renamed, ◌>>=◌, ◌>>◌,
}
use zenlayer_cloud_csi_drive.Prelude.Lines.{split}
use zenlayer_cloud_csi_drive.Common.Environment.{EnvError, verify_env, get_zec_env, get_zec_secret}
use zenlayer_cloud_csi_drive.Driver.Capability.{
  DiskDriver, init_disk_driver, get_disk_driver, default_volume_access_mode_type,
  default_controller_service_capability, default_node_service_capability, default_plugin_capability,
}
use zenlayer_cloud_csi_drive.Cloud.Exec.{CloudError, SdkError}
use zenlayer_cloud_csi_drive.Cloud.Client.{ZecClient, ZecCloudManager, Clock}
use zenlayer_cloud_csi_drive.Cloud.Manager.{zec_cloud_manager}
use zenlayer_cloud_csi_drive.Cloud.Instances.{
  node_driver_type, controller_driver_type, new_zec_cloud_manager, probe,
}
use zenlayer_cloud_csi_drive.Host.System.{Host}
use zenlayer_cloud_csi_drive.Rpc.Placement.{Segments}
use zenlayer_cloud_csi_drive.Rpc.Start.{Servers, Variables, run_servers}

pub record Flags : Type 0 where
  pub driver_name : Text
  pub endpoint : Text
  pub max_volume : ℤ
  pub secretpath_ak : Text
  pub secretpath_pw : Text
  pub driver_type : Text
  pub mix_driver : Bool
  pub feature_gates : Text
  pub default_zone : Text
  pub default_resource_group : Text

-- Why the process stops before it serves.
pub data StartError : Type 0 where
  missing_driver_type incomplete_defaults : StartError
  bad_env : EnvError → StartError
  bad_cloud : CloudError → StartError

-- What the process has around it: the host, zec.NewClient, the timers, and three seconds of sleep.
pub record Surroundings (W : Type 0) : Type 0 where
  pub host : Host W
  pub new_client : Text → Text → Result SdkError (Option (ZecClient W))
  pub clock : Clock W
  pub sleep : W → W
  pub proto_equal : Segments → Segments → Bool

abbrev pub version : Text
version = codes "v1.2.0"

-- Only the end of a secret is logged.
unfoldable pub mask_secret : Text → Text
mask_secret s = if leb (length s) 4 then codes "****" else codes "****" ++ drop (length s - 4) s

abbrev pub is_driver_type : Text → Bool
is_driver_type t = str_eq t node_driver_type || str_eq t controller_driver_type

-- The default zone and the default group are set both or neither.
abbrev pub is_half_set : Text → Text → Bool
is_half_set zone group = if not (is_empty zone) then is_empty group else not (is_empty group)

unfoldable pub gates_of : Text → List Text
unfolding split
gates_of s = if is_empty s then [] else split b',' s

-- Variables of pkg/common, once they are set.
unfoldable pub variables_of : Flags → (Segments → Segments → Bool) → Variables
unfolding gates_of
variables_of f proto_equal = record {
  mix_driver = f.mix_driver;
  defaults = record {
    default_zone = f.default_zone;
    default_resource_group = f.default_resource_group;
  };
  feature_gates = gates_of f.feature_gates;
  proto_equal = proto_equal;
}

unfoldable pub driver_of : Flags → Text × Text → DiskDriver
unfolding init_disk_driver
driver_of f (vmid, vm_zone) = init_disk_driver (get_disk_driver (pos 0)) (
    some (record {
      name = f.driver_name;
      version = version;
      node_id = vmid;
      zone_id = vm_zone;
      max_volume = f.max_volume;
      volume_cap = default_volume_access_mode_type;
      controller_cap = default_controller_service_capability;
      node_cap = default_node_service_capability;
      plugin_cap = default_plugin_capability;
    }))

module _ {W : Type 0} where
  -- The loop around Probe. After a failure the process sleeps, and it gives up once trycount is above
  -- 5, that is, with no round left.
  unfoldable pub probe_loop :
      ℕ → Act CloudError W (Unit {0}) → (W → W) → Act CloudError W (Unit {0})
  probe_loop zero probing sleep w = elim (probing w).0 [
    | ok u ↦ (ok tt, (probing w).1)
    | err e ↦ (err e, sleep (probing w).1)
  ]
  probe_loop (suc left) probing sleep w = elim (probing w).0 [
    | ok u ↦ (ok tt, (probing w).1)
    | err e ↦ probe_loop left probing sleep (sleep (probing w).1)
  ]

abbrev pub rounds_after_first : ℕ
rounds_after_first = 5

module _ {W : Type 0} (o : Surroundings W) (f : Flags) where
  -- Only a controller reads the credentials of the cloud.
  unfoldable pub secrets : Act StartError W (Text × Text)
  secrets =
      if str_eq f.driver_type controller_driver_type
      then with_error bad_env (get_zec_secret o.host f.secretpath_ak f.secretpath_pw)
      else pure ([], [])

  -- Only a controller waits for the cloud.
  unfoldable pub wait_for_cloud : ZecCloudManager W → Act StartError W (Unit {0})
  wait_for_cloud cm =
      if str_eq f.driver_type controller_driver_type
      then with_error bad_cloud (probe_loop rounds_after_first (probe cm) o.sleep)
      else pure tt

  unfoldable pub manager_of : Text × Text → Act StartError W (ZecCloudManager W)
  manager_of (ak, pw) =
      lift (renamed bad_cloud (new_zec_cloud_manager o.new_client o.clock ak pw f.driver_type))

  unfoldable pub check_flags : Act StartError W (Unit {0})
  check_flags = do
    refuse_if (not (is_driver_type f.driver_type)) missing_driver_type
    refuse_if (is_half_set f.default_zone f.default_resource_group) incomplete_defaults

  -- What Run gets to serve, from the cloud manager and the environment.
  unfoldable pub serving : Text × Text → ZecCloudManager W → Servers W
  serving env cm =
      run_servers (variables_of f o.proto_equal) (driver_of f env) (zec_cloud_manager cm) o.host
        f.driver_type

  -- main, up to the call of Run; a fatal error ends the process.
  unfoldable pub start_up : Act StartError W (Servers W)
  start_up = do
    check_flags
    platform ← with_error bad_env (verify_env o.host)
    env ← with_error bad_env (get_zec_env o.host)
    keys ← secrets
    cm ← manager_of keys
    wait_for_cloud cm
    pure (serving env cm)
