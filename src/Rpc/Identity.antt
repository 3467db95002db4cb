-- ===== src/Rpc/Identity.antt =====
-- pkg/disk/rpcserver/identityserver.go: the CSI identity service, which takes no lock.
use zenlayer_cloud_csi_drive.Prelude.{Bool, true, not, List, Text, is_empty, if◌then◌else◌}
use zenlayer_cloud_csi_drive.Prelude.Result.{Result, ok, err, is_ok}
use zenlayer_cloud_csi_drive.Driver.Capability.{DiskDriver, PluginCapability}
use zenlayer_cloud_csi_drive.Cloud.Manager.{CloudManager}
use zenlayer_cloud_csi_drive.Rpc.State.{Code, invalid_argument}

pub record IdentityServer (W : Type 0) : Type 0 where
  pub driver : DiskDriver
  pub cloud : CloudManager W

pub record PluginInfo : Type 0 where
  pub name : Text
  pub vendor_version : Text

module _ {W : Type 0} (is : IdentityServer W) where
  -- A node is always ready; a controller is while the cloud lists its zones. There is no error.
  unfoldable pub probe : W → Bool × W
  probe w =
      let (zones, after) = is.cloud.get_zone_list w in
      if not is.cloud.is_controller then (true, w) else (is_ok zones, after)

  unfoldable pub get_plugin_capabilities : List PluginCapability
  get_plugin_capabilities = is.driver.plugin_cap

  unfoldable pub get_plugin_info : Result Code PluginInfo
  get_plugin_info =
      if is_empty is.driver.name
      then err invalid_argument
      else if is_empty is.driver.version
      then err invalid_argument
      else ok (record { name = is.driver.name; vendor_version = is.driver.version })
