-- ===== src/Rpc/Controller/Rest.antt =====
-- The handlers of pkg/disk/rpcserver/controllerserver.go that tell of the driver or do nothing.
use zenlayer_cloud_csi_drive.Prelude.{List}
use zenlayer_cloud_csi_drive.Driver.Capability.{ControllerRpc}
use zenlayer_cloud_csi_drive.Rpc.State.{Rpc, respond, refuse, unimplemented}
use zenlayer_cloud_csi_drive.Rpc.Controller.Server.{ControllerServer}

module _ {W : Type 0} (cs : ControllerServer W) where
  unfoldable pub controller_get_capabilities : Rpc W (List ControllerRpc)
  controller_get_capabilities = respond cs.driver.controller_cap

-- These are not offered.
module _ {W : Type 0} where
  unfoldable pub get_capacity : Rpc W (Unit {0})
  get_capacity = refuse unimplemented

  unfoldable pub controller_get_volume : Rpc W (Unit {0})
  controller_get_volume = refuse unimplemented

  unfoldable pub list_volumes : Rpc W (Unit {0})
  list_volumes = refuse unimplemented

  unfoldable pub list_snapshots : Rpc W (Unit {0})
  list_snapshots = refuse unimplemented
