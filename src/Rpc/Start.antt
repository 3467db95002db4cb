-- ===== src/Rpc/Start.antt =====
-- pkg/disk/rpcserver/run.go and server.go: which services are registered, and the endpoint.
pub mod Endpoint
pub mod Serve
pub mod Waiting
use zenlayer_cloud_csi_drive.Prelude.{
  Bool, true, false, List, [], ◌∷◌, ◌++◌, ◌||◌, Option, none, some, Text, codes, str_eq, is_empty,
  length, drop, if◌then◌else◌,
}
use zenlayer_cloud_csi_drive.Prelude.Lines.{has_prefix}
use zenlayer_cloud_csi_drive.Driver.Capability.{DiskDriver}
use zenlayer_cloud_csi_drive.Driver.StorageClass.Parameters.{Defaults, to_lower}
use zenlayer_cloud_csi_drive.Cloud.Manager.{CloudManager}
use zenlayer_cloud_csi_drive.Cloud.Instances.{controller_driver_type}
use zenlayer_cloud_csi_drive.Host.System.{Host}
use zenlayer_cloud_csi_drive.Rpc.Placement.{Segments}
use zenlayer_cloud_csi_drive.Rpc.Identity.{IdentityServer}
use zenlayer_cloud_csi_drive.Rpc.Controller.Server.{ControllerServer}
use zenlayer_cloud_csi_drive.Rpc.Node.Server.{NodeServer}

-- A service that is nil is not registered.
pub record Servers (W : Type 0) : Type 0 where
  pub identity_server : Option (IdentityServer W)
  pub controller_server : Option (ControllerServer W)
  pub node_server : Option (NodeServer W)

-- What the servers read of the variables of pkg/common, and proto.Equal on topologies.
pub record Variables : Type 0 where
  pub mix_driver : Bool
  pub defaults : Defaults
  pub feature_gates : List Text
  pub proto_equal : Segments → Segments → Bool

module _ {W : Type 0} (v : Variables) (d : DiskDriver) (cm : CloudManager W) (h : Host W) where
  unfoldable pub new_controller_server : ControllerServer W
  new_controller_server = record {
    driver = d;
    cloud = cm;
    defaults = v.defaults;
    proto_equal = v.proto_equal;
  }

  unfoldable pub new_node_server : NodeServer W
  new_node_server = record { driver = d; host = h; feature_gates = v.feature_gates }

  -- The servers that Run starts for a type of driver.
  unfoldable pub run_servers : Text → Servers W
  unfolding new_controller_server new_node_server
  run_servers driver_type =
      let controller = str_eq driver_type controller_driver_type in
      record {
        identity_server = some (record { driver = d; cloud = cm });
        controller_server = if controller then some new_controller_server else none;
        node_server =
            if controller
            then if v.mix_driver then some new_node_server else none
            else some new_node_server;
      }

abbrev pub separator : Text
separator = codes "://"

-- strings.SplitN at the first separator, into two parts.
unfoldable pub split_at : Text → Option (Text × Text)
unfolding has_prefix
split_at [] = none
split_at (c ∷ s) =
    let rest = split_at s in
    if has_prefix (c ∷ s) separator
    then some ([], drop 3 (c ∷ s))
    else elim rest [ none ↦ none | some (a, b) ↦ some (c ∷ a, b) ]

abbrev pub unless_empty : Option (Text × Text) → Option (Text × Text)
unless_empty none = none
unless_empty (some (proto, addr)) = if is_empty addr then none else some (proto, addr)

-- The protocol and the address; `none` is the error.
unfoldable pub parse_endpoint : Text → Option (Text × Text)
unfolding split_at has_prefix to_lower
parse_endpoint ep =
    if has_prefix (to_lower ep) (codes "unix://") || has_prefix (to_lower ep) (codes "tcp://")
    then unless_empty (split_at ep)
    else none

-- The network and the address that serve listens at; the socket of `unix` is removed before.
unfoldable pub listen_at : Text × Text → Text × Text
listen_at (proto, addr) =
    if str_eq proto (codes "unix") then (proto, codes "/" ++ addr) else (proto, addr)
