-- ===== src/Rpc/Start/Serve.antt =====
-- pkg/disk/rpcserver/server.go: serve, and the server that does not block.
pub mod Services
pub mod Laws
use zenlayer_cloud_csi_drive.Prelude.{
  ℕ, suc, ◌==◌, Bool, true, false, List, [], ◌∷◌, ◌++◌, Option, none, some, Text, codes, str_eq,
  if◌then◌else◌,
}
use zenlayer_cloud_csi_drive.Prelude.Result.{Result, ok, err, from_option}
use zenlayer_cloud_csi_drive.Prelude.Act.{Act, pure, raise, lift, attempt, with_error, ◌>>=◌, ◌>>◌}
use zenlayer_cloud_csi_drive.Host.System.{FileError, not_exist, unreadable}
use zenlayer_cloud_csi_drive.Rpc.Identity.{IdentityServer}
use zenlayer_cloud_csi_drive.Rpc.Controller.Server.{ControllerServer}
use zenlayer_cloud_csi_drive.Rpc.Node.Server.{NodeServer}
use zenlayer_cloud_csi_drive.Rpc.Start.{Servers, parse_endpoint, listen_at}

-- A service that is registered.
pub data Service (W : Type 0) : Type 0 where
  identity : IdentityServer W → Service W
  controller : ControllerServer W → Service W
  node : NodeServer W → Service W

-- os.Remove, net.Listen and Serve of the gRPC server; the last one answers when the server ends.
pub data ListenError : Type 0 where
  not_listening : ListenError

pub data ServeError : Type 0 where
  ended_badly : ServeError

pub record Network (W : Type 0) : Type 0 where
  pub remove : Text → Act FileError W (Unit {0})
  pub listen : Text → Text → Act ListenError W (Unit {0})
  pub serve_listener : List (Service W) → Act ServeError W (Unit {0})

-- Why the process ends.
pub data Fatal : Type 0 where
  invalid_endpoint failed_to_remove failed_to_listen : Fatal

abbrev pub registration : {W A : Type 0} → (A → Service W) → Option A → List (Service W)
registration f none = []
registration f (some a) = f a ∷ []

-- The services of the servers that are not nil, in the order in which they are registered.
unfoldable pub registered : {W : Type 0} → Servers W → List (Service W)
registered servers =
    registration identity servers.identity_server
    ++ registration controller servers.controller_server
    ++ registration node servers.node_server

-- A socket that is not there need not be removed.
abbrev pub unless_missing : {W : Type 0} → Result FileError (Unit {0}) → Act Fatal W (Unit {0})
unless_missing (ok u) = pure tt
unless_missing (err not_exist) = pure tt
unless_missing (err unreadable) = raise failed_to_remove

module _ {W : Type 0} (net : Network W) where
  unfoldable pub clear : Text × Text → Act Fatal W (Unit {0})
  clear (proto, addr) =
      if str_eq proto (codes "unix")
      then (attempt (net.remove addr) >>= unless_missing)
      else pure tt

  -- What serve does with the protocol and the address to listen at. How the server has ended is only
  -- logged.
  unfoldable pub serve_at : Servers W → Text × Text → Act Fatal W (Unit {0})
  unfolding clear registered
  serve_at servers (proto, addr) = do
    clear (proto, addr)
    with_error (λ e. failed_to_listen) (net.listen proto addr)
    ended ← attempt (net.serve_listener (registered servers))
    pure tt

  unfoldable pub serve : Text → Servers W → Act Fatal W (Unit {0})
  unfolding serve_at
  serve endpoint servers = do
    parsed ← lift (from_option invalid_endpoint (parse_endpoint endpoint))
    serve_at servers (listen_at parsed)
