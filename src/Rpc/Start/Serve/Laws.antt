-- ===== src/Rpc/Start/Serve/Laws.antt =====
-- What serve of pkg/disk/rpcserver/server.go has done when it comes to an end without ending the process.
use zenlayer_cloud_csi_drive.Prelude.{
  ◌+◌, ◌↔◌, List, length, str_eq, refl, ◌≡◌, ◌≢◌, ◌⊎◌, ap, sym, ◌∙◌, subst, inl, inr, ◌++◌, some,
  none, arith, Text, codes,
}
use mathlib.Core.List.{Memᴰ}
use zenlayer_cloud_csi_drive.Prelude.Result.{ok, err, from_option, Result-cases}
use zenlayer_cloud_csi_drive.Host.System.{not_exist, unreadable}
use zenlayer_cloud_csi_drive.Prelude.Act.{continue-eq-ok, with_error}
use zenlayer_cloud_csi_drive.Driver.StorageClass.Parameters.{to_lower}
use zenlayer_cloud_csi_drive.Prelude.Lines.{has_prefix}
use zenlayer_cloud_csi_drive.Rpc.Start.{Servers, separator, parse_endpoint, listen_at}
use zenlayer_cloud_csi_drive.Rpc.Start.Endpoint.{parse_endpoint_sound}
use zenlayer_cloud_csi_drive.Rpc.Start.Serve.{
  Network, Service, failed_to_listen, invalid_endpoint, clear, registered, serve_at, serve,
}
use zenlayer_cloud_csi_drive.Rpc.Start.Serve.Services.{
  IsOf, count, registered-once, registered_complete,
}

-- The networks that net.Listen knows.
abbrev pub IsNetwork : Text → Type 0
IsNetwork n =
    (n ≡ codes "unix")
    ⊎ (n ≡ codes "tcp")
    ⊎ (n ≡ codes "tcp4")
    ⊎ (n ≡ codes "tcp6")
    ⊎ (n ≡ codes "unixpacket")

-- The documented behaviour of net.Listen: it fails for any other network.
pub record KnowsNetworks {W : Type 0} (net : Network W) : Type 0 where
  pub known :
      (network addr : Text) (w w' : W) → net.listen network addr w ≡ (ok tt, w') → IsNetwork network

-- What serve_at has done at a protocol and an address, step by step.
record ServedAt {W : Type 0} (net : Network W) (proto addr : Text) (servers : Servers W) (w w' : W)
    : Type 0 where
  cleared : W
  is_cleared : clear net (proto, addr) w ≡ (ok tt, cleared)
  listening : W
  is_listening : net.listen proto addr cleared ≡ (ok tt, listening)
  has_served : (net.serve_listener (registered servers) listening).1 ≡ w'

-- A socket was removed from the path, or there was none.
abbrev pub Removed : {W : Type 0} → Network W → Text → W → W → Type 0
Removed net path w v = (net.remove path w ≡ (ok tt, v)) ⊎ (net.remove path w ≡ (err not_exist, v))

-- The endpoint is `unix` or `tcp` in lower case, `://` and an address. For `unix` the path is the address
-- behind a slash, and what was at this path was removed; for `tcp` it is the address. Then the listener
-- was opened at the path, and then the services of the servers that are not nil were served, each once.
pub record Served {W : Type 0} (net : Network W) (endpoint : Text) (servers : Servers W) (w w' : W)
    : Type 0 where
  pub proto : Text
  pub addr : Text
  pub written : endpoint ≡ proto ++ separator ++ addr
  pub path : Text
  pub cleared : W
  pub prepared :
      ((proto ≡ codes "unix") × (path ≡ codes "/" ++ addr) × Removed net path w cleared)
      ⊎ ((proto ≡ codes "tcp") × (path ≡ addr) × (cleared ≡ w))
  pub listening : W
  pub is_listening : net.listen proto path cleared ≡ (ok tt, listening)
  pub services : List (Service W)
  pub complete : (x : Service W) → Memᴰ x services ↔ IsOf servers x
  pub once :
      length services
      ≡ count servers.identity_server + count servers.controller_server + count servers.node_server
  pub has_served : (net.serve_listener services listening).1 ≡ w'

-- Three of the networks are none to ParseEndpoint.
not_parsed :
    (n addr : Text)
    → (n ≡ codes "tcp4") ⊎ (n ≡ codes "tcp6") ⊎ (n ≡ codes "unixpacket")
    → parse_endpoint (n ++ separator ++ addr) ≡ none
unfolding parse_endpoint has_prefix to_lower
not_parsed n addr (inl e) = ap (λ m. parse_endpoint (m ++ separator ++ addr)) e
not_parsed n addr (inr (inl e)) = ap (λ m. parse_endpoint (m ++ separator ++ addr)) e
not_parsed n addr (inr (inr e)) = ap (λ m. parse_endpoint (m ++ separator ++ addr)) e

parse_endpoint-IsNetwork :
    (n addr : Text)
    → IsNetwork n
    → parse_endpoint (n ++ separator ++ addr) ≢ none
    → (n ≡ codes "unix") ⊎ (n ≡ codes "tcp")
parse_endpoint-IsNetwork n addr (inl e) h = inl e
parse_endpoint-IsNetwork n addr (inr (inl e)) h = inr e
parse_endpoint-IsNetwork n addr (inr (inr e)) h = absurd (h (not_parsed n addr e))

listen_at-proto : (proto addr : Text) → (listen_at (proto, addr)).0 ≡ proto
unfolding listen_at
listen_at-proto proto addr = ground arith

serve_at-ServedAt :
    {W : Type 0} (net : Network W) (servers : Servers W) (proto addr : Text) (w w' : W)
    → serve_at net servers (proto, addr) w ≡ (ok tt, w')
    → ServedAt net proto addr servers w w'
unfolding serve_at
serve_at-ServedAt net servers proto addr w w' h =
    let r = clear net (proto, addr) w in
    let (u, cleared, rest) = continue-eq-ok _ r.0 r.1 h in
    let l = net.listen proto addr r.1 in
    let (u', listened, last) =
      continue-eq-ok _ (with_error (λ e. failed_to_listen) (net.listen proto addr) r.1).0 l.1
        rest in
    record {
      cleared = r.1;
      is_cleared = ground arith;
      listening = l.1;
      is_listening = ground arith;
      has_served = ap (λ p. p.1) last;
    }

clear-Removed :
    {W : Type 0} (net : Network W) (path : Text) (w v : W)
    → clear net (codes "unix", path) w ≡ (ok tt, v)
    → Removed net path w v
unfolding clear str_eq
clear-Removed net path w v h = elim (Result-cases (net.remove path w).0) [
  | inl (u, g) ↦ inl (ground (arith, h, g))
  | inr (not_exist, g) ↦ inr (ground (arith, h, g))
  | inr (unreadable, g) ↦ absurd (ground (arith, h, g))
]

-- What serve has done for an endpoint of either protocol.
module _ {W : Type 0} (net : Network W) (endpoint : Text) (servers : Servers W) (proto addr : Text)
    (w w' : W) (written : endpoint ≡ proto ++ separator ++ addr)
    (run : serve_at net servers (listen_at (proto, addr)) w ≡ (ok tt, w')) where
  Served-unix : proto ≡ codes "unix" → Served net endpoint servers w w'
  unfolding listen_at str_eq
  Served-unix e =
      let at =
        serve_at-ServedAt net servers (codes "unix") (codes "/" ++ addr) w w'
          (ap (λ p. serve_at net servers (listen_at (p, addr)) w) (sym e) ∙ run) in
      record {
        proto = proto;
        addr = addr;
        written = written;
        path = codes "/" ++ addr;
        cleared = at.cleared;
        prepared = inl (e, refl, clear-Removed net (codes "/" ++ addr) w at.cleared at.is_cleared);
        listening = at.listening;
        is_listening = rw e at.is_listening;
        services = registered servers;
        complete = registered_complete servers;
        once = registered-once servers;
        has_served = at.has_served;
      }

  Served-tcp : proto ≡ codes "tcp" → Served net endpoint servers w w'
  unfolding listen_at str_eq clear
  Served-tcp e =
      let at =
        serve_at-ServedAt net servers (codes "tcp") addr w w'
          (ap (λ p. serve_at net servers (listen_at (p, addr)) w) (sym e) ∙ run) in
      record {
        proto = proto;
        addr = addr;
        written = written;
        path = addr;
        cleared = at.cleared;
        prepared = inr (e, refl, sym (ap (λ p. p.1) at.is_cleared));
        listening = at.listening;
        is_listening = rw e at.is_listening;
        services = registered servers;
        complete = registered_complete servers;
        once = registered-once servers;
        has_served = at.has_served;
      }

-- If serve does not end the process, for a net.Listen that fails for networks that it does not know:
-- the endpoint is `unix` or `tcp`, written in lower case, `://` and an address. For `unix`, os.Remove was
-- called on the address behind a slash, and removed a socket or found none; for `tcp`, nothing was
-- removed. Then the listener was opened there, and then exactly the services of the servers that are
-- not nil were served, each once.
pub serve-Served :
    {W : Type 0} (net : Network W) (endpoint : Text) (servers : Servers W) (w w' : W)
    → KnowsNetworks net
    → serve net endpoint servers w ≡ (ok tt, w')
    → Served net endpoint servers w w'
unfolding serve
serve-Served net endpoint servers w w' k h =
    let ((proto, addr), parsed, rest) =
      continue-eq-ok (λ p. serve_at net servers (listen_at p))
        (from_option invalid_endpoint (parse_endpoint endpoint)) w h in
    let found : parse_endpoint endpoint ≡ some (proto, addr) = ground arith in
    let (written, full) = parse_endpoint_sound endpoint proto addr found in
    let at =
      subst (λ n. ServedAt net n (listen_at (proto, addr)).1 servers w w')
        (listen_at-proto proto addr) (serve_at-ServedAt net servers _ _ w w' rest) in
    let known = k.known proto (listen_at (proto, addr)).1 at.cleared at.listening at.is_listening in
    elim (parse_endpoint-IsNetwork proto addr known
      (λ e. cc (sym (ap parse_endpoint written) ∙ found, e))) [
        | inl unix ↦ Served-unix net endpoint servers proto addr w w' written rest unix
        | inr tcp ↦ Served-tcp net endpoint servers proto addr w w' written rest tcp
      ]
