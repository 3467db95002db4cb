-- ===== src/Witness/Serving.antt =====
-- Serving at an endpoint, and what a handler logs.
use zenlayer_cloud_csi_drive.Prelude.{
  ◌≡◌, Text, ◌||◌, refl, some, Bool-cases, inl, inr, [], ◌∷◌, none, some, arith, codes, str_eq,
  str_eq_iff, is_empty, if◌then◌else◌,
}
use zenlayer_cloud_csi_drive.Prelude.Result.{ok, err}
use zenlayer_cloud_csi_drive.Common.Hash.{generate_hash_in_eight_bytes}
use zenlayer_cloud_csi_drive.Common.Trace.{EntryTimes, Info, entry_function}
use zenlayer_cloud_csi_drive.Host.System.{not_exist}
use zenlayer_cloud_csi_drive.Rpc.Start.{Servers, parse_endpoint, listen_at}
use zenlayer_cloud_csi_drive.Rpc.Start.Serve.{
  Network, not_listening, invalid_endpoint, failed_to_listen, serve,
}
use zenlayer_cloud_csi_drive.Rpc.Start.Serve.Laws.{KnowsNetworks, Served, serve-Served}
use zenlayer_cloud_csi_drive.Witness.Cloud.{World}
use zenlayer_cloud_csi_drive.Witness.Setup.{driver, server}

-- A network on which there is no socket yet, and a server that ends at once.
abbrev net : Network World
net = record {
  remove = λ path w. (err not_exist, w);
  listen = λ network addr w.
      if str_eq network (codes "unix") || str_eq network (codes "tcp")
      then (ok tt, w)
      else (err not_listening, w);
  serve_listener = λ services w. (ok tt, w);
}

net-KnowsNetworks : KnowsNetworks net
net-KnowsNetworks = record {
  known = λ network addr w w' h. elim (Bool-cases (str_eq network (codes "unix"))) [
    | inl unix ↦ inl ((str_eq_iff network (codes "unix")).0 unix)
    | inr other ↦ elim (Bool-cases (str_eq network (codes "tcp"))) [
      | inl tcp ↦ inr (inl ((str_eq_iff network (codes "tcp")).0 tcp))
      | inr neither ↦ absurd (ground (arith, h, other, neither))
    ]
  ];
}

abbrev controller_servers : Servers World
controller_servers = record {
  identity_server = some (record { driver = driver; cloud = server.cloud });
  controller_server = some server;
  node_server = none;
}

served : serve net (codes "unix://csi/csi.sock") controller_servers none ≡ (ok tt, none)
unfolding serve parse_endpoint is_empty str_eq listen_at
served = refl

serve-Served_example : Served net (codes "unix://csi/csi.sock") controller_servers none none
serve-Served_example =
    serve-Served net (codes "unix://csi/csi.sock") controller_servers none none net-KnowsNetworks
      served

-- ParseEndpoint accepts a protocol in upper case, at which no listener is opened.
upper_case_endpoint :
    serve net (codes "UNIX://csi/csi.sock") controller_servers none ≡ (err failed_to_listen, none)
unfolding serve parse_endpoint is_empty str_eq listen_at
upper_case_endpoint = refl

no_endpoint :
    serve net (codes "/csi/csi.sock") controller_servers none ≡ (err invalid_endpoint, none)
unfolding serve parse_endpoint
no_endpoint = refl

snapshot_hash : generate_hash_in_eight_bytes (codes "snapshot") ≡ codes "2aa38b8d"
unfolding generate_hash_in_eight_bytes
snapshot_hash = refl

empty_hash : generate_hash_in_eight_bytes [] ≡ codes "811c9dc5"
unfolding generate_hash_in_eight_bytes
empty_hash = refl

-- NodeGetInfo is entered after Probe, which ends first.
abbrev probe_entered : Info × Text × EntryTimes
probe_entered = entry_function (λ t. t ∷ []) 5 (codes "Probe") []
