-- ===== src/Rpc/Start/Endpoint.antt =====
-- ParseEndpoint of pkg/disk/rpcserver/server.go, and the printing of an endpoint.
use zenlayer_cloud_csi_drive.Prelude.{
  ◌≡◌, ◌↔◌, ◌⊎◌, refl, true, false, [], ◌∷◌, ◌++◌, some, arith, Text, codes, is_empty, drop,
  Bool-cases, Option-cases, inl, inr,
}
use zenlayer_cloud_csi_drive.Prelude.Lines.{has_prefix}
use zenlayer_cloud_csi_drive.Driver.StorageClass.Parameters.{to_lower}
use zenlayer_cloud_csi_drive.Rpc.Start.{separator, split_at, parse_endpoint}

has_prefix-drop : (s : Text) → has_prefix s separator ≡ true → separator ++ drop 3 s ≡ s
unfolding has_prefix
has_prefix-drop [] h = ground (arith, h)
has_prefix-drop (a ∷ []) h = ground (arith, h)
has_prefix-drop (a ∷ b ∷ []) h = ground (arith, h)
has_prefix-drop (a ∷ b ∷ c ∷ s) h = ground (arith, h)

split_at_sound : (s a b : Text) → split_at s ≡ some (a, b) → s ≡ a ++ separator ++ b
unfolding split_at
split_at_sound [] a b h = ground (arith, h)
split_at_sound (c ∷ s) a b h = elim (Bool-cases (has_prefix (c ∷ s) separator)) [
  | inl here ↦ ground (arith, h, here, has_prefix-drop (c ∷ s) here)
  | inr later ↦ elim (Option-cases (split_at s)) [
    | inl e ↦ ground (arith, h, later, e)
    | inr ((p, q), e) ↦ ground (arith, h, later, e, split_at_sound s p q e)
  ]
]

pub parse_endpoint_sound :
    (ep proto addr : Text)
    → parse_endpoint ep ≡ some (proto, addr)
    → (ep ≡ proto ++ separator ++ addr) × (is_empty addr ≡ false)
unfolding parse_endpoint
parse_endpoint_sound ep proto addr h = elim (Option-cases (split_at ep)) [
  | inl e ↦ ground (arith, h, e)
  | inr ((p, q), e) ↦ elim (Bool-cases (is_empty q)) [
    | inl bare ↦ ground (arith, h, e, bare)
    | inr full ↦ ground (arith, h, e, full, split_at_sound ep p q e)
  ]
]

-- The two protocols, as they are written in lower case.
parse_endpoint_unix :
    (addr : Text)
    → is_empty addr ≡ false
    → parse_endpoint (codes "unix" ++ separator ++ addr) ≡ some (codes "unix", addr)
unfolding parse_endpoint split_at has_prefix to_lower
parse_endpoint_unix addr full = rw full refl

parse_endpoint_tcp :
    (addr : Text)
    → is_empty addr ≡ false
    → parse_endpoint (codes "tcp" ++ separator ++ addr) ≡ some (codes "tcp", addr)
unfolding parse_endpoint split_at has_prefix to_lower
parse_endpoint_tcp addr full = rw full refl

-- For the protocols `unix` and `tcp`: an endpoint is parsed to the protocol and an address exactly if
-- it is the protocol, `://` and the address, and the address is not empty.
pub parse_endpoint_iff :
    (ep proto addr : Text)
    → (proto ≡ codes "unix") ⊎ (proto ≡ codes "tcp")
    → (parse_endpoint ep ≡ some (proto, addr))
      ↔ ((ep ≡ proto ++ separator ++ addr) × (is_empty addr ≡ false))
parse_endpoint_iff ep proto addr which = (
  parse_endpoint_sound ep proto addr,
  λ (written, full). elim which [
    | inl unix ↦ rw (written, unix) (parse_endpoint_unix addr full)
    | inr tcp ↦ rw (written, tcp) (parse_endpoint_tcp addr full)
  ],
)
