-- ===== src/Rpc/Start/Serve/Services.antt =====
-- The services that serve registers.
use zenlayer_cloud_csi_drive.Prelude.{
  ℕ, ◌+◌, ◌↔◌, Option, length, refl, ◌≡◌, subst, sym, inl, inr, ◌++◌, some, none, arith,
}
use mathlib.Core.List.{Memᴰ}
use mathlib.Core.List.Memᴰ
use zenlayer_cloud_csi_drive.Rpc.Start.{Servers}
use zenlayer_cloud_csi_drive.Rpc.Start.Serve.{
  Service, identity, controller, node, registration, registered,
}

-- The service is that of a server that is not nil.
abbrev pub IsOf : {W : Type 0} → Servers W → Service W → Type 0
IsOf servers (identity i) = servers.identity_server ≡ some i
IsOf servers (controller c) = servers.controller_server ≡ some c
IsOf servers (node n) = servers.node_server ≡ some n

abbrev pub count : {A : Type 0} → Option A → ℕ
count none = 0
count (some a) = 1

pub registered-once :
    {W : Type 0} (servers : Servers W)
    → length (registered servers)
      ≡ count servers.identity_server + count servers.controller_server + count servers.node_server
unfolding registered
registered-once servers = ground arith

registration-mem :
    {W A : Type 0} (f : A → Service W) (o : Option A) (x : Service W)
    → Memᴰ x (registration f o)
    → (a : A) × (o ≡ some a) × (x ≡ f a)
registration-mem f none x m = absurd (Memᴰ.not-nil m)
registration-mem f (some a) x (Memᴰ.head e) = (a, refl, e)
registration-mem f (some a) x (Memᴰ.tail m) = absurd (Memᴰ.not-nil m)

mem-registration :
    {W A : Type 0} (f : A → Service W) (o : Option A) (a : A)
    → o ≡ some a
    → Memᴰ (f a) (registration f o)
mem-registration f o a e = rw e (Memᴰ.head refl)

IsOf-registered :
    {W : Type 0} (servers : Servers W) (x : Service W)
    → IsOf servers x
    → Memᴰ x (registered servers)
unfolding registered
IsOf-registered servers (identity i) e = Memᴰ.append_left (registration node servers.node_server) (
    Memᴰ.append_left (registration controller servers.controller_server)
      (mem-registration identity servers.identity_server i e))
IsOf-registered servers (controller c) e =
    Memᴰ.append_left (registration node servers.node_server) (
      Memᴰ.append_right (registration identity servers.identity_server)
        (mem-registration controller servers.controller_server c e))
IsOf-registered servers (node n) e =
    Memᴰ.append_right
      (registration identity servers.identity_server
        ++ registration controller servers.controller_server)
      (mem-registration node servers.node_server n e)

pub registered_complete :
    {W : Type 0} (servers : Servers W) (x : Service W)
    → Memᴰ x (registered servers) ↔ IsOf servers x
unfolding registered
registered_complete servers x = (
  λ m.
      elim (Memᴰ.append_cases
        (registration identity servers.identity_server
          ++ registration controller servers.controller_server)
        m) [
          | inr n ↦
              let (a, e, g) = registration-mem node servers.node_server x n in
              subst (IsOf servers) (sym g) e
          | inl l ↦ elim (Memᴰ.append_cases (registration identity servers.identity_server) l) [
            | inl i ↦
                let (a, e, g) = registration-mem identity servers.identity_server x i in
                subst (IsOf servers) (sym g) e
            | inr c ↦
                let (a, e, g) = registration-mem controller servers.controller_server x c in
                subst (IsOf servers) (sym g) e
          ]
        ],
  IsOf-registered servers x,
)
