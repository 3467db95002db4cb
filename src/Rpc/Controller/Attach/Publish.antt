-- ===== src/Rpc/Controller/Attach/Publish.antt =====
-- What attaching does to the disks, for a cloud manager that the servers can rely on.
use zenlayer_cloud_csi_drive.Prelude.{
  ◌≡◌, refl, ap, subst, ◌∙◌, sym, ◌≢◌, false, not, Bool-cases, Option, some, Option-cases, inl, inr,
  arith, Text, str_eq, str_eq_iff, is_empty,
}
use zenlayer_cloud_csi_drive.Prelude.Result.{ok, Result-cases}
use zenlayer_cloud_csi_drive.Common.VolumeId.{parse_csi_vol_id}
use zenlayer_cloud_csi_drive.Driver.Capability.{
  publish_unpublish_volume, validate_volume_capability, validate_controller_service_request,
}
use zenlayer_cloud_csi_drive.Cloud.Types.{ZecVolume, vm_status_running}
use zenlayer_cloud_csi_drive.Cloud.Manager.Contract.{IsFaithful}
use zenlayer_cloud_csi_drive.Rpc.State.{
  Server, invalid_argument, not_found, internal, failed_precondition,
}
use zenlayer_cloud_csi_drive.Rpc.State.Runs.{
  require-eq-ok, some_or-eq-ok, on_world-eq-ok, with_lock-eq-ok,
}
use zenlayer_cloud_csi_drive.Rpc.State.Worlds.{Keeps, keeps}
use zenlayer_cloud_csi_drive.Rpc.Requests.{PublishRequest}
use zenlayer_cloud_csi_drive.Rpc.Controller.Server.{ControllerServer, check_capability}
use zenlayer_cloud_csi_drive.Rpc.Controller.Attach.{
  attach, attach_to, publish_locked, controller_publish_volume,
}

-- The disk is there and on the VM.
abbrev pub IsOn : Text → Option ZecVolume → Type 0
IsOn vm o = (v : ZecVolume) × (o ≡ some v) × (v.instance_id ≡ vm)

module _ {W : Type 0} (cs : ControllerServer W) (volume : W → Text → Option ZecVolume)
    (f : IsFaithful cs.cloud volume) where
  attach-IsOn :
      (id vm : Text) (s : Server W) {s' : Server W}
      → attach cs id vm s ≡ (ok tt, s')
      → IsOn vm (volume s'.world id)
  unfolding attach
  attach-IsOn id vm s h =
      let (u, attached, h1) = on_world-eq-ok internal (cs.cloud.attach_volume id vm) _ s h in
      let w = (cs.cloud.attach_volume id vm s.world).1 in
      let (o, read, h2) =
        on_world-eq-ok internal (cs.cloud.find_volume id) _ (record s { world = w }) h1 in
      let (v, there, h3) =
        some_or-eq-ok not_found o _ (record s { world = (cs.cloud.find_volume id w).1 }) h2 in
      (
        v,
        ground
            (arith, h3, f.looks id id w, f.finds id w o (cs.cloud.find_volume id w).1 read, there),
        ground (arith, h3, str_eq_iff v.instance_id vm),
      )

  -- The disk as the lookup tells it is the disk after the two lookups.
  told :
      (id vm : Text) (w : W) (o : Option ZecVolume)
      → cs.cloud.find_volume id w ≡ (ok o, (cs.cloud.find_volume id w).1)
      → volume (cs.cloud.get_vm_status vm (cs.cloud.find_volume id w).1).1 id ≡ o
  told id vm w o h =
      f.asks vm id (cs.cloud.find_volume id w).1
      ∙ f.looks id id w
      ∙ sym (f.finds id w o (cs.cloud.find_volume id w).1 h)

  attach_to-IsOn :
      (id vm : Text) (v : ZecVolume) (s s' : Server W)
      → volume s.world id ≡ some v
      → attach_to cs id vm v.instance_id s ≡ (ok tt, s')
      → IsOn vm (volume s'.world id)
  unfolding attach_to
  attach_to-IsOn id vm v s s' there h = elim (Bool-cases (is_empty v.instance_id)) [
    | inl g ↦ attach-IsOn id vm s {s' = s'} (ground (arith, g, h))
    | inr g ↦ (v, ground (arith, g, h, there), ground (arith, g, h, str_eq_iff v.instance_id vm))
  ]

  publish_locked-IsOn :
      (id vm : Text) (s : Server W) {s' : Server W}
      → publish_locked cs id vm s ≡ (ok tt, s')
      → IsOn vm (volume s'.world id)
  unfolding publish_locked
  publish_locked-IsOn id vm s h =
      let (o, read, h1) = on_world-eq-ok internal (cs.cloud.find_volume id) _ s h in
      let w = (cs.cloud.find_volume id s.world).1 in
      let (v, there, h2) = some_or-eq-ok not_found o _ (record s { world = w }) h1 in
      let (k, asked, h3) =
        on_world-eq-ok internal (cs.cloud.get_vm_status vm) _ (record s { world = w }) h2 in
      let t = record s { world = (cs.cloud.get_vm_status vm w).1 } in
      let (status, known, h4) = some_or-eq-ok not_found k _ t h3 in
      let (running, h5) =
        require-eq-ok (str_eq status vm_status_running) failed_precondition _ t h4 in
      attach_to-IsOn id vm v t _ (told id vm s.world o read ∙ there) h5

  -- If the disk is on a VM when the lock is taken, no disk changes.
  publish_locked_quiet :
      (id vm x : Text) (v : ZecVolume) (s : Server W)
      → volume s.world id ≡ some v
      → is_empty v.instance_id ≡ false
      → volume (publish_locked cs id vm s).1.world x ≡ volume s.world x
  unfolding publish_locked attach_to
  publish_locked_quiet id vm x v s there on =
      let w = (cs.cloud.find_volume id s.world).1 in
      let looks = f.looks id x s.world in
      let asks = f.asks vm x w in
      elim (Result-cases (cs.cloud.find_volume id s.world).0) [
        | inr (e, g) ↦ ground (arith, g, looks)
        | inl (o, g) ↦
            let same = f.finds id s.world o w (ground (arith, g)) ∙ there in
            elim (Result-cases (cs.cloud.get_vm_status vm w).0) [
              | inr (e, k) ↦ ground (arith, g, k, same, looks, asks)
              | inl (k, q) ↦ elim (Option-cases k) [
                | inl n ↦ ground (arith, g, q, n, same, looks, asks)
                | inr (status, n) ↦ ground (arith, g, q, n, same, on, looks, asks)
              ]
            ]
      ]

-- The world in which each disk is as in another world.
abbrev pub AsIn : {W : Type 0} → (W → Text → Option ZecVolume) → W → W → Type 0
AsIn volume w u = (x : Text) → volume u x ≡ volume w x

-- For a cloud manager that keeps the contract IsFaithful: if the identifier is one of the driver
-- and its disk is on a VM already, ControllerPublishVolume changes no disk, whatever it answers.
pub publish_quiet :
    {W : Type 0}
    → (cs : ControllerServer W) (volume : W → Text → Option ZecVolume) (req : PublishRequest)
      (s : Server W) (id serial : Text) (v : ZecVolume)
    → IsFaithful cs.cloud volume
    → parse_csi_vol_id req.volume_id ≡ some (id, serial)
    → volume s.world id ≡ some v
    → is_empty v.instance_id ≡ false
    → (x : Text) → volume (controller_publish_volume cs req s).1.world x ≡ volume s.world x
unfolding controller_publish_volume check_capability
publish_quiet {W} cs volume req s id serial v f p there on =
    let locked : (parts : Text × Text)
        → parse_csi_vol_id req.volume_id ≡ some parts
        → Keeps (AsIn volume s.world) (publish_locked cs (parts.0) req.node_id) =
      λ parts q. record {
        at = λ t h x.
            let same : parts.0 ≡ id = ground (arith, p, q) in
            publish_locked_quiet cs volume f (parts.0) req.node_id x v t
              (h (parts.0) ∙ ap (volume s.world) same ∙ there) on
            ∙ h x;
      } in
    let all : Keeps (AsIn volume s.world) (controller_publish_volume cs req) =
      search (keeps, locked) depth 30 in
    all.at s (λ x. refl)

-- For a cloud manager that keeps the contract IsFaithful: if ControllerPublishVolume answers
-- without an error, the identifier is one of the driver, and the disk that it names is there and
-- on the VM of the request.
pub publish-IsOn :
    {W : Type 0}
    → (cs : ControllerServer W) (volume : W → Text → Option ZecVolume) (req : PublishRequest)
      (s s' : Server W)
    → IsFaithful cs.cloud volume
    → controller_publish_volume cs req s ≡ (ok tt, s')
    → (id : Text) × (serial : Text) × (parse_csi_vol_id req.volume_id ≡ some (id, serial))
      × IsOn req.node_id (volume s'.world id)
unfolding controller_publish_volume check_capability
publish-IsOn cs volume req s s' f h =
    let (b0, h0) =
      require-eq-ok (validate_controller_service_request cs.driver publish_unpublish_volume) _ _ s
        h in
    let (b1, h1) = require-eq-ok (not (is_empty req.volume_id)) invalid_argument _ s h0 in
    let (b2, h2) = require-eq-ok (not (is_empty req.node_id)) invalid_argument _ s h1 in
    let (cap, c, h3) = some_or-eq-ok invalid_argument req.volume_capability _ s h2 in
    let (b4, h4) =
      require-eq-ok (validate_volume_capability cs.driver cap) invalid_argument _ s h3 in
    let (b5, h5) = require-eq-ok (not req.readonly) invalid_argument _ s h4 in
    let ((id, serial), p, h6) = some_or-eq-ok not_found (parse_csi_vol_id req.volume_id) _ s h5 in
    let (l, t, run, same) = with_lock-eq-ok id (publish_locked cs id req.node_id) s h6 in
    (
      id,
      serial,
      p,
      subst (λ w. IsOn req.node_id (volume w id)) same
          (publish_locked-IsOn cs volume f id req.node_id _ run),
    )

-- For a cloud manager that keeps the contract IsFaithful: if the identifier is one of the driver
-- and its disk is on another VM than that of the request, ControllerPublishVolume answers with an
-- error and changes no disk: a disk is never taken from a VM that has it.
pub publish_elsewhere :
    {W : Type 0}
    → (cs : ControllerServer W) (volume : W → Text → Option ZecVolume) (req : PublishRequest)
      (s : Server W) (id serial : Text) (v : ZecVolume)
    → IsFaithful cs.cloud volume
    → parse_csi_vol_id req.volume_id ≡ some (id, serial)
    → volume s.world id ≡ some v
    → is_empty v.instance_id ≡ false
    → v.instance_id ≢ req.node_id
    → ((controller_publish_volume cs req s).0 ≢ ok tt)
      × ((x : Text) → volume (controller_publish_volume cs req s).1.world x ≡ volume s.world x)
publish_elsewhere cs volume req s id serial v f p there on other =
    let quiet = publish_quiet cs volume req s id serial v f p there on in
    let r = controller_publish_volume cs req s in
    (
      λ good.
          let (i, n, q, (u, now, at)) = publish-IsOn cs volume req s r.1 f (ground (arith, good)) in
          let same : i ≡ id = ground (arith, p, q) in
          other (ground (arith, same, now, at, quiet id, there)),
      quiet,
    )
