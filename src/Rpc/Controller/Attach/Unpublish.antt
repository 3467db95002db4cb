-- ===== src/Rpc/Controller/Attach/Unpublish.antt =====
-- What detaching does to the disks, for a cloud manager that the servers can rely on.
use zenlayer_cloud_csi_drive.Prelude.{
  ◌≡◌, refl, ap, subst, ◌∙◌, sym, ◌≢◌, false, not, Bool-cases, Option, none, some, ◌⊎◌, inl, inr,
  arith, Text, str_eq, str_eq_iff, is_empty,
}
use zenlayer_cloud_csi_drive.Prelude.Result.{ok, Result-cases}
use zenlayer_cloud_csi_drive.Common.VolumeId.{parse_csi_vol_id}
use zenlayer_cloud_csi_drive.Driver.Capability.{
  publish_unpublish_volume, validate_controller_service_request,
}
use zenlayer_cloud_csi_drive.Cloud.Types.{ZecVolume, disk_status_available}
use zenlayer_cloud_csi_drive.Cloud.Manager.Contract.{IsFaithful}
use zenlayer_cloud_csi_drive.Rpc.State.{Server, invalid_argument, internal}
use zenlayer_cloud_csi_drive.Rpc.State.Runs.{require-eq-ok, on_world-eq-ok, with_lock-eq-ok}
use zenlayer_cloud_csi_drive.Rpc.State.Worlds.{Keeps, keeps, Keeps-bind, Keeps-require}
use zenlayer_cloud_csi_drive.Rpc.Requests.{UnpublishRequest}
use zenlayer_cloud_csi_drive.Rpc.Controller.Server.{ControllerServer, check_capability}
use zenlayer_cloud_csi_drive.Rpc.Controller.Attach.Publish.{AsIn}
use zenlayer_cloud_csi_drive.Rpc.Controller.Attach.{
  detach_from, unpublish_locked, unpublish_parsed, controller_unpublish_volume,
}

-- The disk does not stand on the VM with the attachment in force: it is gone, on another VM or on
-- none, or AVAILABLE.
abbrev pub IsOff : Text → Option ZecVolume → Type 0
IsOff vm o =
    (o ≡ none)
    ⊎ ((v : ZecVolume) × (o ≡ some v) × ((v.instance_id ≢ vm) ⊎ (v.status ≡ disk_status_available)))

module _ {W : Type 0} (cs : ControllerServer W) (volume : W → Text → Option ZecVolume)
    (f : IsFaithful cs.cloud volume) where
  detach_from-IsOff :
      (id vm : Text) (o : Option ZecVolume) (s : Server W) (s' : Server W)
      → is_empty vm ≡ false
      → o ≡ volume s.world id
      → detach_from cs id vm o s ≡ (ok tt, s')
      → IsOff vm (volume s'.world id)
  unfolding detach_from
  detach_from-IsOff id vm none s s' n there h = inl (ground (arith, there, h))
  detach_from-IsOff id vm (some v) s s' n there h = elim (Bool-cases (str_eq v.instance_id vm)) [
    | inl on ↦
        let same : v.instance_id ≡ vm = (str_eq_iff v.instance_id vm).0 on in
        let somewhere : is_empty v.instance_id ≡ false = ap is_empty same ∙ n in
        let r = cs.cloud.detach_volume id s.world in
        let (u, now, st) = f.detaches id s.world r.1 (ground (arith, on, somewhere, h)) in
        inr (u, ground (arith, now, on, somewhere, h), inr st)
    | inr off ↦ inr (
      v,
      ground (arith, off, there, h),
      inl (λ same. ground (arith, off, str_eq_iff v.instance_id vm, same)),
    )
  ]

  unpublish_parsed-IsOff :
      (vm : Text) (s s' : Server W) (id serial : Text)
      → is_empty vm ≡ false
      → unpublish_parsed cs vm (some (id, serial)) s ≡ (ok tt, s')
      → IsOff vm (volume s'.world id)
  unfolding unpublish_parsed unpublish_locked
  unpublish_parsed-IsOff vm s s' id serial n h =
      let (l, t, run, same) = with_lock-eq-ok id (unpublish_locked cs id vm) s h in
      let w = cs.cloud.find_volume id s.world in
      let (o, read, h1) =
        on_world-eq-ok internal (cs.cloud.find_volume id) (detach_from cs id vm)
          (record s { locks = l }) run in
      subst (λ u. IsOff vm (volume u id)) same
        (detach_from-IsOff id vm o (record { locks = l; world = w.1 }) t n
          (f.finds id s.world o w.1 read ∙ sym (f.looks id id s.world)) h1)

  unpublish_locked_quiet :
      (id vm x : Text) (v : ZecVolume) (s : Server W)
      → volume s.world id ≡ some v
      → str_eq v.instance_id vm ≡ false
      → volume (unpublish_locked cs id vm s).1.world x ≡ volume s.world x
  unfolding unpublish_locked detach_from
  unpublish_locked_quiet id vm x v s there off =
      let w = (cs.cloud.find_volume id s.world).1 in
      let looks = f.looks id x s.world in
      elim (Result-cases (cs.cloud.find_volume id s.world).0) [
        | inr (e, g) ↦ ground (arith, g, looks)
        | inl (o, g) ↦
            let same = f.finds id s.world o w (ground (arith, g)) ∙ there in
            ground (arith, g, same, off, looks)
      ]

  unpublish_parsed-Keeps :
      (P : W → Type 0) (vm id serial : Text)
      → Keeps P (unpublish_locked cs id vm)
      → Keeps P (unpublish_parsed cs vm (some (id, serial)))
  unfolding unpublish_parsed
  unpublish_parsed-Keeps P vm id serial k = search (keeps, k)

  unpublish-Keeps :
      (P : W → Type 0) (req : UnpublishRequest)
      → Keeps P (unpublish_parsed cs req.node_id (parse_csi_vol_id req.volume_id))
      → Keeps P (controller_unpublish_volume cs req)
  unfolding controller_unpublish_volume check_capability
  unpublish-Keeps P req k = search (Keeps-bind, Keeps-require) depth 20

-- For a cloud manager that keeps the contract IsFaithful: if ControllerUnpublishVolume answers
-- without an error and the identifier is one of the driver, the disk that it names is gone, not
-- on the VM of the request, or AVAILABLE.
pub unpublish-IsOff :
    {W : Type 0}
    → (cs : ControllerServer W) (volume : W → Text → Option ZecVolume) (req : UnpublishRequest)
      (s s' : Server W) (id serial : Text)
    → IsFaithful cs.cloud volume
    → parse_csi_vol_id req.volume_id ≡ some (id, serial)
    → controller_unpublish_volume cs req s ≡ (ok tt, s')
    → IsOff req.node_id (volume s'.world id)
unfolding controller_unpublish_volume check_capability
unpublish-IsOff cs volume req s s' id serial f p h =
    let (b0, h0) =
      require-eq-ok (validate_controller_service_request cs.driver publish_unpublish_volume) _ _ s
        h in
    let (b1, h1) = require-eq-ok (not (is_empty req.volume_id)) invalid_argument _ s h0 in
    let (b2, h2) = require-eq-ok (not (is_empty req.node_id)) invalid_argument _ s h1 in
    unpublish_parsed-IsOff cs volume f req.node_id s s' id serial (ground arith)
      (ap (λ o. unpublish_parsed cs req.node_id o s) (sym p) ∙ h2)

-- For a cloud manager that keeps the contract IsFaithful: if the identifier is one of the driver
-- and its disk is on another VM than that of the request, or on none, ControllerUnpublishVolume
-- changes no disk, whatever it answers.
pub unpublish_quiet :
    {W : Type 0}
    → (cs : ControllerServer W) (volume : W → Text → Option ZecVolume) (req : UnpublishRequest)
      (s : Server W) (id serial : Text) (v : ZecVolume)
    → IsFaithful cs.cloud volume
    → parse_csi_vol_id req.volume_id ≡ some (id, serial)
    → volume s.world id ≡ some v
    → v.instance_id ≢ req.node_id
    → (x : Text) → volume (controller_unpublish_volume cs req s).1.world x ≡ volume s.world x
unpublish_quiet {W} cs volume req s id serial v f p there other =
    let locked : Keeps (AsIn volume s.world) (unpublish_locked cs id req.node_id) = record {
      at = λ t h x.
          unpublish_locked_quiet cs volume f id req.node_id x v t (h id ∙ there)
            (ground (arith, other, str_eq_iff v.instance_id req.node_id))
          ∙ h x;
    } in
    let parsed : Keeps (AsIn volume s.world)
        (unpublish_parsed cs req.node_id (parse_csi_vol_id req.volume_id)) =
      subst (λ o. Keeps (AsIn volume s.world) (unpublish_parsed cs req.node_id o)) (sym p)
        (unpublish_parsed-Keeps cs volume f (AsIn volume s.world) req.node_id id serial locked) in
    (unpublish-Keeps cs volume f (AsIn volume s.world) req parsed).at s (λ x. refl)
