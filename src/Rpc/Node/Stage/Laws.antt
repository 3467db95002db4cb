-- ===== src/Rpc/Node/Stage/Laws.antt =====
-- What NodeStageVolume has done when it answers without an error, and when it does nothing.
use zenlayer_cloud_csi_drive.Prelude.{
  ◌≡◌, ◌⊎◌, refl, subst, Bool, true, false, not, List, [], some, arith, Text, is_empty, Bool-cases,
  inl, inr,
}
use zenlayer_cloud_csi_drive.Prelude.Result.{ok, Result-cases}
use zenlayer_cloud_csi_drive.Common.Mount.{format_and_mount, used_options}
use zenlayer_cloud_csi_drive.Common.Mount.Success.{format_and_mount_mounted}
use zenlayer_cloud_csi_drive.Common.VolumeId.{parse_csi_vol_id}
use zenlayer_cloud_csi_drive.Driver.Capability.{
  VolumeCapability, MountVolume, is_block, get_mount, validate_node_service_request,
  stage_unstage_volume, mount,
}
use zenlayer_cloud_csi_drive.Host.Contract.{TellsMounts}
use zenlayer_cloud_csi_drive.Rpc.State.{
  Server, on_world, with_lock, internal, not_found, invalid_argument, unimplemented,
}
use zenlayer_cloud_csi_drive.Rpc.State.Runs.{
  require-eq-ok, some_or-eq-ok, on_world-eq-ok, on_world_last, with_lock-eq-ok,
}
use zenlayer_cloud_csi_drive.Rpc.Node.Requests.{NodeStageRequest}
use zenlayer_cloud_csi_drive.Rpc.Node.Devices.{check_fs_type, get_dev_path_by_serial}
use zenlayer_cloud_csi_drive.Rpc.Node.Mounts.{not_mounted, or_made, resize_if_needed, grow}
use zenlayer_cloud_csi_drive.Rpc.Node.Server.{NodeServer, fs_type_of}
use zenlayer_cloud_csi_drive.Rpc.Node.Stage.{
  check_stage, mount_options, format_and_grow, mount_device, unless_mounted, stage_locked,
  stage_parsed, node_stage_volume,
}

module _ {W : Type 0} (ns : NodeServer W) (MountedAt : W → Text → Text → List Text → Type 0)
    (c : TellsMounts ns.host MountedAt) where
  -- The device with the serial is mounted at the path, with the flags that the gates let through.
  pub record Staged (path serial : Text) (m : MountVolume) (before w : W) : Type 0 where
    pub device : Text
    pub named : (get_dev_path_by_serial ns.host serial before).0 ≡ ok device
    pub there : MountedAt w path device (used_options (mount_options ns m))

  resize_if_needed-MountedAt :
      (device path t s : Text) (o : List Text) (w : W)
      → MountedAt w t s o
      → MountedAt (resize_if_needed ns.host device path w).1 t s o
  unfolding resize_if_needed grow
  resize_if_needed-MountedAt device path t s o w there =
      let looked = c.mounted-need_resize device path t s o w there in
      let next = (ns.host.need_resize device path w).1 in
      elim (Result-cases (ns.host.need_resize device path w).0) [
        | inl (need, g) ↦ elim (Bool-cases need) [
          | inl yes_ ↦ elim (Result-cases (ns.host.resize device path next).0) [
            | inl (b, r) ↦ rw (g, yes_, r) (c.mounted-resize device path t s o next looked)
            | inr (x, r) ↦ rw (g, yes_, r) (c.mounted-resize device path t s o next looked)
          ]
          | inr no_ ↦ rw (g, no_) looked
        ]
        | inr (x, g) ↦ rw g looked
      ]

  format_and_grow-MountedAt :
      (req : NodeStageRequest) (m : MountVolume) (device : Text) (s s' : Server W)
      → format_and_grow ns req m device s ≡ (ok tt, s')
      → MountedAt s'.world req.staging_target_path device (used_options (mount_options ns m))
  unfolding format_and_grow
  format_and_grow-MountedAt req m device s s' g =
      let path = req.staging_target_path in
      let mounting =
        format_and_mount ns.host device path (fs_type_of (some m)) [] (mount_options ns m) false in
      let growing = resize_if_needed ns.host device path in
      let (u, formatted, last) =
        on_world-eq-ok internal mounting (λ (u : Unit {0}). on_world internal growing) s g in
      let there =
        format_and_mount_mounted ns.host MountedAt c device path (fs_type_of (some m)) []
          (mount_options ns m) false s.world (mounting s.world).1 formatted in
      let done = on_world_last internal growing (record s { world = (mounting s.world).1 }) last in
      subst (λ w. MountedAt w path device (used_options (mount_options ns m)))
        (ground (arith, done))
        (resize_if_needed-MountedAt device path path device (used_options (mount_options ns m))
          (mounting s.world).1 there)

  mount_device-Staged :
      (req : NodeStageRequest) (m : MountVolume) (serial : Text) (s s' : Server W)
      → mount_device ns req m serial s ≡ (ok tt, s')
      → Staged req.staging_target_path serial m s.world s'.world
  unfolding mount_device
  mount_device-Staged req m serial s s' g =
      let (device, named, rest) =
        on_world-eq-ok not_found (get_dev_path_by_serial ns.host serial) (format_and_grow ns req m)
          s g in
      record {
        device = device;
        named = ground (arith, named);
        there = format_and_grow-MountedAt req m device _ s' rest;
      }

  -- A path that is not there was not mounted.
  asked_first :
      (path : Text) (w : W)
      → (not_mounted ns.host path w).0 ≡ ok false
      → (ns.host.is_likely_not_mount_point path w).0 ≡ ok false
  unfolding not_mounted or_made
  asked_first path w g = elim (Result-cases (ns.host.is_likely_not_mount_point path w).0) [
    | inl (b, r) ↦ ground (arith, r, g)
    | inr (x, r) ↦ ground (arith, r, g)
  ]

  unless_mounted-Staged :
      (req : NodeStageRequest) (m : MountVolume) (serial : Text) (absent : Bool) (s s' : Server W)
      → unless_mounted ns req m serial absent s ≡ (ok tt, s')
      → (absent ≡ false) ⊎ Staged req.staging_target_path serial m s.world s'.world
  unfolding unless_mounted
  unless_mounted-Staged req m serial true s s' g = inr (mount_device-Staged req m serial s s' g)
  unless_mounted-Staged req m serial false s s' g = inl refl

  stage_locked-Staged :
      (req : NodeStageRequest) (cap : VolumeCapability) (m : MountVolume) (serial : Text)
      (s s' : Server W)
      → get_mount cap ≡ some m
      → stage_locked ns req cap serial s ≡ (ok tt, s')
      → ((ns.host.is_likely_not_mount_point req.staging_target_path s.world).0 ≡ ok false)
        ⊎ Staged req.staging_target_path serial m
            (not_mounted ns.host req.staging_target_path s.world).1
            s'.world
  unfolding stage_locked
  stage_locked-Staged req cap m serial s s' has g =
      let path = req.staging_target_path in
      let (n, same, rest) = some_or-eq-ok invalid_argument (get_mount cap) _ s g in
      let (fits, asked) =
        require-eq-ok (check_fs_type (fs_type_of (some n))) invalid_argument _ s rest in
      let (absent, answered, last) =
        on_world-eq-ok internal (not_mounted ns.host path) (unless_mounted ns req n serial) s
          asked in
      let agree : n ≡ m = ground (arith, has, same) in
      elim (unless_mounted-Staged req n serial absent _ s' last) [
        | inl no_ ↦ inl (asked_first path s.world (ground (arith, answered, no_)))
        | inr staged ↦ inr (
            subst (λ x. Staged path serial x (not_mounted ns.host path s.world).1 s'.world) agree
              staged)
      ]

-- If NodeStageVolume answers without an error, for an identifier of the driver and a capability with a
-- file system, then its path was a mount point before, or the device with the serial of the
-- identifier is mounted there, with the mount flags of the request if the feature gate is on and
-- with `defaults` if there are none: by the first mount, or after mkfs. A mount that succeeds is
-- taken to mount its source, and NeedResize and Resize to leave the mounts alone.
pub node_stage-Staged :
    {W : Type 0} (ns : NodeServer W) (MountedAt : W → Text → Text → List Text → Type 0)
    (c : TellsMounts ns.host MountedAt) (req : NodeStageRequest) (cap : VolumeCapability)
    (m : MountVolume) (id serial : Text) (s s' : Server W)
    → parse_csi_vol_id req.volume_id ≡ some (id, serial)
    → req.volume_capability ≡ some cap
    → cap.access_type ≡ some (mount m)
    → node_stage_volume ns req s ≡ (ok tt, s')
    → ((ns.host.is_likely_not_mount_point req.staging_target_path s.world).0 ≡ ok false)
      ⊎ Staged ns MountedAt c req.staging_target_path serial m
          (not_mounted ns.host req.staging_target_path s.world).1
          s'.world
unfolding node_stage_volume check_stage stage_parsed is_block get_mount
node_stage-Staged ns MountedAt c req cap m id serial s s' named has typed g =
    let (able, g1) =
      require-eq-ok (validate_node_service_request ns.driver stage_unstage_volume) unimplemented _ s
        g in
    let (p, g2) = require-eq-ok (not (is_empty req.volume_id)) invalid_argument _ s g1 in
    let (q, g3) = require-eq-ok (not (is_empty req.staging_target_path)) invalid_argument _ s g2 in
    let (cap', same_cap, g4) = some_or-eq-ok invalid_argument req.volume_capability _ s g3 in
    let (parts, same_parts, g5) =
      some_or-eq-ok not_found (parse_csi_vol_id req.volume_id) (stage_parsed ns req cap') s g4 in
    let g6 : stage_parsed ns req cap (id, serial) s ≡ (ok tt, s') =
      ground (arith, g5, same_cap, same_parts, has, named) in
    let g7 : with_lock id (stage_locked ns req cap serial) s ≡ (ok tt, s') =
      ground (arith, g6, typed) in
    let (l, t, g8, last) = with_lock-eq-ok id (stage_locked ns req cap serial) s g7 in
    elim (stage_locked-Staged ns MountedAt c req cap m serial (record s { locks = l }) t
      (rw typed refl) g8) [
        | inl before ↦ inl before
        | inr staged ↦ inr (
            subst
              (Staged ns MountedAt c req.staging_target_path serial m
                (not_mounted ns.host req.staging_target_path s.world).1)
              last staged)
      ]
