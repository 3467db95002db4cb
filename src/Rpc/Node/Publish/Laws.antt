-- ===== src/Rpc/Node/Publish/Laws.antt =====
-- What NodePublishVolume has done when it answers without an error.
use zenlayer_cloud_csi_drive.Prelude.{
  ◌≡◌, ◌⊎◌, refl, ap, subst, Bool, true, false, not, List, some, arith, Text, is_empty,
  if◌then◌else◌, Bool-cases, inl, inr,
}
use zenlayer_cloud_csi_drive.Prelude.Result.{ok}
use zenlayer_cloud_csi_drive.Rpc.Node.Publish.Modes.{
  pieces, read_only_after, active_flags, bind_options-mode,
}
use zenlayer_cloud_csi_drive.Common.VolumeId.{parse_csi_vol_id}
use zenlayer_cloud_csi_drive.Driver.Capability.{
  VolumeCapability, is_block, get_mount, validate_volume_capability,
}
use zenlayer_cloud_csi_drive.Host.Contract.{TellsMounts}
use zenlayer_cloud_csi_drive.Rpc.State.{
  Server, on_world, with_lock, internal, not_found, invalid_argument, failed_precondition,
}
use zenlayer_cloud_csi_drive.Rpc.State.Runs.{
  require-eq-ok, some_or-eq-ok, on_world-eq-ok, on_world_last, with_lock-eq-ok, proceed-eq-ok,
}
use zenlayer_cloud_csi_drive.Rpc.Node.Requests.{NodePublishRequest}
use zenlayer_cloud_csi_drive.Rpc.Node.Devices.{
  check_fs_type, get_dev_path_by_serial, create_target_mount_path_if_not_exists,
}
use zenlayer_cloud_csi_drive.Rpc.Node.Mounts.{already_mounted}
use zenlayer_cloud_csi_drive.Rpc.Node.Server.{NodeServer, fs_type_of}
use zenlayer_cloud_csi_drive.Rpc.Node.Publish.{
  bind_options, source_of, bind_mount, publish_locked, node_publish_volume,
}

module _ {W : Type 0} (ns : NodeServer W) where
  -- The world once the source is known.
  abbrev pub after_source : VolumeCapability → Text → W → W
  after_source v serial w = if is_block v then (get_dev_path_by_serial ns.host serial w).1 else w

  -- The world once the target is there, in which it is asked whether it is mounted.
  abbrev pub ready : NodePublishRequest → VolumeCapability → Text → W → W
  ready req v serial w =
      (create_target_mount_path_if_not_exists ns.host req.target_path (is_block v)
        (after_source v serial w)).1

  source_of-after_source :
      (req : NodePublishRequest) (v : VolumeCapability) (serial : Text) (s : Server W)
      → (source_of ns req v serial s).1.world ≡ after_source v serial s.world
  unfolding source_of
  source_of-after_source req v serial s = elim (Bool-cases (is_block v)) [
    | inl block ↦ rw block refl
    | inr file ↦ rw file refl
  ]

module _ {W : Type 0} (ns : NodeServer W) (MountedAt : W → Text → Text → List Text → Type 0)
    (c : TellsMounts ns.host MountedAt) where
  -- The path is a mount point already, or the call has mounted the source there. The source is the
  -- device with the serial for a block device, the staging path for a file system. The mode of the
  -- options is that of the mount flags that take part, and where they say nothing of it, the one that
  -- the request asks for.
  pub record Published (req : NodePublishRequest) (cap : VolumeCapability) (serial : Text)
      (w w' : W) : Type 0 where
    pub source : Text
    pub options : List Text
    pub from :
        ((is_block cap ≡ true) × ((get_dev_path_by_serial ns.host serial w).0 ≡ ok source))
        ⊎ ((is_block cap ≡ false) × (source ≡ req.staging_target_path))
    pub there :
        ((already_mounted ns.host (is_block cap) req.target_path (ready ns req cap serial w)).0
          ≡ ok true)
        ⊎ MountedAt w' req.target_path source options
    pub mode :
        read_only_after false (pieces options)
        ≡ read_only_after req.readonly (pieces (active_flags ns.feature_gates (get_mount cap)))

  source_of-named :
      (req : NodePublishRequest) (cap : VolumeCapability) (serial source : Text) (s t : Server W)
      → source_of ns req cap serial s ≡ (ok source, t)
      → ((is_block cap ≡ true) × ((get_dev_path_by_serial ns.host serial s.world).0 ≡ ok source))
        ⊎ ((is_block cap ≡ false) × (source ≡ req.staging_target_path))
  unfolding source_of
  source_of-named req cap serial source s t g = elim (Bool-cases (is_block cap)) [
    | inl block ↦
        let asked : on_world not_found (get_dev_path_by_serial ns.host serial) s ≡ (ok source, t) =
          rw block at g in
        inl (
          block,
          ap (λ p. p.0) (on_world_last not_found (get_dev_path_by_serial ns.host serial) s asked),
        )
    | inr file ↦ inr (file, ground (arith, g, file))
  ]

  bind_mount-there :
      (req : NodePublishRequest) (cap : VolumeCapability) (source : Text) (there : Bool)
      (s s' : Server W)
      → bind_mount ns req cap source there s ≡ (ok tt, s')
      → (there ≡ true)
        ⊎ MountedAt s'.world req.target_path source
            (bind_options ns.feature_gates req.readonly (get_mount cap))
  unfolding bind_mount
  bind_mount-there req cap source true s s' g = inl refl
  bind_mount-there req cap source false s s' g =
      let options = bind_options ns.feature_gates req.readonly (get_mount cap) in
      let done =
        on_world_last internal
          (ns.host.mount source req.target_path (fs_type_of (get_mount cap)) options) s g in
      inr (
        c.mounted source req.target_path (fs_type_of (get_mount cap)) options s.world s'.world done)

  publish_locked-Published :
      (req : NodePublishRequest) (cap : VolumeCapability) (serial : Text) (s s' : Server W)
      → publish_locked ns req cap serial s ≡ (ok tt, s')
      → Published req cap serial s.world s'.world
  unfolding publish_locked
  publish_locked-Published req cap serial s s' g =
      let gates = ns.feature_gates in
      let (source, named, g1) =
        proceed-eq-ok _ (source_of ns req cap serial s).0 (source_of ns req cap serial s).1 g in
      let (fits, g2) =
        require-eq-ok (check_fs_type (fs_type_of (get_mount cap))) invalid_argument _ _ g1 in
      let (made, done, g3) =
        on_world-eq-ok internal
          (create_target_mount_path_if_not_exists ns.host req.target_path (is_block cap)) _ _ g2 in
      let (there, asked, g4) =
        on_world-eq-ok internal (already_mounted ns.host (is_block cap) req.target_path)
          (bind_mount ns req cap source) _ g3 in
      record {
        source = source;
        options = bind_options gates req.readonly (get_mount cap);
        from =
            source_of-named req cap serial source s (source_of ns req cap serial s).1
              (ap (λ r. (r, (source_of ns req cap serial s).1)) named);
        there = elim (bind_mount-there req cap source there _ s' g4) [
          | inl yes_ ↦ inl (
              rw (ready, ← source_of-after_source ns req cap serial s)
                (ground (arith, asked, yes_)))
          | inr mounted ↦ inr mounted
        ];
        mode = bind_options-mode gates req.readonly (get_mount cap);
      }

-- If NodePublishVolume answers without an error, for an identifier of the driver, then its target was
-- found to be mounted, from whatever source, or is mounted now: from the device with the serial of the
-- identifier for a block device, from the staging path for a file system. The options of the mount, of
-- which the last one on the mode wins, make it read-only exactly if the request, and after it the mount
-- flags that take part, say so: a read-only request is mounted read-only unless the feature gate is on
-- and a mount flag asks for `rw` or `defaults`. A mount that succeeds is taken to mount its source with
-- its options.
pub node_publish-Published :
    {W : Type 0} (ns : NodeServer W) (MountedAt : W → Text → Text → List Text → Type 0)
    (c : TellsMounts ns.host MountedAt) (req : NodePublishRequest) (v : VolumeCapability)
    (id serial : Text) (s s' : Server W)
    → parse_csi_vol_id req.volume_id ≡ some (id, serial)
    → req.volume_capability ≡ some v
    → node_publish_volume ns req s ≡ (ok tt, s')
    → Published ns MountedAt c req v serial s.world s'.world
unfolding node_publish_volume
node_publish-Published ns MountedAt c req v id serial s s' named has g =
    let (p, g1) = require-eq-ok (not (is_empty req.volume_id)) invalid_argument _ s g in
    let (q, g2) = require-eq-ok (not (is_empty req.target_path)) invalid_argument _ s g1 in
    let (v', same, g3) = some_or-eq-ok invalid_argument req.volume_capability _ s g2 in
    let (fit, g4) =
      require-eq-ok (validate_volume_capability ns.driver v') failed_precondition _ s g3 in
    let (r, g5) =
      require-eq-ok (not (is_empty req.staging_target_path)) failed_precondition _ s g4 in
    let (parts, shape, g6) =
      some_or-eq-ok not_found (parse_csi_vol_id req.volume_id)
        (λ parts. with_lock (parts.0) (publish_locked ns req v' (parts.1))) s g5 in
    let g7 : with_lock id (publish_locked ns req v serial) s ≡ (ok tt, s') =
      ground (arith, g6, same, shape, has, named) in
    let (l, t, g8, last) = with_lock-eq-ok id (publish_locked ns req v serial) s g7 in
    subst (Published ns MountedAt c req v serial s.world) last
      (publish_locked-Published ns MountedAt c req v serial (record s { locks = l }) t g8)
