-- ===== src/Rpc/Node/Stage/Quiet.antt =====
-- NodeStageVolume for a path that is mounted.
use zenlayer_cloud_csi_drive.Prelude.{◌≡◌, refl, Bool, true, false, some, arith, Text}
use zenlayer_cloud_csi_drive.Prelude.Result.{ok}
use zenlayer_cloud_csi_drive.Driver.Capability.{VolumeCapability, MountVolume, get_mount}
use zenlayer_cloud_csi_drive.Rpc.State.{Server, internal, invalid_argument}
use zenlayer_cloud_csi_drive.Rpc.State.Worlds.{
  Keeps, keeps, Keeps-on_world_then, Keeps-some_or, Keeps-bind, Keeps-require,
}
use zenlayer_cloud_csi_drive.Rpc.Node.Requests.{NodeStageRequest}
use zenlayer_cloud_csi_drive.Rpc.Node.Devices.{check_fs_type}
use zenlayer_cloud_csi_drive.Rpc.Node.Mounts.{not_mounted, or_made}
use zenlayer_cloud_csi_drive.Rpc.Node.Server.{NodeServer, fs_type_of}
use zenlayer_cloud_csi_drive.Rpc.Node.Stage.{
  check_stage, unless_mounted, stage_locked, stage_parsed, node_stage_volume,
}

module _ {W : Type 0} (ns : NodeServer W) (P : W → Type 0) (req : NodeStageRequest) where
  -- The checks before the lock and the lock itself do not act on the world.
  stage_parsed-Keeps :
      (cap : VolumeCapability) (p : Text × Text)
      → ((serial : Text) → Keeps P (stage_locked ns req cap serial))
      → Keeps P (stage_parsed ns req cap p)
  unfolding stage_parsed
  stage_parsed-Keeps cap (id, serial) k = search (keeps, k) depth 10

  pub node_stage-Keeps :
      ((cap : VolumeCapability) (serial : Text) → Keeps P (stage_locked ns req cap serial))
      → Keeps P (node_stage_volume ns req)
  unfolding node_stage_volume check_stage
  node_stage-Keeps k = search (keeps, stage_parsed-Keeps, k) depth 20

module _ {W : Type 0} (ns : NodeServer W) (req : NodeStageRequest) (w : W)
    (mounted : ns.host.is_likely_not_mount_point req.staging_target_path w ≡ (ok false, w)) where
  not_mounted_quiet : not_mounted ns.host req.staging_target_path w ≡ (ok false, w)
  unfolding not_mounted or_made
  not_mounted_quiet = rw mounted refl

  unless_mounted_quiet :
      (m : MountVolume) (serial : Text) (absent : Bool)
      → absent ≡ false
      → Keeps (λ v. v ≡ w) (unless_mounted ns req m serial absent)
  unfolding unless_mounted
  unless_mounted_quiet m serial true no_ = record { at = λ s h. ground (arith, no_) }
  unless_mounted_quiet m serial false no_ = record { at = λ s h. h }

  answers_no :
      (v : W) (absent : Bool)
      → v ≡ w
      → (not_mounted ns.host req.staging_target_path v).0 ≡ ok absent
      → absent ≡ false
  answers_no v absent same said = ground (arith, not_mounted_quiet)

  stage_locked_quiet :
      (cap : VolumeCapability) (serial : Text) → Keeps (λ v. v ≡ w) (stage_locked ns req cap serial)
  unfolding stage_locked
  stage_locked_quiet cap serial =
      let P : W → Type 0 = λ v. v ≡ w in
      Keeps-some_or P invalid_argument (get_mount cap) _ (λ m has.
        Keeps-bind P _ _ (Keeps-require P (check_fs_type (fs_type_of (some m))) invalid_argument)
          (λ u.
            Keeps-on_world_then P internal (not_mounted ns.host req.staging_target_path)
              (unless_mounted ns req m serial) (λ v same. ground (arith, not_mounted_quiet))
              (λ v absent same said.
                unless_mounted_quiet m serial absent (answers_no v absent same said))))

-- Staging again does nothing: if the path of the request is a mount point, NodeStageVolume leaves the
-- world as it is, whatever it answers: it formats, mounts and resizes nothing, and makes no directory.
-- IsLikelyNotMountPoint is taken to answer without a change of the world.
pub node_stage_quiet :
    {W : Type 0} (ns : NodeServer W) (req : NodeStageRequest) (s : Server W)
    → ns.host.is_likely_not_mount_point req.staging_target_path s.world ≡ (ok false, s.world)
    → (node_stage_volume ns req s).1.world ≡ s.world
node_stage_quiet ns req s mounted =
    (node_stage-Keeps ns (λ v. v ≡ s.world) req (stage_locked_quiet ns req s.world mounted)).at s
      refl
