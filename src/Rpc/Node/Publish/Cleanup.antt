-- ===== src/Rpc/Node/Publish/Cleanup.antt =====
-- NodeUnpublishVolume and NodeUnstageVolume, for every identifier.
use zenlayer_cloud_csi_drive.Prelude.{◌≡◌, true, false, arith, Text, is_empty}
use zenlayer_cloud_csi_drive.Prelude.Act.{Act}
use zenlayer_cloud_csi_drive.Common.Lock.{has, try_acquire, release}
use zenlayer_cloud_csi_drive.Common.Lock.Laws.{delete-insert}
use zenlayer_cloud_csi_drive.Driver.Capability.{validate_node_service_request, stage_unstage_volume}
use zenlayer_cloud_csi_drive.Rpc.State.{
  Server, Code, code_for, on_world, with_lock, locked, internal,
}
use zenlayer_cloud_csi_drive.Rpc.Node.Requests.{NodeCleanupRequest}
use zenlayer_cloud_csi_drive.Rpc.Node.Server.{NodeServer, cleanup_key}
use zenlayer_cloud_csi_drive.Rpc.Node.Publish.{node_unpublish_volume}
use zenlayer_cloud_csi_drive.Rpc.Node.Stage.{check_stage, node_unstage_volume}

-- Under a free lock, a call does what it does without the lock.
with_lock-on_world :
    {E W A : Type 0} (key : Text) (c : Code) (m : Act E W A) (s : Server W)
    → has key s.locks.locks ≡ false
    → with_lock key (on_world c m) s
      ≡ (code_for c (m s.world).0, record s { world = (m s.world).1 })
unfolding with_lock locked try_acquire release
with_lock-on_world key c m s free = ground (arith, free, delete-insert key s.locks.locks free)

-- A clean-up is never blocked by its identifier: whatever the identifier is, of the driver or not, if
-- it and the path are not empty and nobody holds the lock on the disk of the identifier (on the
-- identifier itself if it is not of the driver), then NodeUnpublishVolume does to the path exactly
-- what CleanupMountPoint does: it answers without an error if that succeeds and with Internal if it
-- fails, leaves the world that it leaves, and gives the lock back. NodeUnstageVolume does the same,
-- on a driver that has the capability to stage.
pub cleanup_any :
    {W : Type 0} (ns : NodeServer W) (req : NodeCleanupRequest) (s : Server W)
    → is_empty req.volume_id ≡ false
    → is_empty req.path ≡ false
    → has (cleanup_key req.volume_id) s.locks.locks ≡ false
    → validate_node_service_request ns.driver stage_unstage_volume ≡ true
    → (node_unpublish_volume ns req s ≡ (
      code_for internal (ns.host.cleanup_mount_point req.path s.world).0,
      record s { world = (ns.host.cleanup_mount_point req.path s.world).1 },
    ))
      × (node_unstage_volume ns req s ≡ (
        code_for internal (ns.host.cleanup_mount_point req.path s.world).0,
        record s { world = (ns.host.cleanup_mount_point req.path s.world).1 },
      ))
unfolding node_unpublish_volume node_unstage_volume check_stage
cleanup_any ns req s named placed free able =
    let clean =
      with_lock-on_world (cleanup_key req.volume_id) internal (ns.host.cleanup_mount_point req.path)
        s free in
    (rw (placed, named) clean, rw (able, named, placed) clean)
