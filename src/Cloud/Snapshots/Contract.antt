-- ===== src/Cloud/Snapshots/Contract.antt =====
-- What the controller service relies on of the snapshots of the cloud manager, and that the manager
-- of pkg/cloud/cloud_manager.go provides it.
use zenlayer_cloud_csi_drive.Prelude.{◌≡◌, ap, ◌∙◌, [], Option, none, some, Text}
use mathlib.Core.Option
use zenlayer_cloud_csi_drive.Prelude.Result.{ok}
use zenlayer_cloud_csi_drive.Cloud.Client.{SnapshotInfo, ZecClient, ZecCloudManager}
use zenlayer_cloud_csi_drive.Cloud.Types.{
  ZecVolumeSnap, zec_volume_snap_of, or_initial, snap_status_available,
}
use zenlayer_cloud_csi_drive.Cloud.Snapshots.Outcome.{
  TellsSnapshots, IsReady, find_snapshot-eq-ok, create_snapshot-IsReady, delete_snapshot-gone,
}
use zenlayer_cloud_csi_drive.Cloud.Manager.{CloudManager, zec_cloud_manager}

-- The snapshot of the identifier is there, AVAILABLE, and of the disk.
abbrev pub IsReadyOf : Text → Text → Option ZecVolumeSnap → Type 0
IsReadyOf disk id o =
    (s : ZecVolumeSnap) × (o ≡ some s)
    × (s.id ≡ id)
    × (s.src_disk_id ≡ disk)
    × (s.status ≡ snap_status_available)

-- `snapshot` is the snapshot of an identifier. A lookup that answers tells it and changes nothing;
-- the other methods have reached what they promise when they answer.
pub record IsFaithfulSnapshots {W : Type 0} (m : CloudManager W)
    (snapshot : W → Text → Option ZecVolumeSnap) : Type 0 where
  pub finds :
      (id : Text) (w : W) (o : Option ZecVolumeSnap) (w' : W)
      → m.find_snapshot id w ≡ (ok o, w')
      → (w' ≡ w) × (o ≡ snapshot w id)
  pub creates :
      (name disk id : Text) (w w' : W)
      → m.create_snapshot name disk w ≡ (ok id, w')
      → IsReadyOf disk id (snapshot w' id)
  pub deletes :
      (id : Text) (w w' : W) → m.delete_snapshot id w ≡ (ok tt, w') → snapshot w' id ≡ none

-- The snapshots that the cloud holds.
abbrev pub snapshots :
    {W : Type 0} → (W → Text → Option SnapshotInfo) → W → Text → Option ZecVolumeSnap
snapshots snap w id = Option.map zec_volume_snap_of (snap w id)

module _ {W : Type 0} (c : ZecClient W) (snap : W → Text → Option SnapshotInfo)
    (source : Text → Text) (t : TellsSnapshots c snap source) where
  ready-of :
      (disk id : Text) (w : W)
      → IsReady (snap w id)
      → source id ≡ disk
      → IsReadyOf disk id (snapshots snap w id)
  unfolding zec_volume_snap_of
  ready-of disk id w (d, there, status) e =
      let (i, s) = t.holds id w d there in
      (
        zec_volume_snap_of d,
        ap (Option.map zec_volume_snap_of) there,
        ap (or_initial []) i,
        ap (or_initial []) s ∙ e,
        ap (or_initial []) status,
      )

-- The cloud manager over a client that tells what snapshots the cloud holds (TellsSnapshots) keeps
-- the contract IsFaithfulSnapshots: what CreateSnapshot answers with is there, AVAILABLE and of the
-- disk, and what DeleteSnapshot has deleted is gone.
pub zec_cloud_manager-IsFaithfulSnapshots :
    {W : Type 0} (c : ZecClient W) (snap : W → Text → Option SnapshotInfo) (source : Text → Text)
    (cm : ZecCloudManager W)
    → TellsSnapshots c snap source
    → cm.zec_client ≡ some c
    → IsFaithfulSnapshots (zec_cloud_manager cm) (snapshots snap)
zec_cloud_manager-IsFaithfulSnapshots c snap source cm t e = record {
  finds = λ id w o w' h. find_snapshot-eq-ok c snap source t cm e id w h;
  creates = λ name disk id w w' h.
      let (ready, of) = create_snapshot-IsReady c snap source t cm e name disk w h in
      ready-of c snap source t disk id w' ready of;
  deletes = λ id w w' h.
      ap (Option.map zec_volume_snap_of) (delete_snapshot-gone c snap source t cm e id w h);
}
