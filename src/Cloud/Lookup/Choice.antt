-- ===== src/Cloud/Lookup/Choice.antt =====
-- What FindVolumeByName and FindSnapshotByName answer, by the entries of the whole listing.
use zenlayer_cloud_csi_drive.Prelude.{
  ◌≡◌, refl, ◌∙◌, Bool, true, false, not, ◌&&◌, List, [], ◌∷◌, Option, none, some, arith, Text,
  str_eq, is_empty, if◌then◌else◌, ℤ, eqb_ℤ,
}
use zenlayer_cloud_csi_drive.Driver.VolumeType.{string_to_type}
use zenlayer_cloud_csi_drive.Cloud.Client.{
  DiskInfo, SnapshotInfo, ZecClient, ZecCloudManager, client-bind,
}
use zenlayer_cloud_csi_drive.Cloud.Types.{
  ZecVolume, ZecVolumeSnap, zec_volume_of, zec_volume_snap_of, disk_status_recycled,
}
use zenlayer_cloud_csi_drive.Cloud.Lookup.{
  Lookup, absent, found, conflict, choose_volume, choose_snapshot, listing, fetch_disks,
  fetch_snapshots, find_volume_by_name, find_snapshot_by_name,
}
use zenlayer_cloud_csi_drive.Cloud.Lookup.Paging.{Serves, listing_complete}

-- The entries that are there, read.
abbrev pub entries : {D A : Type 0} → (D → A) → List (Option D) → List A
entries f [] = []
entries f (none ∷ ds) = entries f ds
entries f (some d ∷ ds) = f d ∷ entries f ds

abbrev pub first_with : {A : Type 0} → (A → Bool) → List A → Option A
first_with p [] = none
first_with p (a ∷ l) = if p a then some a else first_with p l

-- A volume that a new one of the same name, zone and type would collide with.
abbrev pub is_candidate : Text → ℤ → ZecVolume → Bool
is_candidate zone type v =
    not (str_eq v.status disk_status_recycled) && str_eq zone v.zone && eqb_ℤ v.type type

-- The answer for the first candidate: a volume of another size comes with an error.
abbrev pub sized : ℤ → Option ZecVolume → Lookup ZecVolume
sized size none = absent
sized size (some v) = if eqb_ℤ v.size size then found v else conflict v

-- The answer for the first snapshot: one of another disk comes with an error.
abbrev pub sourced : Text → Option ZecVolumeSnap → Lookup ZecVolumeSnap
sourced src none = absent
sourced src (some s) = if str_eq src s.src_disk_id then found s else conflict s

choose_volume-sized :
    (zone : Text) (type size : ℤ) (ds : List (Option DiskInfo))
    → choose_volume zone type size ds
      ≡ sized size (first_with (is_candidate zone type) (entries zec_volume_of ds))
unfolding choose_volume
choose_volume-sized zone type size [] = refl
choose_volume-sized zone type size (none ∷ ds) = choose_volume-sized zone type size ds
choose_volume-sized zone type size (some d ∷ ds) =
    ground (arith, choose_volume-sized zone type size ds)

choose_snapshot-sourced :
    (src : Text) (ds : List (Option SnapshotInfo))
    → choose_snapshot src ds ≡ sourced src (first_with (λ _. true) (entries zec_volume_snap_of ds))
unfolding choose_snapshot
choose_snapshot-sourced src [] = refl
choose_snapshot-sourced src (none ∷ ds) = choose_snapshot-sourced src ds
choose_snapshot-sourced src (some d ∷ ds) = refl

-- For a manager with a client and a name that is not empty: if the cloud serves the disks of the
-- name, in the zone and the resource group, in pages, then FindVolumeByName answers by the first
-- one of all of them that is not in the recycle bin, has the zone and the type: with it if it has
-- the size, with it and an error if it has another size; and with nothing if there is none. It
-- changes nothing.
pub find_volume_by_name_lem :
    {W : Type 0} (cm : ZecCloudManager W) (c : ZecClient W) (name zone group category : Text)
    (size : ℤ) (ds : List (Option DiskInfo)) (w : W)
    → cm.zec_client ≡ some c
    → is_empty name ≡ false
    → Serves (fetch_disks c name zone group) ds w
    → find_volume_by_name cm name zone size category group w ≡ (
      sized size
          (first_with (is_candidate zone (string_to_type category)) (entries zec_volume_of ds)),
      w,
    )
unfolding find_volume_by_name
find_volume_by_name_lem cm c name zone group category size ds w e n s =
    let read =
      client-bind cm c (λ cl. listing (fetch_disks cl name zone group)) w e
      ∙ listing_complete (fetch_disks c name zone group) ds w s in
    ground (arith, n, read, choose_volume-sized zone (string_to_type category) size ds)

-- For a manager with a client and a name that is not empty: if the cloud serves the snapshots of
-- the name, in the zone and the resource group, in pages, FindSnapshotByName answers by the first
-- of them: with it if it is of the source disk, with it and an error if it is of another disk;
-- and with nothing if there is none. It changes nothing.
pub find_snapshot_by_name_lem :
    {W : Type 0} (cm : ZecCloudManager W) (c : ZecClient W) (name src zone group : Text)
    (ds : List (Option SnapshotInfo)) (w : W)
    → cm.zec_client ≡ some c
    → is_empty name ≡ false
    → Serves (fetch_snapshots c name zone group) ds w
    → find_snapshot_by_name cm name src zone group w
      ≡ (sourced src (first_with (λ _. true) (entries zec_volume_snap_of ds)), w)
unfolding find_snapshot_by_name
find_snapshot_by_name_lem cm c name src zone group ds w e n s =
    let read =
      client-bind cm c (λ cl. listing (fetch_snapshots cl name zone group)) w e
      ∙ listing_complete (fetch_snapshots c name zone group) ds w s in
    ground (arith, n, read, choose_snapshot-sourced src ds)
