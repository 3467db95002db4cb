-- ===== src/Cloud/Manager/Listing.antt =====
-- What the cloud lists under a name, and how it lists the disks that it makes.
use zenlayer_cloud_csi_drive.Prelude.{◌≡◌, List, ◌∷◌, Option, none, some, Text}
use zenlayer_cloud_csi_drive.Prelude.Result.{ok}
use zenlayer_cloud_csi_drive.Driver.VolumeType.{string_to_type}
use zenlayer_cloud_csi_drive.Cloud.Client.{
  Clock, CreateDisksRequest, DescribeSnapshotsRequest, DiskInfo, ZecClient,
}
use zenlayer_cloud_csi_drive.Cloud.Types.{ZecVolume, zec_volume_of}
use zenlayer_cloud_csi_drive.Cloud.Lookup.{fetch_disks}
use zenlayer_cloud_csi_drive.Cloud.Lookup.Paging.{Serves}
use zenlayer_cloud_csi_drive.Cloud.Lookup.Choice.{entries, first_with, is_candidate}

-- What the cloud lists under a name, in a zone and a group.
abbrev pub Listing : Type 0 → Type 0
Listing W = W → Text → Text → Text → List (Option DiskInfo)

-- The first disk of the listing that a new one of the category would collide with.
abbrev pub candidate : {W : Type 0} → Listing W → Text → Text → Text → Text → W → Option ZecVolume
candidate listed name zone category group w =
    first_with (is_candidate zone (string_to_type category))
      (entries zec_volume_of (listed w name zone group))

-- No disk of the listing collides with a new one.
abbrev pub IsUnused : {W : Type 0} → Listing W → Text → Text → Text → Text → W → Type 0
IsUnused listed name zone category group w = candidate listed name zone category group w ≡ none

-- The disk of the identifier is as the request asks, and the first one that its name finds.
pub record IsMade {W : Type 0} (disk : W → Text → Option DiskInfo) (listed : Listing W)
    (r : CreateDisksRequest) (id : Text) (w : W) : Type 0 where
  pub info : DiskInfo
  pub there : disk w id ≡ some info
  pub size_asked : info.disk_size ≡ some r.disk_size
  pub category_asked : info.disk_category ≡ some r.disk_category
  pub zone_asked : info.zone_id ≡ some r.zone_id
  pub first :
      candidate listed r.disk_name r.zone_id r.disk_category r.resource_group_id w
      ≡ some (zec_volume_of info)

-- The documented behaviour of the cloud: it serves its listings in pages; CreateDisks makes a disk as it
-- is asked for, which is then listed; the disk stays so while its creation goes on; and
-- DescribeSnapshots leaves the listings as they are.
pub record Lists {W : Type 0} (c : ZecClient W) (clock : Clock W)
    (disk : W → Text → Option DiskInfo) (listed : Listing W) : Type 0 where
  pub serves :
      (name zone group : Text) (w : W)
      → Serves (fetch_disks c name zone group) (listed w name zone group) w
  pub makes :
      (r : CreateDisksRequest) (id : Text) (ids : List Text) (w w' : W)
      → IsUnused listed r.disk_name r.zone_id r.disk_category r.resource_group_id w
      → c.create_disks r w ≡ (ok (some (id ∷ ids)), w')
      → IsMade disk listed r id w'
  pub stays :
      (r : CreateDisksRequest) (id : Text) (w : W)
      → IsMade disk listed r id w
      → IsMade disk listed r id (clock.pause w)
  pub looks :
      (q : DescribeSnapshotsRequest) (w : W) (name zone group : Text)
      → listed (c.describe_snapshots q w).1 name zone group ≡ listed w name zone group
