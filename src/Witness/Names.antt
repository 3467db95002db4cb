-- ===== src/Witness/Names.antt =====
-- The cloud with one disk finds the volumes that it has created by their names.
use zenlayer_cloud_csi_drive.Prelude.{◌≡◌, refl, some, arith, Text, str_eq, str_eq_refl}
use zenlayer_cloud_csi_drive.Cloud.Client.{CreateDisksRequest}
use zenlayer_cloud_csi_drive.Cloud.Types.{zec_volume_of}
use zenlayer_cloud_csi_drive.Cloud.Lookup.{fetch_disks}
use zenlayer_cloud_csi_drive.Cloud.Lookup.Paging.{Serves}
use zenlayer_cloud_csi_drive.Cloud.Manager.Names.{NamesVolumes}
use zenlayer_cloud_csi_drive.Cloud.Manager.Listing.{IsMade, IsUnused, Listing, Lists}
use zenlayer_cloud_csi_drive.Cloud.Manager.Naming.{zec_cloud_manager-NamesVolumes}
use zenlayer_cloud_csi_drive.Witness.Cloud.{
  World, disk_id, disk, listed, made_for, steady, simulated, manager, simulated-Tells,
}
use zenlayer_cloud_csi_drive.Witness.Setup.{server}

abbrev pub all_listed : Listing World
all_listed w name zone group = listed w

listing-Serves :
    (name zone group : Text) (w : World)
    → Serves (fetch_disks simulated name zone group) (listed w) w
unfolding fetch_disks
listing-Serves name zone group w = record { at_page = λ k. ground arith }

made_for-IsMade : (r : CreateDisksRequest) → IsMade disk all_listed r disk_id (some (made_for r))
unfolding zec_volume_of str_eq
made_for-IsMade r = record {
  info = made_for r;
  there = refl;
  size_asked = refl;
  category_asked = refl;
  zone_asked = refl;
  first = ground (arith, str_eq_refl r.zone_id);
}

simulated-Lists : Lists simulated steady disk all_listed
simulated-Lists = record {
  serves = listing-Serves;
  makes = λ r id ids w w' unused h.
      let i : id ≡ disk_id = ground (arith, h) in
      let e : w' ≡ some (made_for r) = ground (arith, h) in rw (i, e) (made_for-IsMade r);
  stays = λ r id w m. m;
  looks = λ q w name zone group. refl;
}

zec_cloud_manager-NamesVolumes_example : NamesVolumes server.cloud (IsUnused all_listed)
zec_cloud_manager-NamesVolumes_example =
    zec_cloud_manager-NamesVolumes simulated disk all_listed manager simulated-Tells simulated-Lists
      refl

pub names : NamesVolumes server.cloud (IsUnused all_listed)
names =
    zec_cloud_manager-NamesVolumes simulated disk all_listed manager simulated-Tells simulated-Lists
      refl
