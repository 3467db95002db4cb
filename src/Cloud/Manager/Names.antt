-- ===== src/Cloud/Manager/Names.antt =====
-- What CreateVolume relies on of the names of volumes.
use zenlayer_cloud_csi_drive.Prelude.{◌≡◌, Bool, Option, some, Text, ℤ}
use zenlayer_cloud_csi_drive.Prelude.Result.{ok}
use zenlayer_cloud_csi_drive.Driver.VolumeType.{string_to_type}
use zenlayer_cloud_csi_drive.Cloud.Types.{ZecVolume, ZecVolumeSnap}
use zenlayer_cloud_csi_drive.Cloud.Lookup.{absent, found}
use zenlayer_cloud_csi_drive.Cloud.Manager.{CloudManager}

-- In the world there is a volume of the identifier, made as it was asked for, and both lookups tell it.
pub record Named {W : Type 0} (m : CloudManager W) (name : Text) (size : ℤ)
    (category zone group id : Text) (w : W) : Type 0 where
  pub volume : ZecVolume
  pub size_asked : volume.size ≡ size
  pub type_asked : volume.type ≡ string_to_type category
  pub zone_asked : volume.zone ≡ zone
  pub by_name : m.find_volume_by_name name zone size category group w ≡ (found volume, w)
  pub by_id :
      (o : Option ZecVolume) (w' : W)
      → m.find_volume id w ≡ (ok o, w')
      → (w' ≡ w) × (o ≡ some volume)

-- `Unused` says that a name, in a zone, of a category and in a group, is free: this is what a lookup
-- that finds nothing tells. A volume that is then created under the name is found by it. A lookup
-- that finds a volume changes nothing.
pub record NamesVolumes {W : Type 0} (m : CloudManager W)
    (Unused : Text → Text → Text → Text → W → Type 0) : Type 0 where
  pub tells :
      (name zone category group : Text) (size : ℤ) (w w' : W)
      → m.find_volume_by_name name zone size category group w ≡ (absent, w')
      → Unused name zone category group w'
  pub repeats :
      (name zone category group : Text) (size : ℤ) (v : ZecVolume) (w w' : W)
      → m.find_volume_by_name name zone size category group w ≡ (found v, w')
      → w' ≡ w
  pub keeps :
      (name zone category group snap : Text) (o : Option ZecVolumeSnap) (w w' : W)
      → Unused name zone category group w
      → m.find_snapshot snap w ≡ (ok o, w')
      → Unused name zone category group w'
  pub creates :
      (name category zone group id : Text) (size : ℤ) (burst : Bool) (w w' : W)
      → Unused name zone category group w
      → m.create_volume name size category zone group burst w ≡ (ok id, w')
      → Named m name size category zone group id w'
  pub restores :
      (name category zone group snap id : Text) (size : ℤ) (burst : Bool) (w w' : W)
      → Unused name zone category group w
      → m.create_volume_from_snapshot name size category zone group snap burst w ≡ (ok id, w')
      → Named m name size category zone group id w'
