-- ===== src/Driver/SnapshotClass.antt =====
-- pkg/disk/driver/snapshotclass.go: the tags of a snapshot class.
use zenlayer_cloud_csi_drive.Prelude.{
  List, [], ◌∷◌, Text, codes, str_eq, is_empty, ◌==◌, if◌then◌else◌,
}
use zenlayer_cloud_csi_drive.Prelude.Lines.{split}
use zenlayer_cloud_csi_drive.Driver.StorageClass.Parameters.{to_lower}

pub record ZecSnapshotClass : Type 0 where
  pub tags : List Text

abbrev pub new_default_zec_snapshot_class : ZecSnapshotClass
new_default_zec_snapshot_class = record { tags = [] }

abbrev pub snapshot_class_tags_name : Text
snapshot_class_tags_name = codes "tags"

-- strings.ReplaceAll of a space by nothing.
unfoldable pub without_spaces : Text → Text
without_spaces [] = []
without_spaces (c ∷ s) = let rest = without_spaces s in if c == b' ' then rest else c ∷ rest

-- One entry of the map: the tags of a value that is not empty replace those before.
unfoldable pub read_entry : Text × Text → List Text → List Text
unfolding without_spaces split to_lower
read_entry (k, v) tags =
    if str_eq (to_lower k) snapshot_class_tags_name
    then if is_empty v then tags else split b',' (without_spaces v)
    else tags

unfoldable pub read_tags : List (Text × Text) → List Text → List Text
unfolding read_entry
read_tags [] tags = tags
read_tags (e ∷ opt) tags = read_tags opt (read_entry e tags)

-- The map is the list of its entries in the order of a visit; there is no error.
unfoldable pub new_zec_snapshot_class_from_map : List (Text × Text) → ZecSnapshotClass
unfolding read_tags
new_zec_snapshot_class_from_map opt = record { tags = read_tags opt [] }
