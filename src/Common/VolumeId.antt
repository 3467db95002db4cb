-- ===== src/Common/VolumeId.antt =====
-- pkg/common/common.go, GenCsiVolId and ParseCsiVolId: volume identifiers `<diskId>-<serial>`.
pub mod Laws
use zenlayer_cloud_csi_drive.Prelude.{
  ℕ, Bool, not, List, [], ◌∷◌, ◌++◌, ◌||◌, Option, none, some, Text, length, ◌==◌, if◌then◌else◌,
}

abbrev pub zec_vol_id_len : ℕ
zec_vol_id_len = 19

abbrev pub zec_vol_serial_len : ℕ
zec_vol_serial_len = 20

abbrev pub dash : ℕ
dash = b'-'

unfoldable pub gen_csi_vol_id : Text → Text → Text
gen_csi_vol_id volid serial = volid ++ dash ∷ serial

-- strings.Cut at the separator `-`: the text before and after the first one.
unfoldable pub cut : Text → Option (Text × Text)
cut [] = none
cut (c ∷ s) =
    let rest = cut s in
    if c == dash then some ([], s) else elim rest [ none ↦ none | some (a, b) ↦ some (c ∷ a, b) ]

-- The checks on the two parts.
unfoldable pub check_parts : Option (Text × Text) → Option (Text × Text)
check_parts none = none
check_parts (some (volid, serial)) =
    if not (length volid == zec_vol_id_len) || not (length serial == zec_vol_serial_len)
    then none
    else some (volid, serial)

-- `none` is the error of the source: no separator, or a part of the wrong length.
unfoldable pub parse_csi_vol_id : Text → Option (Text × Text)
unfolding cut check_parts
parse_csi_vol_id id = check_parts (cut id)
