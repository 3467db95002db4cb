-- ===== src/Common/VolumeId/Laws.antt =====
-- The round trip of volume identifiers.
use zenlayer_cloud_csi_drive.Prelude.{
  ◌≡◌, refl, ap, false, [], ◌∷◌, ◌++◌, some, arith, Text, length, ◌==◌, any, Option-cases, inl, inr,
  ◌↔◌, ◌∙◌,
}
use zenlayer_cloud_csi_drive.Common.VolumeId.{
  zec_vol_id_len, zec_vol_serial_len, dash, gen_csi_vol_id, cut, parse_csi_vol_id,
}

-- The text has no separator.
abbrev pub NoDash : Text → Type 0
NoDash s = any (λ c. c == dash) s ≡ false

-- The shape of the cloud's identifiers.
pub record IsDiskId (volid serial : Text) : Type 0 where
  pub no_dash : NoDash volid
  pub id_len : length volid ≡ zec_vol_id_len
  pub serial_len : length serial ≡ zec_vol_serial_len

cut-append : (a b : Text) → NoDash a → cut (a ++ dash ∷ b) ≡ some (a, b)
unfolding cut
cut-append [] b h = refl
cut-append (c ∷ a) b h = ground (arith, cut-append a b)

-- What a generated identifier parses to.
pub parse_csi_vol_id-gen_csi_vol_id :
    (volid serial : Text)
    → IsDiskId volid serial
    → parse_csi_vol_id (gen_csi_vol_id volid serial) ≡ some (volid, serial)
unfolding parse_csi_vol_id gen_csi_vol_id
parse_csi_vol_id-gen_csi_vol_id volid serial v = ground (arith, cut-append volid serial v.no_dash)

cut-eq-some : (s a b : Text) → cut s ≡ some (a, b) → (s ≡ a ++ dash ∷ b) × NoDash a
unfolding cut
cut-eq-some [] a b h = cc
cut-eq-some (c ∷ s) a b h = elim (Option-cases (cut s)) [
  | inl e ↦ ground (arith, e)
  | inr ((x, y), e) ↦ ground (arith, cut-eq-some s x y e)
]

-- What an accepted identifier is.
pub parse_csi_vol_id-eq-some :
    (id volid serial : Text)
    → parse_csi_vol_id id ≡ some (volid, serial)
    → (id ≡ gen_csi_vol_id volid serial) × IsDiskId volid serial
unfolding parse_csi_vol_id gen_csi_vol_id
parse_csi_vol_id-eq-some id volid serial h = elim (Option-cases (cut id)) [
  | inl e ↦ ground (arith, e)
  | inr ((x, y), e) ↦ ground (arith, cut-eq-some id x y e)
]

-- An identifier is parsed to a disk identifier and a serial exactly if it is the one generated
-- from them and they have the shape of the cloud's: 19 characters without a dash, and 20
-- characters.
pub parse_csi_vol_id_iff :
    (id volid serial : Text)
    → (parse_csi_vol_id id ≡ some (volid, serial))
      ↔ ((id ≡ gen_csi_vol_id volid serial) × IsDiskId volid serial)
parse_csi_vol_id_iff id volid serial = (
  parse_csi_vol_id-eq-some id volid serial,
  λ h. ap parse_csi_vol_id h.0 ∙ parse_csi_vol_id-gen_csi_vol_id volid serial h.1,
)
