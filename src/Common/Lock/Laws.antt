-- ===== src/Common/Lock/Laws.antt =====
-- The locks as a set of identifiers.
use zenlayer_cloud_csi_drive.Prelude.{
  ◌≡◌, refl, false, List, [], ◌∷◌, arith, Text, str_eq, str_eq_iff, str_eq_refl, if◌then◌else◌,
}
use zenlayer_cloud_csi_drive.Common.Lock.{has, delete}

pub has-delete :
    (k j : Text) (l : List Text) → has j (delete k l) ≡ (if str_eq k j then false else has j l)
unfolding has delete
has-delete k j [] = ground arith
has-delete k j (i ∷ l) =
    ground (arith, has-delete k j l, str_eq_iff i k, str_eq_iff i j, str_eq_iff k j)

-- A lock that is not held is not touched by its release.
pub delete_absent : (k : Text) (l : List Text) → has k l ≡ false → delete k l ≡ l
unfolding has delete
delete_absent k [] h = refl
delete_absent k (i ∷ l) h = ground (arith, delete_absent k l)

-- Acquiring a free lock and releasing it gives the locks back as they were.
pub delete-insert : (k : Text) (l : List Text) → has k l ≡ false → delete k (k ∷ l) ≡ l
unfolding delete
delete-insert k l h = ground (arith, str_eq_refl k, delete_absent k l h)
