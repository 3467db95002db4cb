-- ===== src/Cloud/Lookup/Paging.antt =====
-- Reading a listing page by page (FindVolumeByName, FindSnapshotByName) reads all of it.
use zenlayer_cloud_csi_drive.Prelude.{
  ℕ, zero, suc, ◌*◌, ◌≤◌, ◌≡◌, refl, ap, sym, ◌∙◌, List, [], ◌++◌, Option, some, arith, length,
  take, drop, pos, Bool-cases, inl, inr, ltb, ◌∷◌, eqb_ℤ, false,
}
use zenlayer_cloud_csi_drive.Prelude.Slices.{take_all, drop-drop, take-take-drop}
use zenlayer_cloud_csi_drive.Prelude.Result.{ok}
use zenlayer_cloud_csi_drive.Cloud.Exec.{Cloud}
use zenlayer_cloud_csi_drive.Cloud.Lookup.{
  Page, page_size, page_count, read_pages, read_all, listing_of, listing,
}

-- The documented behaviour of a paged listing that holds `ds` in the world `w`: page number k + 1 has the entries
-- from 20 * k on, 20 at most, and the count of all of them; reading changes nothing.
pub record Serves {W D : Type 0} (fetch : ℕ → Cloud W (Option (Page D))) (ds : List (Option D))
    (w : W) : Type 0 where
  pub at_page :
      (k : ℕ)
      → fetch (suc k) w ≡ (
        ok (
            some (record {
              total_count = some (pos (length ds));
              data_set = take page_size (drop (k * page_size) ds);
            })),
        w,
      )

page_count_enough : (n : ℕ) → n ≤ page_count n * page_size
unfolding page_count
page_count_enough n = ground arith

module _ {W D : Type 0} (fetch : ℕ → Cloud W (Option (Page D))) (ds : List (Option D)) (w : W)
    (s : Serves fetch ds w) where
  next_slice :
      (n k : ℕ)
      → take page_size (drop (k * page_size) ds)
          ++ take (n * page_size) (drop (suc k * page_size) ds)
        ≡ take (suc n * page_size) (drop (k * page_size) ds)
  next_slice n k =
      ap (λ t. take page_size (drop (k * page_size) ds) ++ take (n * page_size) t)
        (ap (λ m. drop m ds) (omega arith) ∙ sym (drop-drop (k * page_size) page_size ds))
      ∙ take-take-drop page_size (n * page_size) (drop (k * page_size) ds)
      ∙ ap (λ m. take m (drop (k * page_size) ds)) (omega arith)

  read_pages-slice :
      (n k : ℕ)
      → read_pages fetch n (suc k) w ≡ (ok (take (n * page_size) (drop (k * page_size) ds)), w)
  unfolding read_pages
  read_pages-slice zero k = refl
  read_pages-slice (suc n) k =
      rw (s.at_page k) (rw (read_pages-slice n (suc k)) (ap (λ t. (ok t, w)) (next_slice n k)))

  read_all-listing : read_all fetch (pos (length ds)) (take page_size ds) w ≡ (ok ds, w)
  unfolding read_all
  read_all-listing = elim (Bool-cases (ltb page_size (length ds))) [
    | inl more ↦ rw more (
        read_pages-slice (page_count (length ds)) 0
        ∙ ap (λ t. (ok t, w)) (take_all _ ds (page_count_enough (length ds))))
    | inr one ↦ rw one (ap (λ t. (ok t, w)) (take_all page_size ds (ground arith)))
  ]

counted : (n : ℕ) → eqb_ℤ (pos (suc n)) (pos 0) ≡ false
counted n = ground arith

-- A listing that the cloud serves in pages of 20 is read whole and in order, whatever its length.
pub listing_complete :
    {W D : Type 0} (fetch : ℕ → Cloud W (Option (Page D))) (ds : List (Option D)) (w : W)
    → Serves fetch ds w
    → listing fetch w ≡ (ok ds, w)
unfolding listing listing_of
listing_complete fetch [] w s = rw (s.at_page 0)
listing_complete fetch (d ∷ ds) w s =
    rw (s.at_page 0) (rw (counted (length ds)) (read_all-listing fetch (d ∷ ds) w s))
