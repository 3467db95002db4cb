-- ===== src/Cloud/Lookup.antt =====
-- pkg/cloud/cloud_manager.go, FindVolumeByName and FindSnapshotByName: a filtered listing, read
-- page by page, and the choice among its entries.
pub mod Paging
pub mod Choice
use zenlayer_cloud_csi_drive.Prelude.{
  ℕ, zero, suc, ◌+◌, ◌/◌, ◌%◌, Bool, true, false, not, List, [], ◌∷◌, ◌++◌, Option, none, some,
  Text, codes, str_eq, is_empty, ltb, ◌==◌, if◌then◌else◌, ℤ, pos, negsuc, eqb_ℤ,
}
use zenlayer_cloud_csi_drive.Prelude.Result.{Result, ok, err}
use zenlayer_cloud_csi_drive.Driver.VolumeType.{string_to_type}
use zenlayer_cloud_csi_drive.Cloud.Exec.{
  Cloud, CloudError, args_error, nil_response, pure, lift, refuse_if, ◌>>=◌, ◌>>◌,
}
use zenlayer_cloud_csi_drive.Cloud.Client.{
  DescribeDisksRequest, DescribeSnapshotsRequest, DescribeDisksParams, DiskInfo, SnapshotInfo,
  ZecClient, ZecCloudManager, Call, call, client, new_describe_disks_request,
  new_describe_snapshots_request,
}
use zenlayer_cloud_csi_drive.Cloud.Types.{
  ZecVolume, ZecVolumeSnap, zec_volume_of, zec_volume_snap_of, disk_status_recycled,
}

-- The result of a lookup by name: a pointer and an error, each of which may be nil.
pub data Lookup (A : Type 0) : Type 0 where
  absent : Lookup A
  found : A → Lookup A
  conflict : A → Lookup A
  failed : CloudError → Lookup A

abbrev pub page_size : ℕ
page_size = 20

-- apicallnum
unfoldable pub page_count : ℕ → ℕ
page_count count = let n = count / page_size in if not (count % page_size == 0) then n + 1 else n

-- The name filter is a regular expression of the listing.
abbrev pub exactly : Text → Text
exactly name = codes "^" ++ name ++ codes "$"

-- An answer of a listing, for disks and for snapshots.
pub record Page (D : Type 0) : Type 0 where
  pub total_count : Option ℤ
  pub data_set : List (Option D)

module _ {W D : Type 0} (fetch : ℕ → Cloud W (Option (Page D))) where
  -- The loop over the pages, with the calls that are left and the number of the next page.
  unfoldable pub read_pages : ℕ → ℕ → Cloud W (List (Option D))
  read_pages zero page = pure []
  read_pages (suc n) page = do
    response ← fetch page
    p ← lift (elim response [ none ↦ err nil_response | some p ↦ ok p ])
    rest ← read_pages n (suc page)
    pure (p.data_set ++ rest)

  -- The first answer alone holds everything if its count is at most one page.
  unfoldable pub read_all : ℤ → List (Option D) → Cloud W (List (Option D))
  unfolding read_pages page_count
  read_all (negsuc n) first = pure first
  read_all (pos count) first =
      if ltb page_size count then read_pages (page_count count) 1 else pure first

  unfoldable pub listing_of : Option (Page D) → Cloud W (List (Option D))
  unfolding read_all
  listing_of none = lift (err nil_response)
  listing_of (some p) = elim p.total_count [
    | none ↦ lift (err nil_response)
    | some n ↦ if eqb_ℤ n (pos 0) then pure [] else read_all n p.data_set
  ]

  -- All entries of the listing.
  unfoldable pub listing : Cloud W (List (Option D))
  unfolding listing_of
  listing = do response ← fetch 1; listing_of response

-- The loop of FindVolumeByName over the disks.
unfoldable pub choose_volume : Text → ℤ → ℤ → List (Option DiskInfo) → Lookup ZecVolume
unfolding zec_volume_of
choose_volume zone type size [] = absent
choose_volume zone type size (none ∷ ds) = choose_volume zone type size ds
choose_volume zone type size (some d ∷ ds) =
    let v = zec_volume_of d in
    let rest = choose_volume zone type size ds in
    if str_eq v.status disk_status_recycled
    then rest
    else if not (str_eq zone v.zone)
    then rest
    else if not (eqb_ℤ v.type type)
    then rest
    else if not (eqb_ℤ v.size size)
    then conflict v
    else found v

-- The loop of FindSnapshotByName: the first entry decides.
unfoldable pub choose_snapshot : Text → List (Option SnapshotInfo) → Lookup ZecVolumeSnap
unfolding zec_volume_snap_of
choose_snapshot src [] = absent
choose_snapshot src (none ∷ ds) = choose_snapshot src ds
choose_snapshot src (some d ∷ ds) =
    let s = zec_volume_snap_of d in if str_eq src s.src_disk_id then found s else conflict s

-- What a lookup makes of the listing.
abbrev pub choose :
    {W A D : Type 0} → (List (Option D) → Lookup A) → Cloud W (List (Option D)) → W → Lookup A × W
choose f m w = (elim (m w).0 [ ok ds ↦ f ds | err e ↦ failed e ], (m w).1)

abbrev pub disks_named : Text → Text → Text → ℕ → DescribeDisksRequest
disks_named name zone group page = record new_describe_disks_request {
  disk_name = some (exactly name);
  zone_id = some zone;
  resource_group_id = some group;
  page_size = some page_size;
  page_num = some page;
}

-- One page of the disks of a name.
unfoldable pub fetch_disks :
    {W : Type 0} → ZecClient W → Text → Text → Text → ℕ → Cloud W (Option (Page DiskInfo))
fetch_disks c name zone group page = do
  response ← call (c.describe_disks (disks_named name zone group page))
  pure (elim response [
    | none ↦ none
    | some p ↦ some (record { total_count = p.total_count; data_set = p.data_set })
  ])

abbrev pub snapshots_named : Text → Text → Text → ℕ → DescribeSnapshotsRequest
snapshots_named name zone group page = record new_describe_snapshots_request {
  snapshot_name = some (exactly name);
  zone_id = some zone;
  resource_group_id = some group;
  page_size = some page_size;
  page_num = some page;
}

-- One page of the snapshots of a name.
unfoldable pub fetch_snapshots :
    {W : Type 0} → ZecClient W → Text → Text → Text → ℕ → Cloud W (Option (Page SnapshotInfo))
fetch_snapshots c name zone group page = do
  response ← call (c.describe_snapshots (snapshots_named name zone group page))
  pure (elim response [
    | none ↦ none
    | some p ↦ some (record { total_count = p.total_count; data_set = p.data_set })
  ])

module _ {W : Type 0} (cm : ZecCloudManager W) where
  unfoldable pub find_volume_by_name : Text → Text → ℤ → Text → Text → W → Lookup ZecVolume × W
  unfolding client listing fetch_disks choose_volume
  find_volume_by_name name zone size category group =
      choose (choose_volume zone (string_to_type category) size) (do
        refuse_if (is_empty name) args_error
        c ← client cm
        listing (fetch_disks c name zone group))

  unfoldable pub find_snapshot_by_name : Text → Text → Text → Text → W → Lookup ZecVolumeSnap × W
  unfolding client listing fetch_snapshots choose_snapshot
  find_snapshot_by_name name src zone group = choose (choose_snapshot src) (do
    refuse_if (is_empty name) args_error
    c ← client cm
    listing (fetch_snapshots c name zone group))
