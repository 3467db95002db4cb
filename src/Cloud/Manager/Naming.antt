-- ===== src/Cloud/Manager/Naming.antt =====
-- The manager of pkg/cloud/cloud_manager.go finds the volumes that it has created by their names.
use zenlayer_cloud_csi_drive.Prelude.{
  ◌≡◌, refl, subst, ap, ◌∙◌, sym, inl, inr, Bool, Bool-cases, false, List, [], ◌∷◌, Option, none,
  some, arith, Text, ℤ, is_empty,
}
use zenlayer_cloud_csi_drive.Prelude.Result.{ok}
use zenlayer_cloud_csi_drive.Driver.VolumeType.{string_to_type}
use zenlayer_cloud_csi_drive.Cloud.Exec.{
  args_error, pure, lift, refuse_if, ◌>>=◌, ◌>>◌, continue-eq-ok, refuse_if-eq-ok,
}
use zenlayer_cloud_csi_drive.Cloud.Client.{
  CreateDisksRequest, DiskInfo, ZecClient, ZecCloudManager, call, call-eq-ok, client-bind,
}
use zenlayer_cloud_csi_drive.Cloud.Types.{ZecVolume, zec_volume_of, disk_status_available}
use zenlayer_cloud_csi_drive.Cloud.Lookup.{absent, find_volume_by_name}
use zenlayer_cloud_csi_drive.Cloud.Lookup.Choice.{
  entries, first_with, is_candidate, sized, find_volume_by_name_lem,
}
use zenlayer_cloud_csi_drive.Cloud.Disks.{
  create_disk, create_volume, create_volume_from_snapshot, wait_disk_status,
}
use zenlayer_cloud_csi_drive.Cloud.Answers.{disk_request, first_id}
use zenlayer_cloud_csi_drive.Cloud.Disks.Outcome.{Tells, find_volume-eq-ok, wait_available_keeps}
use zenlayer_cloud_csi_drive.Cloud.Snapshots.{snapshot_by_id, one_snapshot, find_snapshot}
use mathlib.Core.Option
use zenlayer_cloud_csi_drive.Cloud.Manager.Contract.{decoded}
use zenlayer_cloud_csi_drive.Cloud.Manager.{zec_cloud_manager}
use zenlayer_cloud_csi_drive.Cloud.Manager.Names.{Named, NamesVolumes}
use zenlayer_cloud_csi_drive.Cloud.Manager.Listing.{Listing, candidate, IsUnused, IsMade, Lists}

first_id-eq-ok :
    (o : Option (List Text)) (id : Text)
    → first_id o ≡ ok id
    → (ids : List Text) × (o ≡ some (id ∷ ids))
unfolding first_id
first_id-eq-ok none id h = ground arith
first_id-eq-ok (some []) id h = ground arith
first_id-eq-ok (some (x ∷ ids)) id h = (ids, ground arith)

sized-eq-absent : (size : ℤ) (o : Option ZecVolume) → sized size o ≡ absent → o ≡ none
sized-eq-absent size none h = refl
sized-eq-absent size (some v) h = ground arith

module _ {W : Type 0} (c : ZecClient W) (disk : W → Text → Option DiskInfo) (listed : Listing W)
    (cm : ZecCloudManager W) (t : Tells c disk) (k : Lists c cm.clock disk listed)
    (e : cm.zec_client ≡ some c) where
  -- FindVolumeByName, for a name that is not empty, answers by the listing and changes nothing.
  looked_up :
      (name zone category group : Text) (size : ℤ) (w : W)
      → is_empty name ≡ false
      → find_volume_by_name cm name zone size category group w
        ≡ (sized size (candidate listed name zone category group w), w)
  looked_up name zone category group size w n =
      find_volume_by_name_lem cm c name zone group category size (listed w name zone group) w e n
        (k.serves name zone group w)

  create_disk-IsMade :
      (r : CreateDisksRequest) (id : Text) (w : W) {w' : W}
      → IsUnused listed r.disk_name r.zone_id r.disk_category r.resource_group_id w
      → create_disk cm r w ≡ (ok id, w')
      → IsMade disk listed r id w'
  unfolding create_disk first_id
  create_disk-IsMade r id w {w'} unused h =
      let made = call (c.create_disks r) w in
      let (o, called, rest) = continue-eq-ok _ made.0 made.1 (sym (client-bind cm c _ w e) ∙ h) in
      let (first, named, rest') = continue-eq-ok _ (first_id o) made.1 rest in
      let v = wait_disk_status cm disk_status_available first made.1 in
      let (u, waited, done) = continue-eq-ok (λ _. pure first) v.0 v.1 rest' in
      let (ids, one) = first_id-eq-ok o first named in
      let asked : c.create_disks r w ≡ (ok (some (first ∷ ids)), made.1) =
        call-eq-ok (c.create_disks r) w (ground arith) in
      let ended : wait_disk_status cm disk_status_available first made.1 ≡ (ok tt, v.1) =
        ground arith in
      let kept =
        wait_available_keeps c disk t cm e (IsMade disk listed r first) first made.1
          (k.stays r first) (k.makes r first ids w made.1 unused asked) ended in
      let same : first ≡ id = ground arith in
      let last : v.1 ≡ w' = ground arith in
      subst (λ i. IsMade disk listed r i w') same (subst (IsMade disk listed r first) last kept)

  IsMade-Named :
      (name category zone group id : Text) (size : ℤ) (snap : Option Text) (burst : Bool) (w : W)
      → is_empty name ≡ false
      → IsMade disk listed (disk_request name size category zone group snap burst) id w
      → Named (zec_cloud_manager cm) name size category zone group id w
  unfolding zec_volume_of
  IsMade-Named name category zone group id size snap burst w n m = record {
    volume = zec_volume_of m.info;
    size_asked = ground (arith, m.size_asked);
    type_asked = ground (arith, m.category_asked);
    zone_asked = ground (arith, m.zone_asked);
    by_name = looked_up name zone category group size w n ∙ ground (arith, m.first, m.size_asked);
    by_id = λ o w' h.
        let (same, told) = find_volume-eq-ok c disk t cm e id w h in
        (same, told ∙ ap (Option.map zec_volume_of) m.there);
  }

  found_quiet :
      (name zone category group : Text) (size : ℤ) (w : W)
      → (find_volume_by_name cm name zone size category group w).1 ≡ w
  unfolding find_volume_by_name
  found_quiet name zone category group size w = elim (Bool-cases (is_empty name)) [
    | inl none_ ↦ ground (arith, none_)
    | inr some_ ↦ ap (λ p. p.1) (looked_up name zone category group size w some_)
  ]

  absent-IsUnused :
      (name zone category group : Text) (size : ℤ) (w w' : W)
      → find_volume_by_name cm name zone size category group w ≡ (absent, w')
      → IsUnused listed name zone category group w'
  unfolding find_volume_by_name
  absent-IsUnused name zone category group size w w' h = elim (Bool-cases (is_empty name)) [
    | inl none_ ↦ absurd (ground (arith, none_, h))
    | inr some_ ↦
        let both = sym (looked_up name zone category group size w some_) ∙ h in
        subst (IsUnused listed name zone category group) (ap (λ p. p.1) both)
          (sized-eq-absent size _ (ap (λ p. p.0) both))
  ]

  find_snapshot_keeps :
      (snap name zone group : Text) (w : W)
      → listed (find_snapshot cm snap w).1 name zone group ≡ listed w name zone group
  unfolding find_snapshot is_empty
  find_snapshot_keeps [] name zone group w = refl
  find_snapshot_keeps (b ∷ snap) name zone group w =
      ap (λ p. listed p.1 name zone group)
        (client-bind cm c
          (λ cl.
            call (cl.describe_snapshots (snapshot_by_id (b ∷ snap))) >>= λ o. lift (one_snapshot o))
          w e)
      ∙ ap (λ u. listed u name zone group)
          (decoded (c.describe_snapshots (snapshot_by_id (b ∷ snap))) one_snapshot w)
      ∙ k.looks (snapshot_by_id (b ∷ snap)) w name zone group

  -- What the two ways to create a volume share, behind the check of their arguments.
  create-Named :
      (name category zone group id : Text) (size : ℤ) (snap : Option Text) (burst bad : Bool)
      (w w' : W)
      → (bad ≡ false → is_empty name ≡ false)
      → IsUnused listed name zone category group w
      → (refuse_if bad args_error
            >> create_disk cm (disk_request name size category zone group snap burst))
          w
        ≡ (ok id, w')
      → Named (zec_cloud_manager cm) name size category zone group id w'
  create-Named name category zone group id size snap burst bad w w' named unused h =
      let request = disk_request name size category zone group snap burst in
      let (good, rest) = refuse_if-eq-ok bad args_error (create_disk cm request) w h in
      IsMade-Named name category zone group id size snap burst w' (named good)
        (create_disk-IsMade request id w unused rest)

-- The cloud manager over a client that tells what the cloud holds (Tells), and that lists the disks
-- that it makes by their names (Lists), finds the volumes that it has created by their names: it
-- keeps the contract NamesVolumes, where a name is unused if no disk of the listing collides with it.
pub zec_cloud_manager-NamesVolumes :
    {W : Type 0} (c : ZecClient W) (disk : W → Text → Option DiskInfo) (listed : Listing W)
    (cm : ZecCloudManager W)
    → Tells c disk
    → Lists c cm.clock disk listed
    → cm.zec_client ≡ some c
    → NamesVolumes (zec_cloud_manager cm) (IsUnused listed)
unfolding create_volume create_volume_from_snapshot
zec_cloud_manager-NamesVolumes c disk listed cm t k e = record {
  tells = absent-IsUnused c disk listed cm t k e;
  repeats = λ name zone category group size v w w' h.
      sym (ap (λ p. p.1) h) ∙ found_quiet c disk listed cm t k e name zone category group size w;
  keeps = λ name zone category group snap o w w' unused h.
      let last : (find_snapshot cm snap w).1 ≡ w' = ap (λ p. p.1) h in
      subst (IsUnused listed name zone category group) last (
        ap
          (λ ds.
            first_with (is_candidate zone (string_to_type category)) (entries zec_volume_of ds))
          (find_snapshot_keeps c disk listed cm t k e snap name zone group w)
        ∙ unused);
  creates = λ name category zone group id size burst w w' unused h.
      create-Named c disk listed cm t k e name category zone group id size none burst _ w w'
        (λ good. ground (arith, good)) unused h;
  restores = λ name category zone group snap id size burst w w' unused h.
      create-Named c disk listed cm t k e name category zone group id size (some snap) burst _ w w'
        (λ good. ground (arith, good)) unused h;
}
