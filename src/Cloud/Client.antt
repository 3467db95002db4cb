-- ===== src/Cloud/Client.antt =====
-- The calls of the Zenlayer SDK (github.com/zenlayer/zenlayercloud-sdk-go) that pkg/cloud uses,
-- and the passing of time, as parameters. A pointer that may be nil is an `Option`.
use zenlayer_cloud_csi_drive.Prelude.{
  ℕ, List, [], Bool, Option, none, some, Text, ℤ, ◌≡◌, ◌≢◌, arith, inl, inr, Option-cases,
}
use zenlayer_cloud_csi_drive.Prelude.Result.{Result, ok, err, from_option}
use zenlayer_cloud_csi_drive.Cloud.Exec.{
  SdkError, Cloud, CloudError, api, nil_client, lift, ◌>>=◌, continue-eq-ok,
}

-- DescribeDisksRequest, the fields that the driver sets.
pub record DescribeDisksRequest : Type 0 where
  pub disk_ids : List Text
  pub disk_name : Option Text
  pub zone_id : Option Text
  pub resource_group_id : Option Text
  pub page_size : Option ℕ
  pub page_num : Option ℕ

abbrev pub new_describe_disks_request : DescribeDisksRequest
new_describe_disks_request = record {
  disk_ids = [];
  disk_name = none;
  zone_id = none;
  resource_group_id = none;
  page_size = none;
  page_num = none;
}

pub record DiskInfo : Type 0 where
  pub disk_id : Option Text
  pub disk_name : Option Text
  pub zone_id : Option Text
  pub portable : Option Bool
  pub disk_category : Option Text
  pub disk_size : Option ℤ
  pub disk_status : Option Text
  pub instance_id : Option Text
  pub resource_group_id : Option Text
  pub serial : Option Text
  pub snapshot_ability : Option Bool

pub record DescribeDisksParams : Type 0 where
  pub total_count : Option ℤ
  pub data_set : List (Option DiskInfo)

pub record CreateDisksRequest : Type 0 where
  pub disk_name : Text
  pub disk_size : ℤ
  pub zone_id : Text
  pub disk_amount : ℕ
  pub resource_group_id : Text
  pub disk_category : Text
  pub snapshot_id : Option Text
  pub bursting_enabled : Bool

-- The same for snapshots.
pub record DescribeSnapshotsRequest : Type 0 where
  pub snapshot_ids : List Text
  pub snapshot_name : Option Text
  pub zone_id : Option Text
  pub resource_group_id : Option Text
  pub page_size : Option ℕ
  pub page_num : Option ℕ

abbrev pub new_describe_snapshots_request : DescribeSnapshotsRequest
new_describe_snapshots_request = record {
  snapshot_ids = [];
  snapshot_name = none;
  zone_id = none;
  resource_group_id = none;
  page_size = none;
  page_num = none;
}

-- `resource_group` is the identifier inside the ResourceGroup of the answer.
pub record SnapshotInfo : Type 0 where
  pub snapshot_id : Option Text
  pub snapshot_name : Option Text
  pub status : Option Text
  pub disk_id : Option Text
  pub disk_ability : Option Bool
  pub zone_id : Option Text
  pub resource_group : Option (Option Text)
  pub create_time : Option Text

pub record DescribeSnapshotsParams : Type 0 where
  pub total_count : Option ℤ
  pub data_set : List (Option SnapshotInfo)

pub record InstanceStatus : Type 0 where
  pub instance_status : Option Text

pub record DescribeInstancesStatusParams : Type 0 where
  pub total_count : Option ℤ
  pub data_set : List (Option InstanceStatus)

pub record InstanceInfo : Type 0 where
  pub instance_id : Option Text
  pub status : Option Text
  pub zone_id : Option Text

pub record DescribeInstancesParams : Type 0 where
  pub total_count : Option ℤ
  pub data_set : List (Option InstanceInfo)

-- A call returns an error or the pointer `Response`; where the driver does not look at the
-- answer, it is left out. Every call may change the world.
abbrev pub Call : Type 0 → Type 0 → Type 0
Call W A = W → Result SdkError A × W

pub record ZecClient (W : Type 0) : Type 0 where
  pub describe_disks : DescribeDisksRequest → Call W (Option DescribeDisksParams)
  pub create_disks : CreateDisksRequest → Call W (Option (List Text))
  pub release_disk : Text → Call W (Unit {0})
  pub attach_disks : List Text → Text → Call W (Unit {0})
  pub detach_disks : List Text → Bool → Call W (Option (List Text))
  pub resize_disk : Text → ℤ → Call W (Unit {0})
  pub describe_instances_status : List Text → Call W (Option DescribeInstancesStatusParams)
  pub describe_instances : List Text → Call W (Option DescribeInstancesParams)
  pub describe_zones : Call W (Unit {0})
  pub describe_disk_regions : Call W (Option (List Text))
  pub create_snapshot : Text → Text → Call W (Option (Option Text))
  pub delete_snapshots : List Text → Call W (Option (List Text))
  pub describe_snapshots : DescribeSnapshotsRequest → Call W (Option DescribeSnapshotsParams)

-- `pause` is one interval of the ticker; `rounds` says how often the ticker is heard before the
-- timer is, when a wait begins: Go's `select` chooses, so this is the environment's.
pub record Clock (W : Type 0) : Type 0 where
  pub pause : W → W
  pub rounds : W → ℕ

-- The struct zecCloudManager; a node driver has no client.
pub record ZecCloudManager (W : Type 0) : Type 0 where
  pub zec_client : Option (ZecClient W)
  pub iscontroller : Bool
  pub clock : Clock W

-- A call of the SDK, inside the driver.
abbrev pub call : {W A : Type 0} → Call W A → Cloud W A
call m w = (elim (m w).0 [ ok a ↦ ok a | err e ↦ err (api e) ], (m w).1)

-- The check that the manager has a client.
unfoldable pub client : {W : Type 0} → ZecCloudManager W → Cloud W (ZecClient W)
client cm = lift (from_option nil_client cm.zec_client)

pub call-eq-ok :
    {W A : Type 0} (m : Call W A) (w : W) {a : A} {w' : W}
    → call m w ≡ (ok a, w')
    → m w ≡ (ok a, w')
call-eq-ok m w h = ground arith

pub call-eq-err :
    {W A : Type 0} (m : Call W A) (w : W) {x : SdkError} {w' : W}
    → call m w ≡ (err (api x), w')
    → m w ≡ (err x, w')
call-eq-err m w h = ground arith

-- With a client, the check for it is passed.
pub client-bind :
    {W B : Type 0} (cm : ZecCloudManager W) (c : ZecClient W) (k : ZecClient W → Cloud W B) (w : W)
    → cm.zec_client ≡ some c
    → (client cm >>= k) w ≡ k c w
unfolding client
client-bind cm c k w e = rw e

-- What is decoded from a successful answer, if the lack of one is an error and the call, when it
-- answers, tells a value and changes nothing.
pub told-eq-ok :
    {W P A : Type 0} (m : Call W (Option P)) (k : Option P → Result CloudError A) (told : P) (w : W)
    {a : A} {w' : W}
    → ((p : P) (u : W) → m w ≡ (ok (some p), u) → (u ≡ w) × (p ≡ told))
    → ((b : A) → k none ≢ ok b)
    → (call m >>= λ o. lift (k o)) w ≡ (ok a, w')
    → (w' ≡ w) × (k (some told) ≡ ok a)
told-eq-ok m k told w {a} reads bad h =
    let r = call m w in
    let (o, e, rest) = continue-eq-ok (λ o. lift (k o)) r.0 r.1 h in
    elim (Option-cases o) [
      | inl g ↦ absurd (bad a (ground arith))
      | inr (p, g) ↦
          let (same, is_told) = reads p r.1 (call-eq-ok m w (ground arith)) in
          (ground arith, ground arith)
    ]
