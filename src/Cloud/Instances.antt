-- ===== src/Cloud/Instances.antt =====
-- pkg/cloud/cloud_manager.go: VMs, zones, the kind of the driver, and the making of a manager.
use zenlayer_cloud_csi_drive.Prelude.{
  Bool, true, false, not, List, [], ◌∷◌, Option, none, some, Text, codes, str_eq, is_empty,
  if◌then◌else◌, ℤ, pos, eqb_ℤ,
}
use zenlayer_cloud_csi_drive.Prelude.Result.{Result, ok, err}
use zenlayer_cloud_csi_drive.Cloud.Exec.{
  Cloud, CloudError, SdkError, api, nil_client, pure, args_error, nil_response, repeated_id, lift,
  refuse_if, ◌>>=◌, ◌>>◌,
}
use zenlayer_cloud_csi_drive.Cloud.Client.{
  DescribeInstancesStatusParams, InstanceStatus, DescribeInstancesParams, InstanceInfo, ZecClient,
  ZecCloudManager, Clock, call, client,
}
use zenlayer_cloud_csi_drive.Cloud.Types.{ZecVm}
use zenlayer_cloud_csi_drive.Driver.VolumeType.{basic_vm_type}

unfoldable pub first_instance_status :
    List (Option InstanceStatus) → Result CloudError (Option Text)
first_instance_status [] = err nil_response
first_instance_status (none ∷ ds) = err nil_response
first_instance_status (some d ∷ ds) = elim d.instance_status [
  | none ↦ err nil_response
  | some s ↦ ok (some s)
]

unfoldable pub counted_status :
    Option ℤ → List (Option InstanceStatus) → Result CloudError (Option Text)
unfolding first_instance_status
counted_status none ds = err nil_response
counted_status (some n) ds =
    if eqb_ℤ n (pos 0)
    then ok none
    else if not (eqb_ℤ n (pos 1))
    then err repeated_id
    else first_instance_status ds

unfoldable pub one_instance_status :
    Option DescribeInstancesStatusParams → Result CloudError (Option Text)
unfolding counted_status
one_instance_status none = err nil_response
one_instance_status (some p) = counted_status p.total_count p.data_set

-- A field that is not set reads as the empty text.
abbrev text_of : Option Text → Text
text_of none = []
text_of (some t) = t

unfoldable pub zec_vm_of : InstanceInfo → ZecVm
zec_vm_of d = record {
  id = text_of d.instance_id;
  status = text_of d.status;
  type = basic_vm_type;
  zone = text_of d.zone_id;
}

unfoldable pub first_instance : List (Option InstanceInfo) → Result CloudError (Option ZecVm)
unfolding zec_vm_of
first_instance [] = err nil_response
first_instance (none ∷ ds) = err nil_response
first_instance (some d ∷ ds) = ok (some (zec_vm_of d))

unfoldable pub counted_instance :
    Option ℤ → List (Option InstanceInfo) → Result CloudError (Option ZecVm)
unfolding first_instance
counted_instance none ds = err nil_response
counted_instance (some n) ds =
    if eqb_ℤ n (pos 0)
    then ok none
    else if not (eqb_ℤ n (pos 1))
    then err repeated_id
    else first_instance ds

unfoldable pub one_instance : Option DescribeInstancesParams → Result CloudError (Option ZecVm)
unfolding counted_instance
one_instance none = err nil_response
one_instance (some p) = counted_instance p.total_count p.data_set

abbrev pub node_driver_type : Text
node_driver_type = codes "node"

abbrev pub controller_driver_type : Text
controller_driver_type = codes "controller"

-- NewZecCloudManager; `new_client` is zec.NewClient of the SDK, whose pointer may be nil.
unfoldable pub new_zec_cloud_manager :
    {W : Type 0}
    → (Text → Text → Result SdkError (Option (ZecClient W)))
    → Clock W
    → Text
    → Text
    → Text
    → Result CloudError (ZecCloudManager W)
new_zec_cloud_manager new_client clock ak sk driver_type =
    if str_eq driver_type node_driver_type
    then ok (record { zec_client = none; iscontroller = false; clock = clock })
    else elim (new_client ak sk) [
      | err e ↦ err (api e)
      | ok c ↦ elim c [
        | none ↦ err nil_client
        | some k ↦ ok (record { zec_client = some k; iscontroller = true; clock = clock })
      ]
    ]

module _ {W : Type 0} (cm : ZecCloudManager W) where
  -- `none` is a VM that does not exist.
  unfoldable pub get_vm_status : Text → Cloud W (Option Text)
  unfolding client one_instance_status
  get_vm_status vm = do
    refuse_if (is_empty vm) args_error
    c ← client cm
    response ← call (c.describe_instances_status (vm ∷ []))
    lift (one_instance_status response)

  unfoldable pub get_zone_list : Cloud W (List Text)
  unfolding client
  get_zone_list = do
    c ← client cm
    response ← call c.describe_disk_regions
    lift (elim response [ none ↦ err nil_response | some zones ↦ ok zones ])

  unfoldable pub is_controller : Bool
  is_controller = cm.iscontroller

  -- main calls it before the controller starts.
  unfoldable pub probe : Cloud W (Unit {0})
  unfolding client
  probe = do c ← client cm; regions ← call c.describe_disk_regions; pure tt

  -- `none` is a VM that does not exist.
  unfoldable pub find_instance : Text → Cloud W (Option ZecVm)
  unfolding client one_instance
  find_instance vmid = do
    refuse_if (is_empty vmid) args_error
    c ← client cm
    response ← call (c.describe_instances (vmid ∷ []))
    lift (one_instance response)

  -- The zone of the argument is not looked for: the call lists every zone.
  unfoldable pub get_zone : Text → Cloud W (Unit {0})
  unfolding client
  get_zone zone_id = do c ← client cm; call c.describe_zones
