-- ===== src/Cmd/Roles.antt =====
-- What a process that reaches Run of pkg/disk/rpcserver/run.go serves.
use zenlayer_cloud_csi_drive.Prelude.{
  ◌≡◌, ◌⊎◌, refl, ap, Bool, true, false, not, Option, none, some, ◌||◌, arith, Text, str_eq,
  str_eq_iff, is_empty, length, ◌==◌, Bool-cases, inl, inr,
}
use zenlayer_cloud_csi_drive.Prelude.Result.{Result, ok, Result-cases, is_ok}
use zenlayer_cloud_csi_drive.Prelude.Act.{with_error}
use zenlayer_cloud_csi_drive.Prelude.Returns.{
  Returns, Returns-pure, Returns-refuse_if, Returns-if, Returns-lift, Returns-with_error,
  Returns-bind, Returns-any,
}
use zenlayer_cloud_csi_drive.Common.Environment.{
  file_error, invalid_serial, no_zone, verify_env, get_zec_env, without_newlines, zecvmid_len,
  zec_product_serial_path, zec_product_family_path,
}
use zenlayer_cloud_csi_drive.Cloud.Client.{ZecCloudManager, ZecClient, Clock}
use zenlayer_cloud_csi_drive.Cloud.Exec.{SdkError}
use zenlayer_cloud_csi_drive.Cloud.Instances.{
  node_driver_type, controller_driver_type, new_zec_cloud_manager, probe,
}
use zenlayer_cloud_csi_drive.Host.System.{Host}
use zenlayer_cloud_csi_drive.Rpc.Start.{Servers, run_servers}
use zenlayer_cloud_csi_drive.Cmd.{
  Flags, Surroundings, check_flags, manager_of, secrets, wait_for_cloud, serving, start_up,
  is_driver_type, is_half_set, bad_env, bad_cloud, probe_loop, rounds_after_first, variables_of,
}
use zenlayer_cloud_csi_drive.Cmd.Probing.{probe_loop-Ends, tried}

abbrev pub is_some : {A : Type 0} → Option A → Bool
is_some none = false
is_some (some a) = true

-- An environment: a VM identifier of the right length, and a zone.
abbrev IsEnv : Text × Text → Type 0
IsEnv (vmid, zone) = ((length vmid == zecvmid_len) ≡ true) × (is_empty zone ≡ false)

get_zec_env-IsEnv : {W : Type 0} (h : Host W) → Returns IsEnv (get_zec_env h)
unfolding get_zec_env
get_zec_env-IsEnv h =
    Returns-any IsEnv (with_error file_error (h.read_file zec_product_serial_path)) _ (λ raw_id.
      Returns-refuse_if IsEnv (not (length (without_newlines raw_id) == zecvmid_len)) invalid_serial
        _
        (λ long.
          Returns-any IsEnv (with_error file_error (h.read_file zec_product_family_path)) _
            (λ raw_zone.
              Returns-refuse_if IsEnv (is_empty (without_newlines raw_zone)) no_zone _ (λ full.
                Returns-pure IsEnv (without_newlines raw_id, without_newlines raw_zone)
                  (ground (arith, long), full)))))

-- A manager with a client exactly if it is that of a controller.
abbrev IsManagerOf : {W : Type 0} → Text → ZecCloudManager W → Type 0
IsManagerOf t cm =
    (cm.iscontroller ≡ not (str_eq t node_driver_type))
    × (is_some cm.zec_client ≡ not (str_eq t node_driver_type))

new_zec_cloud_manager-IsManagerOf :
    {W : Type 0} (new_client : Text → Text → Result SdkError (Option (ZecClient W)))
    (clock : Clock W) (ak sk t : Text) (cm : ZecCloudManager W)
    → new_zec_cloud_manager new_client clock ak sk t ≡ ok cm
    → IsManagerOf t cm
unfolding new_zec_cloud_manager
new_zec_cloud_manager-IsManagerOf new_client clock ak sk t cm g = ground (arith, g)

module _ {W : Type 0} (o : Surroundings W) (f : Flags) where
  -- A node does not ask the cloud; for a controller, Probe has answered.
  abbrev Heard : ZecCloudManager W → Type 0
  Heard cm =
      (str_eq f.driver_type controller_driver_type ≡ false) ⊎ ((v : W) × ((probe cm v).0 ≡ ok tt))

  answered : (cm : ZecCloudManager W) (v : W) → is_ok (probe cm v).0 ≡ true → (probe cm v).0 ≡ ok tt
  answered cm v h = elim (Result-cases (probe cm v).0) [
    | inl (u, g) ↦ g
    | inr (e, g) ↦ ground (arith, g)
  ]

  probe_loop-Heard :
      (cm : ZecCloudManager W)
      → Returns (λ u. Heard cm) (probe_loop rounds_after_first (probe cm) o.sleep)
  probe_loop-Heard cm = record {
    at = λ w u w' g. elim (probe_loop-Ends (probe cm) o.sleep rounds_after_first w) [
      | inl (n, few, failed, done, r) ↦
          inr (tried (probe cm) o.sleep n w, answered cm (tried (probe cm) o.sleep n w) done)
      | inr (e, failed, r) ↦ ground (arith, r, g)
    ];
  }

  wait_for_cloud-Heard : (cm : ZecCloudManager W) → Returns (λ u. Heard cm) (wait_for_cloud o f cm)
  unfolding wait_for_cloud
  wait_for_cloud-Heard cm =
      Returns-if (λ u. Heard cm) (str_eq f.driver_type controller_driver_type) _ _
        (λ controller. Returns-with_error (λ u. Heard cm) bad_cloud _ (probe_loop-Heard cm))
        (λ node. Returns-pure (λ u. Heard cm) tt (inl node))

  manager_of-IsManagerOf :
      (keys : Text × Text) → Returns (IsManagerOf f.driver_type) (manager_of o f keys)
  unfolding manager_of
  manager_of-IsManagerOf (ak, pw) = Returns-lift (IsManagerOf f.driver_type) _ (λ cm g.
      elim (Result-cases (new_zec_cloud_manager o.new_client o.clock ak pw f.driver_type)) [
        | inl (made, e) ↦
            new_zec_cloud_manager-IsManagerOf o.new_client o.clock ak pw f.driver_type cm
              (ground (arith, g, e))
        | inr (x, e) ↦ ground (arith, g, e)
      ])

  -- The servers of a process whose flags are in order.
  pub record InOrder (s : Servers W) : Type 0 where
    pub env : Text × Text
    pub cm : ZecCloudManager W
    pub typed : is_driver_type f.driver_type ≡ true
    pub whole : is_half_set f.default_zone f.default_resource_group ≡ false
    pub here : IsEnv env
    pub managed : IsManagerOf f.driver_type cm
    pub heard : Heard cm
    pub served : s ≡ serving o f env cm

  -- What passes the checks of the flags.
  abbrev IsOrdered : Unit {0} → Type 0
  IsOrdered u =
      (is_driver_type f.driver_type ≡ true)
      × (is_half_set f.default_zone f.default_resource_group ≡ false)

  check_flags-IsOrdered : Returns IsOrdered (check_flags o f)
  unfolding check_flags
  check_flags-IsOrdered = record {
    at = λ w u w' g. elim (Bool-cases (is_half_set f.default_zone f.default_resource_group)) [
      | inl half ↦ ground (arith, half, g)
      | inr whole ↦ (ground (arith, whole, g), whole)
    ];
  }

  start_up-InOrder : Returns InOrder (start_up o f)
  unfolding start_up
  start_up-InOrder =
      Returns-bind IsOrdered InOrder (check_flags o f) _ check_flags-IsOrdered (λ u ordered.
        Returns-any InOrder (with_error bad_env (verify_env o.host)) _ (λ platform.
          Returns-bind IsEnv InOrder (with_error bad_env (get_zec_env o.host)) _
            (Returns-with_error IsEnv bad_env _ (get_zec_env-IsEnv o.host))
            (λ env here. Returns-any InOrder (secrets o f) _ (λ keys.
              Returns-bind (IsManagerOf f.driver_type) InOrder (manager_of o f keys) _
                (manager_of-IsManagerOf keys)
                (λ cm managed.
                  Returns-bind (λ u. Heard cm) InOrder (wait_for_cloud o f cm) _
                    (wait_for_cloud-Heard cm)
                    (λ u heard. Returns-pure InOrder (serving o f env cm) (record {
                      env = env;
                      cm = cm;
                      typed = ordered.0;
                      whole = ordered.1;
                      here = here;
                      managed = managed;
                      heard = heard;
                      served = refl;
                    })))))))

not_both : (t : Text) → str_eq t controller_driver_type ≡ true → str_eq t node_driver_type ≡ false
unfolding str_eq
not_both t h = rw ((str_eq_iff t controller_driver_type).0 h) refl

-- If main comes to serve, the flags name one of the two types of driver and set both defaults or
-- neither; the VM has an identifier of 19 characters and a zone; the cloud manager has a client and
-- is that of a controller exactly if the type is not `node`; and a controller has heard from the
-- cloud: Probe has succeeded. The identity service is registered always, the controller service
-- exactly for the type `controller`, and the node service exactly for the type `node` or with the
-- flag mixDriver; each is the one that Run makes of these values.
pub start_up_roles :
    {W : Type 0} (o : Surroundings W) (f : Flags) (w w' : W) (s : Servers W)
    → start_up o f w ≡ (ok s, w')
    → InOrder o f s
      × (is_some s.identity_server ≡ true)
      × (is_some s.controller_server ≡ str_eq f.driver_type controller_driver_type)
      × (is_some s.node_server ≡ (str_eq f.driver_type node_driver_type || f.mix_driver))
unfolding serving run_servers variables_of
start_up_roles o f w w' s g =
    let i = (start_up-InOrder o f).at w s w' g in
    elim (Bool-cases (str_eq f.driver_type controller_driver_type)) [
      | inl controller ↦ (
        i,
        ap (λ t. is_some t.identity_server) i.served,
        ground (arith, i.served, controller),
        ground (arith, i.served, controller, not_both f.driver_type controller),
      )
      | inr other ↦ (
        i,
        ap (λ t. is_some t.identity_server) i.served,
        ground (arith, i.served, other),
        ground (arith, i.served, other, i.typed),
      )
    ]
