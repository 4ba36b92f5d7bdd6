-- ===== src/Creation.antt =====
-- The creation of a control-plane Machine: internal/controllers/controlplane/machine_names.go,
-- createControlPlaneMachine and what it calls in kairoscontrolplane_controller.go, applyControlPlaneHASpec of
-- ha_tokens.go, and shouldStampEtcdLeaveHook of ha_leave.go.
pub mod Names
pub mod Outcome
pub mod Attempts
pub mod Bounds
use cluster_api_provider_kai.Prelude.{
  ℕ, zero, suc, ◌+◌, Bool, ◌&&◌, ◌||◌, true, false, not, Option, none, some, List, [], ◌∷◌, ◌++◌,
  Text, codes, length, take, leb, ltb, eqb, ◌==◌, if◌then◌else◌, keep, map, Annotations, put,
  Result, ok, err, Error, identity_changed, identity_not_pinned, name_taken, conflict, failed, Get,
  found, not_found, no_match, unreadable,
}
use cluster_api_provider_kai.Model.{
  ControlPlane, ControlPlaneRole, single, init, join, k0s, distribution_of,
}
use cluster_api_provider_kai.Session.{World, create_machine, act}
use cluster_api_provider_kai.Identity.{frozen}
use cluster_api_provider_kai.Machines.{etcd_leave_hook}

-- controlPlaneMachineNamePrefixMax: 63 characters, less the dash and the suffix of five
abbrev pub name_suffix_length : ℕ
name_suffix_length = 5

abbrev pub name_prefix_max : ℕ
name_prefix_max = 57

-- controlPlaneMachineNameAttempts, less the first
abbrev pub later_attempts : ℕ
later_attempts = 4

unfoldable pub dots_to_dashes : Text → Text
dots_to_dashes [] = []
dots_to_dashes (c ∷ s) = (if eqb c b'.' then b'-' else c) ∷ dots_to_dashes s

-- strings.TrimRight(s, "-")
abbrev pub trimmed_before : ℕ → Text → Text
trimmed_before c [] = if eqb c b'-' then [] else c ∷ []
trimmed_before c (d ∷ s) = c ∷ d ∷ s

unfoldable pub trim_dashes : Text → Text
trim_dashes [] = []
trim_dashes (c ∷ s) = trimmed_before c (trim_dashes s)

unfoldable pub name_prefix : Text → Text
name_prefix prefix =
    if ltb name_prefix_max (length prefix)
    then trim_dashes (take name_prefix_max prefix)
    else prefix

-- newControlPlaneMachineName, with the random suffix
unfoldable pub new_control_plane_machine_name : Text → Text → Text
new_control_plane_machine_name kcp_name suffix =
    name_prefix (dots_to_dashes kcp_name) ++ (b'-' ∷ suffix)

-- KairosConfigSpec, as far as the control plane sets it; a token reference is the name of its Secret.
pub record ConfigSpec : Type 0 where
  pub role : Text
  pub distribution : Text
  pub version : Text
  pub hostname : Text
  pub control_plane_role : Option ControlPlaneRole
  pub single_node : Bool
  pub k3s_token_ref : Option Text
  pub join_token_ref : Option Text
  pub vip : Option Text

-- The objects of one Machine, with what the controller sets on them.
pub data Object : Type 0 where
  config_object : Text → ConfigSpec → Text → Object
  infra_object : Text → Object
  machine_object : Text → Annotations → Object

-- An object of the same kind and name.
unfoldable pub clashes : Object → Object → Bool
clashes (config_object a spec token) (config_object b spec' token') = a == b
clashes (infra_object a) (infra_object b) = a == b
clashes (machine_object a notes) (machine_object b notes') = a == b
clashes (config_object a spec token) (infra_object b) = false
clashes (config_object a spec token) (machine_object b notes) = false
clashes (infra_object a) (config_object b spec token) = false
clashes (infra_object a) (machine_object b notes) = false
clashes (machine_object a notes) (config_object b spec token) = false
clashes (machine_object a notes) (infra_object b) = false

unfoldable pub exists : Object → List Object → Bool
exists o [] = false
exists o (x ∷ xs) = clashes o x || exists o xs

unfoldable pub erase : Object → List Object → List Object
erase o xs = keep (λ x. not (clashes o x)) xs

-- The world of the reconcile, the objects of the management cluster, and how many names have been tried.
pub record CreationState : Type 0 where
  pub world : World
  pub objects : List Object
  pub tried : ℕ

-- What a create is told from outside: the template, its hostname's validity, the namespace of the infrastructure
-- template, the clone of it, the i-th random suffix, the failing calls, and the reads of the cache behind the create
-- of a Machine, as many as the backoff allows.
pub record CreationApi : Type 0 where
  pub namespace : Text
  pub infra_namespace : Text
  pub join_token_secret : Text
  pub template : Get ConfigSpec
  pub valid_hostname : Text → Bool
  pub template_annotations : Annotations
  pub clone : Result (Unit {0})
  pub suffix : ℕ → Text
  pub create_fails : Object → Bool
  pub delete_fails : Object → Bool
  pub cache_reads : Text → List (Get (Unit {0}))

unfoldable pub is_single : ControlPlaneRole → Bool
is_single single = true
is_single init = false
is_single join = false

-- shouldStampEtcdLeaveHook
unfoldable pub should_stamp_etcd_leave_hook : ControlPlane → ControlPlaneRole → Bool
should_stamp_etcd_leave_hook kcp role = distribution_of kcp == k0s && not (is_single role)

module _ (c : CreationApi) (kcp : ControlPlane) where
  -- what is set for a member of a cluster of several
  abbrev pub with_vip : Option Text → ConfigSpec → ConfigSpec
  with_vip none spec = spec
  with_vip (some address) spec = record spec { vip = some address }

  unfoldable pub with_token_ref : ConfigSpec → ConfigSpec
  with_token_ref spec =
      if spec.distribution == codes "k3s"
      then record spec { k3s_token_ref = some c.join_token_secret }
      else record spec { join_token_ref = some c.join_token_secret }

  -- applyControlPlaneHASpec
  unfoldable pub apply_control_plane_ha_spec : ControlPlaneRole → ConfigSpec → ConfigSpec
  apply_control_plane_ha_spec role spec =
      let spec' = record spec { control_plane_role = some role; single_node = is_single role } in
      if is_single role then spec' else with_vip kcp.vip_address (with_token_ref spec')

  abbrev pub bare_spec : ConfigSpec
  bare_spec = record {
    role = codes "control-plane";
    distribution = distribution_of kcp;
    version = kcp.version;
    hostname = codes "";
    control_plane_role = none;
    single_node = false;
    k3s_token_ref = none;
    join_token_ref = none;
    vip = none;
  }

  abbrev pub from_template : Get ConfigSpec → Result ConfigSpec
  from_template (found spec) = ok (record spec {
    role = codes "control-plane";
    distribution = distribution_of kcp;
    version = kcp.version;
  })
  from_template not_found = err failed
  from_template no_match = err failed
  from_template unreadable = err failed

  unfoldable pub base_spec : Result ConfigSpec
  base_spec = if kcp.template_name == codes "" then ok bare_spec else from_template c.template

  unfoldable pub machine_annotations : ControlPlaneRole → Annotations
  machine_annotations role =
      if should_stamp_etcd_leave_hook kcp role
      then put etcd_leave_hook (codes "") c.template_annotations
      else c.template_annotations

  -- r.Create
  unfoldable pub create_object : Object → CreationState → Result (Unit {0}) × CreationState
  create_object o s =
      if c.create_fails o
      then (err failed, s)
      else if exists o s.objects
      then (err name_taken, s)
      else (ok tt, record s { objects = o ∷ s.objects })

  -- createdObjects.cleanup: the objects, the latest first; `cause` turns into another error when a delete fails.
  unfoldable pub cleanup : List Object → Error → CreationState → Error × CreationState
  cleanup [] cause s = (cause, s)
  cleanup (o ∷ os) cause s =
      if c.delete_fails o
      then cleanup os failed s
      else cleanup os cause (record s { objects = erase o s.objects })

  abbrev pub Created : Type 0
  Created = Result Text × CreationState

  abbrev pub fail_behind : List Object → Error → CreationState → Created
  fail_behind os cause s = let (e, s') = cleanup os cause s in (err e, s')

  unfoldable pub finish_machine :
      Text → List Object → ControlPlaneRole → Text → Result (Unit {0}) → CreationState → Created
  finish_machine name made role token (err e) s = fail_behind made e s
  finish_machine name made role token (ok _) s =
      (ok name, record s { world = act (create_machine role token) s.world })

  unfoldable pub make_machine :
      Text → List Object → ControlPlaneRole → Text → Result (Unit {0}) → CreationState → Created
  make_machine name made role token (err e) s = fail_behind made e s
  make_machine name made role token (ok _) s =
      let (r, s') = create_object (machine_object name (machine_annotations role)) s in
      finish_machine name (infra_object name ∷ made) role token r s'

  -- createInfrastructureMachine
  unfoldable pub make_infra : Text → CreationState → Result (Unit {0}) × CreationState
  make_infra name s =
      if not (c.infra_namespace == codes "") && not (c.infra_namespace == c.namespace)
      then (err failed, s)
      else elim c.clone [ err e ↦ (err failed, s) | ok _ ↦ create_object (infra_object name) s ]

  unfoldable pub make_rest :
      Text → Object → ControlPlaneRole → Text → Result (Unit {0}) → CreationState → Created
  make_rest name config role token (err e) s = (err e, s)
  make_rest name config role token (ok _) s =
      let (r, s') = make_infra name s in make_machine name (config ∷ []) role token r s'

  -- createControlPlaneMachineNamed
  unfoldable pub create_named : Text → ControlPlaneRole → Text → CreationState → Created
  create_named name role token s = elim base_spec [
    | err e ↦ (err e, s)
    | ok spec ↦
        let config = config_object name (apply_control_plane_ha_spec role spec) token in
        let (r, s') = create_object config s in make_rest name config role token r s'
  ]

  -- waitForMachineInCache
  unfoldable pub wait_for_machine_in_cache : List (Get (Unit {0})) → Result (Unit {0})
  wait_for_machine_in_cache [] = err failed
  wait_for_machine_in_cache (found _ ∷ rest) = ok tt
  wait_for_machine_in_cache (not_found ∷ rest) = wait_for_machine_in_cache rest
  wait_for_machine_in_cache (no_match ∷ rest) = err failed
  wait_for_machine_in_cache (unreadable ∷ rest) = err failed

  abbrev pub Creating : Type 0
  Creating = Result (Unit {0}) × CreationState

  -- `again` tries the next name, if an attempt is left.
  unfoldable pub after_attempt :
      Option (CreationState → Creating) → Result Text → CreationState → Creating
  after_attempt again (ok name) s = (wait_for_machine_in_cache (c.cache_reads name), s)
  after_attempt none (err e) s = (err e, s)
  after_attempt (some again) (err name_taken) s = again s
  after_attempt (some again) (err identity_changed) s = (err identity_changed, s)
  after_attempt (some again) (err identity_not_pinned) s = (err identity_not_pinned, s)
  after_attempt (some again) (err conflict) s = (err conflict, s)
  after_attempt (some again) (err failed) s = (err failed, s)

  abbrev pub attempt : ControlPlaneRole → Text → CreationState → Created
  attempt role token s =
      create_named (new_control_plane_machine_name kcp.name (c.suffix s.tried)) role token
        (record s { tried = suc s.tried })

  unfoldable pub try_names : ℕ → ControlPlaneRole → Text → CreationState → Creating
  try_names zero role token s = let (r, s') = attempt role token s in after_attempt none r s'
  try_names (suc left) role token s =
      let (r, s') = attempt role token s in after_attempt (some (try_names left role token)) r s'

  -- controlPlaneTemplateHostnameProblem: whether there is one
  unfoldable pub template_hostname_problem : Result Bool
  template_hostname_problem = if kcp.template_name == codes "" then ok false else elim c.template [
    | found spec ↦ ok (not (spec.hostname == codes "") && not (c.valid_hostname spec.hostname))
    | not_found ↦ ok false
    | no_match ↦ err failed
    | unreadable ↦ err failed
  ]

  unfoldable pub create_checked : ControlPlaneRole → Text → Result Bool → CreationState → Creating
  create_checked role token (err e) s = (err e, s)
  create_checked role token (ok true) s = (err failed, s)
  create_checked role token (ok false) s = try_names later_attempts role token s

  unfoldable pub create_control_plane_machine : ControlPlaneRole → Text → CreationState → Creating
  create_control_plane_machine role token s =
      if frozen kcp
      then (err identity_changed, s)
      else create_checked role token template_hostname_problem s
