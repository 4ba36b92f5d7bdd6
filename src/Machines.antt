-- ===== src/Machines.antt =====
-- kairoscontrolplane_controller.go (reconcileMachines, selectMachineForDeletion, machineMatchesVersion,
-- deleteControlPlaneMachine) and rollout.go, under internal/controllers/controlplane: the membership
-- changes of one reconcile.

pub mod Reconcile
pub mod Budget
pub mod Scaling
pub mod Order
use cluster_api_provider_kai.Prelude.{
  ℕ, suc, ◌+◌, Bool, ◌&&◌, ◌||◌, true, false, not, Option, none, some, List, [], ◌∷◌, Text, String,
  codes, length, leb, ltb, eqb, ◌==◌, if◌then◌else◌, is_some, Result, ok, err, Error,
  identity_changed, sort_by, text_less,
}
use cluster_api_provider_kai.Model.{
  Machine, ControlPlane, ControlPlaneRole, single, init, join, registered, or_else,
  desired_replicas, Outcome, done, after, joiner_gate_requeue_after,
  workload_identity_frozen_requeue_after, distribution_of, k0s,
}
use cluster_api_provider_kai.Etcd.{EtcdStatus, Verdict, allowed, can_remove_member}
use cluster_api_provider_kai.Session.{
  World, Api, Exec, ◌>>=◌, ◌>>◌, pure, raise, act, Action, delete_machine,
}
use cluster_api_provider_kai.Identity.{Gate, frozen, identity_preflight}
use cluster_api_provider_kai.Identity.Reconcile.{reconcile_workload_identity}
use cluster_api_provider_kai.Joiner.{
  control_plane_role_for_new_machine, Admission, held_back, admitted, admit_joiner,
}

-- clusterv1.PreTerminateDeleteHookAnnotationPrefix + "/" + etcdLeaveHookName
abbrev pub etcd_leave_hook : String
etcd_leave_hook = "pre-terminate.delete.hook.machine.cluster.x-k8s.io/kairos-etcd-leave"

abbrev pub has_etcd_leave_hook : Machine → Bool
has_etcd_leave_hook m = is_some (m.annotations etcd_leave_hook)

abbrev pub k0s_join_token_recheck_interval : ℕ
k0s_join_token_recheck_interval = 300

-- The steps that reconcileMachines calls, and the answers that it reads.
pub record Ops : Type 0 where
  -- getControlPlaneMachines
  pub machines_read : Result (List Machine)
  -- reconcileNodeDrainTimeout, reconcileMachineMetadata
  pub update_machines : List Machine → Exec (Unit {0})
  -- reconcileMemberLeave of one Machine
  pub leave : List Machine → Machine → Exec Bool
  -- ensureJoinTokenSecret, ensureEtcdStatusSecret
  pub ensure_secrets : Exec (Unit {0})
  -- reconcileK0sJoinTokenLifetime: whether a k0s joiner is pending
  pub token_lifetime : List Machine → World → Bool × World
  -- reconcileOrphanEtcdMembers: an outcome holds every other change
  pub orphans : List Machine → ℕ → Exec (Option Outcome)
  -- ensureK0sControllerJoinToken
  pub ensure_token : List Machine → Exec Text
  -- createControlPlaneMachine
  pub create : ControlPlaneRole → Text → Exec (Unit {0})
  -- readEtcdStatus, in the join gate and in the quorum guard
  pub gate_status : Result EtcdStatus
  pub guard_status : Result EtcdStatus
  -- the failure of the delete of a Machine
  pub delete_fails : Text → Option Error

-- sortMachinesOldestFirst of machine_names.go: by creation, then by name
unfoldable pub older : Machine → Machine → Bool
older a b = if eqb a.created b.created then text_less a.name b.name else ltb a.created b.created

unfoldable pub sort_machines_oldest_first : List Machine → List Machine
sort_machines_oldest_first = sort_by older

unfoldable pub machine_matches_version : Machine → Text → Bool
machine_matches_version m version = if m.version == codes "" then false else m.version == version

-- rolloutPlan
pub record RolloutPlan : Type 0 where
  pub desired : ℕ
  pub max_surge : ℕ
  pub outdated : List Machine
  pub updated : ℕ
  pub updated_joined : ℕ

unfoldable pub add_to_plan : Text → Machine → RolloutPlan → RolloutPlan
unfolding machine_matches_version
add_to_plan version m plan =
    if machine_matches_version m version
    then record plan {
      updated = suc plan.updated;
      updated_joined = if registered m then suc plan.updated_joined else plan.updated_joined;
    }
    else record plan { outdated = m ∷ plan.outdated }

-- the loop that splits the machines, oldest first
unfoldable pub plan_rollout : Text → ℕ → ℕ → List Machine → RolloutPlan
unfolding add_to_plan
plan_rollout version desired surge [] = record {
  desired = desired;
  max_surge = surge;
  outdated = [];
  updated = 0;
  updated_joined = 0;
}
plan_rollout version desired surge (m ∷ ms) =
    add_to_plan version m (plan_rollout version desired surge ms)

abbrev pub last_of : Machine → List Machine → Machine
last_of m [] = m
last_of m (x ∷ xs) = last_of x xs

unfoldable pub select_machine_for_deletion : List Machine → List Machine → Option Machine
select_machine_for_deletion machines (m ∷ outdated) = some m
select_machine_for_deletion [] [] = none
select_machine_for_deletion (m ∷ machines) [] = some (last_of m machines)

unfoldable pub any_deleting : List Machine → Bool
any_deleting [] = false
any_deleting (m ∷ ms) = m.deleting || any_deleting ms

-- A changed identity holds; any other failure is the reconcile's.
abbrev pub hold_if_changed : Error → Result Outcome
hold_if_changed identity_changed = ok (after workload_identity_frozen_requeue_after)
hold_if_changed e = err e

module _ (api : Api) (ops : Ops) where
  -- create, and what its caller does with its result
  unfoldable pub create_one : ControlPlaneRole → Text → Exec Outcome
  create_one role token w =
      let (r, w') = ops.create role token w in
      elim r [ ok _ ↦ (ok done, w') | err e ↦ (hold_if_changed e, w') ]

  unfoldable pub create_admitted : Result Admission → Exec Outcome
  create_admitted (err e) w = (hold_if_changed e, w)
  create_admitted (ok held_back) w = (ok (after joiner_gate_requeue_after), w)
  create_admitted (ok (admitted id)) w = create_one join id w

  -- One new machine; a joiner only when the gate admits it.
  unfoldable pub add_machine : ℕ → List Machine → Exec Outcome
  add_machine desired machines w = elim (control_plane_role_for_new_machine desired machines) [
    | join ↦
        let (r, w') = admit_joiner api (ops.ensure_token machines) ops.gate_status machines w in
        create_admitted r w'
    | role ↦ create_one role (codes "") w
  ]

  unfoldable pub delete_control_plane_machine : Machine → Exec (Unit {0})
  delete_control_plane_machine target w =
      if frozen w.kcp then (err identity_changed, w) else elim (ops.delete_fails target.name) [
        | some e ↦ (err e, w)
        | none ↦ (ok tt, act (delete_machine target.name) w)
      ]

  unfoldable pub delete_one : Machine → Exec Outcome
  delete_one target w =
      let (r, w') = delete_control_plane_machine target w in
      elim r [ ok _ ↦ (ok done, w') | err e ↦ (hold_if_changed e, w') ]

  unfoldable pub after_preflight : Option Outcome → Machine → Exec Outcome
  unfolding delete_one
  after_preflight (some o) target w = (ok o, w)
  after_preflight none target w = delete_one target w

  -- The quorum guard, the identity check, the delete.
  unfoldable pub remove_machine : Machine → Exec Outcome
  unfolding after_preflight
  remove_machine target w = elim (can_remove_member w.kcp ops.guard_status target) [
    | err e ↦ (err e, w)
    | ok allowed ↦ let (p, w') = identity_preflight api w in after_preflight p target w'
    | ok refused ↦ (ok (after joiner_gate_requeue_after), w)
  ]

  -- `oldest` is plan.outdated[0]; `machines` are all, oldest first.
  unfoldable pub reconcile_rollout : RolloutPlan → Machine → List Machine → Exec Outcome
  reconcile_rollout plan oldest machines w =
      if leb plan.desired 1
      then (ok done, w)
      else if any_deleting machines
      then (ok (after joiner_gate_requeue_after), w)
      else if ltb (length machines) (plan.desired + plan.max_surge)
      then add_machine plan.desired machines w
      else if ltb plan.desired (length machines) && eqb plan.updated_joined plan.updated
      then remove_machine oldest w
      else (ok (after joiner_gate_requeue_after), w)

  unfoldable pub scale_down : Option Machine → Exec Outcome
  scale_down none w = (ok done, w)
  scale_down (some target) w = remove_machine target w

  -- The scale paths, which run only while no machine is outdated.
  unfoldable pub scale : ℕ → List Machine → Exec Outcome
  scale desired machines w =
      if ltb (length machines) desired
      then add_machine desired machines w
      else if ltb desired (length machines)
      then scale_down (select_machine_for_deletion machines []) w
      else (ok done, w)

  unfoldable pub change_by_plan : RolloutPlan → List Machine → List Machine → Exec Outcome
  change_by_plan plan [] machines = scale plan.desired machines
  change_by_plan plan (oldest ∷ outdated) machines = reconcile_rollout plan oldest machines

  unfoldable pub change_membership : List Machine → Exec Outcome
  change_membership machines w =
      let plan =
        plan_rollout w.kcp.version (desired_replicas w.kcp) (or_else w.kcp.max_surge 1) machines in
      change_by_plan plan plan.outdated machines w
