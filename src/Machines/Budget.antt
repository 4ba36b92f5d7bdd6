-- ===== src/Machines/Budget.antt =====
-- At most one Machine is created or deleted in a reconcile.
use cluster_api_provider_kai.Prelude.{
  ℕ, suc, ◌+◌, ◌≤◌, Bool, ◌&&◌, false, Option, none, some, List, [], ◌∷◌, Text, codes, arith,
  Result, Result-cases, ok, err, inl, inr, Bool-cases,
}
use cluster_api_provider_kai.Model.{
  Machine, ControlPlaneRole, Outcome, desired_replicas, single, init, join, or_else,
}
use cluster_api_provider_kai.Session.{
  World, Api, Exec, Action, create_machine, delete_machine, continue, admitting,
}
use cluster_api_provider_kai.Machines.{
  Ops, create_one, create_admitted, add_machine, delete_control_plane_machine, remove_machine,
  reconcile_rollout, scale, RolloutPlan, change_by_plan, change_membership, plan_rollout,
  scale_down, select_machine_for_deletion, has_etcd_leave_hook, sort_machines_oldest_first,
}
use cluster_api_provider_kai.Joiner.{admit_joiner, Admission, held_back, admitted}
use cluster_api_provider_kai.Identity.{Gate, identity_preflight}
use cluster_api_provider_kai.Identity.Reconcile.{reconcile_workload_identity}
use cluster_api_provider_kai.Identity.Actions.{
  verify_endpoint-actions, preflight-actions, identity-actions,
}
use cluster_api_provider_kai.Machines.Reconcile.{
  swept, sweep, after_orphans, capped, lifetime, gate_and_go, reconcile_read, clean_and_change,
  after_sweep, after_gate, reconcile_sorted, reconcile_machines,
}

-- how many Machines were created or deleted
unfoldable pub membership_changes : List Action → ℕ
membership_changes [] = 0
membership_changes (create_machine role token ∷ as_) = suc (membership_changes as_)
membership_changes (delete_machine name ∷ as_) = suc (membership_changes as_)
membership_changes (other ∷ as_) = membership_changes as_

-- A step makes at most `n` such changes.
abbrev pub Spends {ℓ} : {A : Type ℓ} → ℕ → (World → A × World) → Type 0
Spends n m = (w : World) → membership_changes (m w).1.actions ≤ membership_changes w.actions + n

-- What reconcileMachines relies on: only createControlPlaneMachine creates a Machine, one at most, and
-- none of the other steps deletes one.
pub record Frugal (ops : Ops) : Type 0 where
  pub update_machines : (machines : List Machine) → Spends 0 (ops.update_machines machines)
  pub leave : (all : List Machine) (m : Machine) → Spends 0 (ops.leave all m)
  pub ensure_secrets : Spends 0 ops.ensure_secrets
  pub token_lifetime : (machines : List Machine) → Spends 0 (ops.token_lifetime machines)
  pub orphans : (machines : List Machine) (desired : ℕ) → Spends 0 (ops.orphans machines desired)
  pub ensure_token : (machines : List Machine) → Spends 0 (ops.ensure_token machines)
  pub create : (role : ControlPlaneRole) (token : Text) → Spends 1 (ops.create role token)

module _ (api : Api) (ops : Ops) (frugal : Frugal ops) where
  create_one-Spends :
      (role : ControlPlaneRole) (token : Text) → Spends 1 (create_one api ops role token)
  unfolding create_one
  create_one-Spends role token w = ground (arith, frugal.create role token w)

  create_admitted-Spends : (r : Result Admission) → Spends 1 (create_admitted api ops r)
  unfolding create_admitted
  create_admitted-Spends (err e) w = omega arith
  create_admitted-Spends (ok held_back) w = omega arith
  create_admitted-Spends (ok (admitted id)) w = create_one-Spends join id w

  admit_joiner-Spends :
      (machines : List Machine)
      → Spends 0 (admit_joiner api (ops.ensure_token machines) ops.gate_status machines)
  unfolding admit_joiner
  admit_joiner-Spends machines w =
      ground (arith, frugal.ensure_token machines w, verify_endpoint-actions api admitting w)

  add_machine-Spends :
      (desired : ℕ) (machines : List Machine) → Spends 1 (add_machine api ops desired machines)
  unfolding add_machine
  add_machine-Spends desired machines w = ground (
    arith,
    create_one-Spends init (codes "") w,
    create_one-Spends single (codes "") w,
    admit_joiner-Spends machines w,
    create_admitted-Spends
        (admit_joiner api (ops.ensure_token machines) ops.gate_status machines w).0
        (admit_joiner api (ops.ensure_token machines) ops.gate_status machines w).1,
  )

  delete-Spends : (target : Machine) → Spends 1 (delete_control_plane_machine api ops target)
  unfolding delete_control_plane_machine membership_changes
  delete-Spends target w = ground arith

  remove_machine-Spends : (target : Machine) → Spends 1 (remove_machine api ops target)
  unfolding remove_machine
  remove_machine-Spends target w =
      ground (arith, preflight-actions api w, delete-Spends target (identity_preflight api w).1)

  rollout-Spends :
      (plan : RolloutPlan) (oldest : Machine) (machines : List Machine)
      → Spends 1 (reconcile_rollout api ops plan oldest machines)
  unfolding reconcile_rollout
  rollout-Spends plan oldest machines w =
      ground (arith, add_machine-Spends plan.desired machines w, remove_machine-Spends oldest w)

  scale_down-Spends : (target : Option Machine) → Spends 1 (scale_down api ops target)
  unfolding scale_down
  scale_down-Spends none w = omega arith
  scale_down-Spends (some target) w = remove_machine-Spends target w

  scale-Spends : (desired : ℕ) (machines : List Machine) → Spends 1 (scale api ops desired machines)
  unfolding scale
  scale-Spends desired machines w = ground (
    arith,
    add_machine-Spends desired machines w,
    scale_down-Spends (select_machine_for_deletion machines []) w,
  )

  change_by_plan-Spends :
      (plan : RolloutPlan) (outdated machines : List Machine)
      → Spends 1 (change_by_plan api ops plan outdated machines)
  unfolding change_by_plan
  change_by_plan-Spends plan [] machines = scale-Spends plan.desired machines
  change_by_plan-Spends plan (oldest ∷ outdated) machines = rollout-Spends plan oldest machines

  change_membership-Spends :
      (machines : List Machine) → Spends 1 (change_membership api ops machines)
  unfolding change_membership
  change_membership-Spends machines w =
      let plan =
        plan_rollout w.kcp.version (desired_replicas w.kcp) (or_else w.kcp.max_surge 1) machines in
      change_by_plan-Spends plan plan.outdated machines w

  swept-Spends :
      (r : Result Bool) (rest : Exec (Option Outcome))
      → Spends 0 rest
      → Spends 0 (swept api ops r rest)
  unfolding swept
  swept-Spends r rest h w = ground (arith, h w)

  sweep-Spends : (all ms : List Machine) → Spends 0 (sweep api ops all ms)
  unfolding sweep
  sweep-Spends all [] w = omega arith
  sweep-Spends all (m ∷ ms) w = elim (Bool-cases (m.deleting && has_etcd_leave_hook m)) [
    | inl e ↦
        let (r, w') = ops.leave all m w in
        rw e (
          omega (
            arith,
            frugal.leave all m w,
            swept-Spends r (sweep api ops all ms) (sweep-Spends all ms) w',
          ))
    | inr e ↦ rw e (sweep-Spends all ms w)
  ]

  after_orphans-Spends :
      (r : Result (Option Outcome)) (machines : List Machine)
      → Spends 1 (after_orphans api ops r machines)
  unfolding after_orphans
  after_orphans-Spends (err e) machines w = ground arith
  after_orphans-Spends (ok none) machines w = change_membership-Spends machines w
  after_orphans-Spends (ok (some o)) machines w = omega arith

  clean_and_change-Spends : (machines : List Machine) → Spends 1 (clean_and_change api ops machines)
  unfolding clean_and_change
  clean_and_change-Spends machines w =
      let (r, w') = ops.orphans machines (desired_replicas w.kcp) w in
      omega (
        arith,
        frugal.orphans machines (desired_replicas w.kcp) w,
        after_orphans-Spends r machines w',
      )

  capped-Spends :
      (pending : Bool) (machines : List Machine) → Spends 1 (capped api ops pending machines)
  unfolding capped
  capped-Spends pending machines w = ground (arith, clean_and_change-Spends machines w)

  lifetime-Spends : (machines : List Machine) → Spends 1 (lifetime api ops machines)
  unfolding lifetime
  lifetime-Spends machines w =
      let (pending, w') = ops.token_lifetime machines w in
      ground (
        arith,
        frugal.token_lifetime machines w,
        capped-Spends pending machines w',
        capped-Spends false machines w,
      )

  after_sweep-Spends :
      (o : Option Outcome) (machines : List Machine) → Spends 1 (after_sweep api ops o machines)
  unfolding after_sweep
  after_sweep-Spends (some o) machines w = omega arith
  after_sweep-Spends none machines w =
      let (r, w') = ops.ensure_secrets w in
      ground (
        arith,
        frugal.ensure_secrets w,
        lifetime-Spends machines w',
        clean_and_change-Spends machines w,
      )

  after_gate-Spends :
      (gate : Gate) (machines : List Machine) → Spends 1 (after_gate api ops gate machines)
  unfolding after_gate
  after_gate-Spends gate machines w = elim (Result-cases (sweep api ops machines machines w).0) [
    | inl (o, e) ↦ ground (
      arith,
      e,
      sweep-Spends machines machines w,
      after_sweep-Spends o machines (sweep api ops machines machines w).1,
    )
    | inr (x, e) ↦ ground (arith, e, sweep-Spends machines machines w)
  ]

  gated-Spends :
      (r : Result Gate) (machines : List Machine)
      → Spends 1 (continue r (λ g. after_gate api ops g machines))
  gated-Spends (ok g) machines w = after_gate-Spends g machines w
  gated-Spends (err e) machines w = omega arith

  updated-Spends :
      (r : Result (Unit {0})) (machines : List Machine)
      → Spends 1 (continue r (λ _. gate_and_go api ops machines))
  unfolding gate_and_go
  updated-Spends (ok x) machines w =
      let (g, w') = reconcile_workload_identity api machines (desired_replicas w.kcp) w in
      ground (
        arith,
        identity-actions api machines (desired_replicas w.kcp) w,
        gated-Spends g machines w',
      )
  updated-Spends (err e) machines w = omega arith

  reconcile_read-Spends : (r : Result (List Machine)) → Spends 1 (reconcile_read api ops r)
  unfolding reconcile_read reconcile_sorted
  reconcile_read-Spends (err e) w = omega arith
  reconcile_read-Spends (ok machines) w =
      let sorted = sort_machines_oldest_first machines in
      let (r, w') = ops.update_machines sorted w in
      omega (arith, frugal.update_machines sorted w, updated-Spends r sorted w')

  -- If only createControlPlaneMachine creates a Machine, one at most at each call, and no other of the
  -- steps that reconcileMachines calls creates or deletes one, then a reconcile creates or deletes at
  -- most one Machine, whatever the API servers answer and on every error path.
  pub reconcile_machines-Spends :
      (w : World)
      → membership_changes (reconcile_machines api ops w).1.actions
        ≤ membership_changes w.actions + 1
  unfolding reconcile_machines
  reconcile_machines-Spends w = reconcile_read-Spends ops.machines_read w
