-- ===== src/Machines/Reconcile.antt =====
-- The order of the steps of reconcileMachines, kairoscontrolplane_controller.go.
use cluster_api_provider_kai.Prelude.{
  Bool, ◌&&◌, ◌||◌, true, false, Option, none, some, List, [], ◌∷◌, ltb, eqb, ◌==◌, if◌then◌else◌,
  Result, ok, err, identity_changed,
}
use cluster_api_provider_kai.Model.{
  Machine, desired_replicas, Outcome, after, joiner_gate_requeue_after,
  workload_identity_frozen_requeue_after, distribution_of, k0s,
}
use cluster_api_provider_kai.Session.{Api, Exec, ◌>>◌, continue}
use cluster_api_provider_kai.Identity.{Gate, frozen}
use cluster_api_provider_kai.Identity.Reconcile.{reconcile_workload_identity}
use cluster_api_provider_kai.Machines.{
  Ops, has_etcd_leave_hook, sort_machines_oldest_first, change_membership,
  k0s_join_token_recheck_interval,
}

-- The deferred requeue: while a k0s joiner is pending, come back in time.
unfoldable pub cap_requeue : Bool → Result Outcome → Result Outcome
cap_requeue pending (err e) = err e
cap_requeue pending (ok o) =
    if pending && (eqb o.requeue_after 0 || ltb k0s_join_token_recheck_interval o.requeue_after)
    then ok (after k0s_join_token_recheck_interval)
    else ok o

module _ (api : Api) (ops : Ops) where
  -- one hooked Machine of the sweep; an outcome ends the reconcile
  unfoldable pub swept : Result Bool → Exec (Option Outcome) → Exec (Option Outcome)
  swept (err identity_changed) rest w =
      (ok (some (after workload_identity_frozen_requeue_after)), w)
  swept (err e) rest w = (err e, w)
  swept (ok false) rest w = (ok (some (after joiner_gate_requeue_after)), w)
  swept (ok true) rest w = rest w

  -- Progress the etcd leave of every terminating, hooked Machine, oldest first.
  unfoldable pub sweep : List Machine → List Machine → Exec (Option Outcome)
  sweep all [] w = (ok none, w)
  sweep all (m ∷ ms) w =
      if m.deleting && has_etcd_leave_hook m
      then (let (r, w') = ops.leave all m w in swept r (sweep all ms) w')
      else sweep all ms w

  held_by : Option Outcome → List Machine → Exec Outcome
  held_by (some o) machines w = (ok o, w)
  held_by none machines w = change_membership api ops machines w

  unfoldable pub after_orphans : Result (Option Outcome) → List Machine → Exec Outcome
  unfolding held_by
  after_orphans (err identity_changed) machines w =
      (ok (after workload_identity_frozen_requeue_after), w)
  after_orphans (err e) machines w = (err e, w)
  after_orphans (ok hold) machines w = held_by hold machines w

  -- The orphan cleanup, then the scale and rollout steps unless it holds them.
  unfoldable pub clean_and_change : List Machine → Exec Outcome
  unfolding after_orphans
  clean_and_change machines w =
      let (r, w') = ops.orphans machines (desired_replicas w.kcp) w in after_orphans r machines w'

  -- from the join-token lifetime on: `pending` is what it returned
  unfoldable pub capped : Bool → List Machine → Exec Outcome
  capped pending machines w =
      if frozen w.kcp
      then (cap_requeue pending (ok (after workload_identity_frozen_requeue_after)), w)
      else (let (r, w') = clean_and_change machines w in (cap_requeue pending r, w'))

  unfoldable pub lifetime : List Machine → Exec Outcome
  unfolding capped
  lifetime machines w =
      if distribution_of w.kcp == k0s && w.kcp.kubeconfig_ready
      then (let (pending, w') = ops.token_lifetime machines w in capped pending machines w')
      else capped false machines w

  unfoldable pub after_sweep : Option Outcome → List Machine → Exec Outcome
  after_sweep (some o) machines w = (ok o, w)
  after_sweep none machines w =
      if ltb 1 (desired_replicas w.kcp)
      then (let (r, w') = ops.ensure_secrets w in continue r (λ _. lifetime machines) w')
      else clean_and_change machines w

  unfoldable pub after_gate : Gate → List Machine → Exec Outcome
  after_gate gate machines w =
      if gate.is_frozen
      then (ok (after workload_identity_frozen_requeue_after), w)
      else if gate.hold
      then (ok (after joiner_gate_requeue_after), w)
      else (let (r, w') = sweep machines machines w in continue r (λ o. after_sweep o machines) w')

  -- The identity gate comes before every membership action.
  unfoldable pub gate_and_go : List Machine → Exec Outcome
  gate_and_go machines w =
      let (r, w') = reconcile_workload_identity api machines (desired_replicas w.kcp) w in
      continue r (λ g. after_gate g machines) w'

  unfoldable pub reconcile_sorted : List Machine → Exec Outcome
  reconcile_sorted machines = do ops.update_machines machines; gate_and_go machines

  unfoldable pub reconcile_read : Result (List Machine) → Exec Outcome
  reconcile_read (err e) w = (err e, w)
  reconcile_read (ok machines) w = reconcile_sorted (sort_machines_oldest_first machines) w

  unfoldable pub reconcile_machines : Exec Outcome
  reconcile_machines = reconcile_read ops.machines_read
