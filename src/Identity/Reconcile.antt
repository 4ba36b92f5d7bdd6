-- ===== src/Identity/Reconcile.antt =====
-- reconcileWorkloadIdentity, pinWorkloadIdentity and observeWorkloadIdentity of ha_identity.go.
use cluster_api_provider_kai.Prelude.{
  ℕ, Bool, not, Option, none, some, List, [], ◌∷◌, Text, codes, ◌==◌, if◌then◌else◌, Result, ok,
  err, conflict,
}
use cluster_api_provider_kai.Model.{Machine, ControlPlane}
use cluster_api_provider_kai.Session.{Api, observing, pin_identity, Exec}
use cluster_api_provider_kai.Candidates.{leave_candidate_ips, leave_excluded_hosts}
use cluster_api_provider_kai.Identity.{
  Gate, open_gate, hold_gate, frozen_gate, frozen, pin_of, pin_key, set_annotation, via_endpoint,
  uid_shape, identity_applies, trip_identity_freeze, read_workload_identity,
  clear_repinned_identity_freeze, mark_identity_checked, forget_identity_check,
  identity_recheck_due,
}

-- identityObservation
pub record Observation : Type 0 where
  pub via : Text
  pub answer : Result Text

-- the answers among the observations, as `via` and UID
unfoldable pub answered : List Observation → List (Text × Text)
answered [] = []
answered (o ∷ os) = elim o.answer [ ok u ↦ (o.via, u) ∷ answered os | err e ↦ answered os ]

-- The first answer that fails a test.
unfoldable pub first_not : (Text → Bool) → List (Text × Text) → Option (Text × Text)
first_not good [] = none
first_not good ((via, u) ∷ rest) = if good u then first_not good rest else some (via, u)

module _ (api : Api) where
  observe_members : List Text → List Observation
  observe_members [] = []
  observe_members (ip ∷ ips) =
      record { via = ip; answer = read_workload_identity api observing ip } ∷ observe_members ips

  -- The endpoint, then every member that the etcd-leave handshake could use.
  unfoldable pub observe_workload_identity : ControlPlane → List Machine → List Observation
  unfolding observe_members
  observe_workload_identity kcp machines =
      record { via = via_endpoint; answer = read_workload_identity api observing via_endpoint }
      ∷ observe_members
          (leave_candidate_ips api machines (codes "") [] (leave_excluded_hosts api kcp))

  -- frozenGate after tripIdentityFreeze: this reconcile holds also where the write failed.
  trip_gate : Text → Text → Text → Exec Gate
  trip_gate via u pin w = (ok frozen_gate, trip_identity_freeze api observing u via pin w)

  pin_write : Text → Exec Gate
  pin_write u w = elim (api.kcp_patch pin_identity) [
    | none ↦ (ok open_gate, mark_identity_checked api (set_annotation pin_key u w))
    | some conflict ↦ (ok hold_gate, w)
    | some e ↦ (err e, w)
  ]

  -- pinWorkloadIdentity, from the answers on
  unfoldable pub pin_answers : List (Text × Text) → Exec Gate
  unfolding trip_gate pin_write
  pin_answers [] w = (ok hold_gate, w)
  pin_answers ((from, first) ∷ rest) w = elim (first_not uid_shape ((from, first) ∷ rest)) [
    | some (via, u) ↦ trip_gate via u (codes "") w
    | none ↦ elim (first_not (λ u. u == first) rest) [
      | some (via, u) ↦ trip_gate via u (codes "") w
      | none ↦ pin_write first w
    ]
  ]

  unfoldable pub pin_workload_identity : List Machine → Exec Gate
  unfolding pin_answers
  pin_workload_identity machines w =
      pin_answers (answered (observe_workload_identity w.kcp machines)) w

  unfoldable pub recheck_answers : Text → List (Text × Text) → Exec Gate
  unfolding trip_gate
  recheck_answers pin answers w = elim (first_not (λ u. u == pin) answers) [
    | some (via, u) ↦ trip_gate via u pin w
    | none ↦ elim answers [
      | [] ↦ (ok open_gate, w)
      | _ ∷ _ ↦ (ok open_gate, mark_identity_checked api w)
    ]
  ]

  -- What follows once the freeze of a re-pinned identity is cleared.
  unfoldable pub gate_identity : List Machine → ℕ → Exec Gate
  gate_identity machines desired w =
      if frozen w.kcp
      then (ok frozen_gate, forget_identity_check w)
      else if not (identity_applies w.kcp machines desired)
      then (ok open_gate, w)
      else if pin_of w.kcp == codes ""
      then (if w.kcp.kubeconfig_ready then pin_workload_identity machines w else (ok hold_gate, w))
      else if identity_recheck_due api w
      then recheck_answers (pin_of w.kcp) (answered (observe_workload_identity w.kcp machines)) w
      else (ok open_gate, w)

  -- a conflict while a freeze is being cleared holds; any other failure is returned
  unfoldable pub after_clear : Result (Unit {0}) → List Machine → ℕ → Exec Gate
  after_clear (ok _) machines desired w = gate_identity machines desired w
  after_clear (err conflict) machines desired w = (ok hold_gate, w)
  after_clear (err e) machines desired w = (err e, w)

  unfoldable pub reconcile_workload_identity : List Machine → ℕ → Exec Gate
  unfolding after_clear
  reconcile_workload_identity machines desired w =
      let (r, w') = clear_repinned_identity_freeze api w in after_clear r machines desired w'
