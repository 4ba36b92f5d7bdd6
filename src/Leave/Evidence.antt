-- ===== src/Leave/Evidence.antt =====
-- What a pass must have seen before it lets CAPI go on (ha_leave.go).
use cluster_api_provider_kai.Prelude.{
  true, false, List, Text, ◌==◌, ==_iff, ◌≡◌, ◌≢◌, refl, Result, ok, err, identity_changed,
  identity_not_pinned, name_taken, conflict, failed, arith, ◌⊎◌,
}
use cluster_api_provider_kai.Model.{Machine, registered, distribution_of, k0s}
use cluster_api_provider_kai.Session.{leaving}
use cluster_api_provider_kai.Connect.Verified.{Serves, connect_verified-Serves}
use cluster_api_provider_kai.Leave.{
  LeaveApi, Leaving, left, leave_node_name, leave_timed_out, leave_unreachable,
  leave_unreachable_expired, stamp_annotation_once, ensure_leave_requested, abandon_member_leave,
  remove_etcd_leave_hook,
}
use cluster_api_provider_kai.Leave.Steps.{machine_at_pre_terminate}
use cluster_api_provider_kai.Leave.Reconcile.{
  absent_from, keep_waiting, write_first_request, requested, first_request, follow_request,
  progress_leave, connect_for_leave, reconcile_member_leave,
}

-- The node acked, or, for a registered Machine, the etcd status was read and has no report of it.
abbrev pub HasLeft : LeaveApi → Text → Leaving → Type 0
HasLeft env node s =
    (s.config_map node ≡ left)
    ⊎ ((registered s.target ≡ true) × (absent_from node env.etcd_status ≡ true))

module _ (env : LeaveApi) where
  keep_waiting-waits : (node : Text) (s : Leaving) → (keep_waiting env node s).0 ≢ ok true
  unfolding keep_waiting ensure_leave_requested
  keep_waiting-waits node s h = ground arith

  write_first_request-waits :
      (node : Text) (s : Leaving) → (write_first_request env node s).0 ≢ ok true
  unfolding write_first_request ensure_leave_requested stamp_annotation_once
  write_first_request-waits node s h = ground arith

  follow-HasLeft :
      (machines : List Machine) (node : Text) (conn : Result Text) (s : Leaving)
      → leave_timed_out env s.target ≡ false
      → (follow_request env machines node conn s).0 ≡ ok true
      → ((via : Text) × (conn ≡ ok via)) × HasLeft env node s
  unfolding follow_request
  follow-HasLeft machines node (ok via) s early h =
      ((via, refl), ground (arith, ==_iff (s.config_map node) left, keep_waiting-waits node s))
  follow-HasLeft machines node (err identity_changed) s early h = absurd (cc)
  follow-HasLeft machines node (err identity_not_pinned) s early h = absurd (ground arith)
  follow-HasLeft machines node (err name_taken) s early h = absurd (ground arith)
  follow-HasLeft machines node (err conflict) s early h = absurd (ground arith)
  follow-HasLeft machines node (err failed) s early h = absurd (ground arith)

  connect_for_leave-Serves :
      (machines : List Machine) (s : Leaving) (via : Text)
      → (connect_for_leave env machines s.target s.world).0 ≡ ok via
      → Serves env.api leaving env.config_map_answers via s.world.kcp
  unfolding connect_for_leave
  connect_for_leave-Serves machines s via e =
      (connect_verified-Serves env.api leaving env.config_map_answers machines s.target.name
        s.target.addresses s.world via e).0

  -- For a leave that was requested and has not timed out, a k0s control plane lets CAPI go on only after
  -- an apiserver answered with the pinned identity, and either the leave ConfigMap holds the node's ack,
  -- or the Machine is registered and the etcd status, which was read, has no report of its node.
  pub reconcile_member_leave-HasLeft :
      (machines : List Machine) (node : Text) (s : Leaving)
      → (distribution_of s.world.kcp == k0s) ≡ true
      → leave_node_name env s.target ≡ ok node
      → requested s.target ≡ true
      → leave_timed_out env s.target ≡ false
      → (reconcile_member_leave env machines s).0 ≡ ok true
      → ((via : Text) × Serves env.api leaving env.config_map_answers via s.world.kcp)
        × HasLeft env node s
  unfolding reconcile_member_leave progress_leave
  reconcile_member_leave-HasLeft machines node s dist name asked early h =
      let (conn, w) = connect_for_leave env machines s.target s.world in
      let f = follow-HasLeft machines node conn (record s { world = w }) early (ground arith) in
      ((f.0.0, connect_for_leave-Serves machines s f.0.0 f.0.1), f.1)

  unreachable-expired :
      (s : Leaving)
      → (leave_unreachable env s).0 ≡ ok true
      → leave_unreachable_expired env (leave_unreachable env s).1.target ≡ true
  unfolding leave_unreachable stamp_annotation_once abandon_member_leave remove_etcd_leave_hook
  unreachable-expired s h = ground arith

  first-expired :
      (machines : List Machine) (node : Text) (conn : Result Text) (s : Leaving)
      → registered s.target ≡ true
      → (first_request env machines node conn s).0 ≡ ok true
      → ((via : Text) → conn ≢ ok via)
        × (leave_unreachable_expired env (first_request env machines node conn s).1.target ≡ true)
  unfolding first_request
  first-expired machines node (ok via) s node_ref h =
      absurd (ground (arith, write_first_request-waits node s))
  first-expired machines node (err identity_changed) s node_ref h = absurd (cc)
  first-expired machines node (err identity_not_pinned) s node_ref h =
      (λ via e. cc, unreachable-expired s h)
  first-expired machines node (err name_taken) s node_ref h = (λ via e. cc, unreachable-expired s h)
  first-expired machines node (err conflict) s node_ref h = (λ via e. cc, unreachable-expired s h)
  first-expired machines node (err failed) s node_ref h = (λ via e. cc, unreachable-expired s h)

  -- For a registered Machine whose leave was not requested yet, a k0s control plane lets CAPI go on
  -- only once CAPI has come to its pre-terminate hooks, in a pass that finds no verified workload
  -- apiserver, and once the stamp of the first pass without one, which is then on the Machine, is
  -- older than leaveUnreachableBound.
  pub reconcile_member_leave-unrequested :
      (machines : List Machine) (node : Text) (s : Leaving)
      → (distribution_of s.world.kcp == k0s) ≡ true
      → leave_node_name env s.target ≡ ok node
      → requested s.target ≡ false
      → registered s.target ≡ true
      → (reconcile_member_leave env machines s).0 ≡ ok true
      → (machine_at_pre_terminate s.target ≡ true)
        × ((via : Text) → (connect_for_leave env machines s.target s.world).0 ≢ ok via)
        × (leave_unreachable_expired env (reconcile_member_leave env machines s).1.target ≡ true)
  unfolding reconcile_member_leave progress_leave
  reconcile_member_leave-unrequested machines node s dist name fresh node_ref h =
      let (conn, w) = connect_for_leave env machines s.target s.world in
      let f = first-expired machines node conn (record s { world = w }) node_ref (ground arith) in
      (ground arith, f.0, ground (arith, f.1))
