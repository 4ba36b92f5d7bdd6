-- ===== src/Leave/Handshake.antt =====
-- The request and the ack in the leave ConfigMap, and the end of every wait (ha_leave.go).
use cluster_api_provider_kai.Prelude.{
  Bool, ◌&&◌, true, false, Option, none, some, List, Text, ◌==◌, ==_refl, ==_iff, ◌≡◌, ◌≢◌, ◌⊎◌,
  refl, if_elim, is_some, Result, ok, err, Error, identity_changed, identity_not_pinned, name_taken,
  conflict, failed, arith, inl, inr, Get, found, not_found, no_match, unreadable, Option-cases,
}
use cluster_api_provider_kai.Model.{Machine, registered, distribution_of, k0s}
use cluster_api_provider_kai.Session.{leaving}
use cluster_api_provider_kai.Identity.{frozen}
use cluster_api_provider_kai.Machines.{has_etcd_leave_hook}
use cluster_api_provider_kai.Member.{
  EtcdMember, etcd_member_id, not_in_etcd, etcd_member_peer_owner,
}
use cluster_api_provider_kai.Connect.Verified.{connect_verified-world}
use cluster_api_provider_kai.Leave.{
  LeaveApi, Leaving, member_leave_requested_at_key, member_leave_member_id_key, left,
  leave_requested, leave_node_name, leave_timed_out, etcd_member_leave_capped,
  stamp_annotation_once, remove_etcd_leave_hook, ensure_leave_requested, abandon_member_leave,
}
use cluster_api_provider_kai.Leave.Steps.{
  delegate_member_leave, delegate_to, ask_k0s, await_k0s, annotate_delegation, delegate_annotated,
  differs_from, capped_or_failed,
}
use cluster_api_provider_kai.Leave.Reconcile.{
  absent_from, write_first_request, requested, follow_request, progress_leave, connect_for_leave,
  reconcile_member_leave,
}

-- A pass that makes the first request of an eviction leaves the Machine without the stamp of a request,
-- or the ConfigMap with the request under the node's name, whatever an earlier eviction left there: a
-- stale ack is never taken for this one. No other node's entry changes.
pub write_first_request-clears_ack :
    (env : LeaveApi) (node other : Text) (s : Leaving)
    → requested s.target ≡ false
    → other ≢ node
    → let s' = (write_first_request env node s).1 in
      ((requested s'.target ≡ false) ⊎ (s'.config_map node ≡ leave_requested))
      × (s'.config_map other ≡ s.config_map other)
unfolding write_first_request ensure_leave_requested stamp_annotation_once
write_first_request-clears_ack env node other s h d =
    (ground (arith, ==_refl node), ground (arith, ==_iff other node))

-- The hook is gone, and CAPI may go on.
pub record Released (p : Result Bool × Leaving) : Type 0 where
  pub answer : p.0 ≡ ok true
  pub gone : has_etcd_leave_hook p.1.target ≡ false

-- The pass may still remove the hook: it is not frozen, and the patches of the Machine succeed.
pub record CanRelease (env : LeaveApi) (s : Leaving) : Type 0 where
  pub thawed : frozen s.world.kcp ≡ false
  pub hook_patched : env.hook_patch ≡ none
  pub id_patched : env.annotate member_leave_member_id_key ≡ none

module _ (env : LeaveApi) where
  remove-Released : (s : Leaving) → CanRelease env s → Released (remove_etcd_leave_hook env s)
  unfolding remove_etcd_leave_hook
  remove-Released s c = record { answer = ground arith; gone = ground arith }

  abandon-Released : (s : Leaving) → CanRelease env s → Released (abandon_member_leave env s)
  unfolding abandon_member_leave
  abandon-Released s c = remove-Released s c

  await-Released :
      (m : EtcdMember) (s : Leaving)
      → CanRelease env s
      → etcd_member_leave_capped env s.target ≡ true
      → Released (await_k0s env m s)
  unfolding await_k0s
  await-Released m s c capped =
      if_elim Released (not_in_etcd m) _ _ (λ out. remove-Released s c)
        λ inside.
          if_elim Released (etcd_member_leave_capped env s.target) _ _ (λ e. abandon-Released s c)
            λ e. absurd (cc)

  ask-Released :
      (node : Text) (m : EtcdMember) (s : Leaving)
      → CanRelease env s
      → etcd_member_leave_capped env s.target ≡ true
      → Released (ask_k0s env node m s)
  unfolding ask_k0s
  ask-Released node m s c capped =
      if_elim Released m.leave _ _ (λ asked. await-Released m s c capped)
        λ fresh. elim (Option-cases env.member_patch) [
          | inl e ↦ rw e (
              await-Released m _
                (record {
                  thawed = c.thawed;
                  hook_patched = c.hook_patched;
                  id_patched = c.id_patched;
                })
                capped)
          | inr (x, e) ↦ rw e (rw capped (abandon-Released s c))
        ]

  -- The delegation to k0s was stamped more than etcdMemberLeaveCap ago.
  pub record Capped (s : Leaving) : Type 0 where
    pub stamped : is_some (s.target.annotations member_leave_requested_at_key) ≡ true
    pub over : etcd_member_leave_capped env s.target ≡ true

  annotate-Capped :
      (id : Text) (s : Leaving)
      → CanRelease env s
      → Capped s
      → ((annotate_delegation env id s).0 ≡ none)
        × Capped (annotate_delegation env id s).1
        × ((annotate_delegation env id s).1.world ≡ s.world)
  unfolding annotate_delegation
  annotate-Capped id s c d =
      (ground arith, record { stamped = ground arith; over = ground arith }, ground arith)

  delegate_annotated-Released :
      (node : Text) (m : EtcdMember) (p : Option Error × Leaving)
      → p.0 ≡ none
      → CanRelease env p.1
      → Capped p.1
      → Released (delegate_annotated env node m p)
  unfolding delegate_annotated
  delegate_annotated-Released node m (none, s) e c d = ask-Released node m s c d.over
  delegate_annotated-Released node m (some x, s) e c d = absurd (cc)

  delegate_to-Released :
      (machines : List Machine) (node : Text) (m : EtcdMember) (s : Leaving)
      → CanRelease env s
      → Capped s
      → Released (delegate_to env machines node m s)
  unfolding delegate_to
  delegate_to-Released machines node m s c d =
      if_elim Released
        (is_some (etcd_member_peer_owner env.api env.split_host_port m machines s.target.name)) _ _
        (λ owned. abandon-Released s c)
        λ free. elim (Option-cases (etcd_member_id m)) [
          | inl e ↦ rw e (abandon-Released s c)
          | inr (id, e) ↦
              let (same, capped, world) = annotate-Capped id s c d in
              rw e (
                if_elim Released (differs_from (s.target.annotations member_leave_member_id_key) id)
                  _ _ (λ other. abandon-Released s c)
                  λ known.
                    delegate_annotated-Released node m (annotate_delegation env id s) same
                      (record {
                        thawed = rw world c.thawed;
                        hook_patched = c.hook_patched;
                        id_patched = c.id_patched;
                      })
                      capped)
        ]

  capped_or_failed-Released :
      (p : Option Error × Leaving)
      → p.0 ≡ none
      → CanRelease env p.1
      → Capped p.1
      → Released (capped_or_failed env p)
  capped_or_failed-Released (none, s) e c d = rw d.over (abandon-Released s c)
  capped_or_failed-Released (some x, s) e c d = absurd (cc)

  stamp-Capped :
      (s : Leaving)
      → Capped s
      → stamp_annotation_once env member_leave_requested_at_key s ≡ (none, s)
  unfolding stamp_annotation_once
  stamp-Capped s d = ground arith

  delegate-Released :
      (machines : List Machine) (node : Text) (conn : Result Text) (s : Leaving)
      → CanRelease env s
      → Capped s
      → Released (delegate_member_leave env machines node conn s)
  unfolding delegate_member_leave
  delegate-Released machines node (err e) s c d =
      rw (stamp-Capped s d, d.over) (abandon-Released s c)
  delegate-Released machines node (ok via) s c d = by_answer env.member refl
    where
      by_answer :
          (g : Get EtcdMember)
          → env.member ≡ g
          → Released (delegate_member_leave env machines node (ok via) s)
      by_answer (found m) e =
          rw (e, delegate_member_leave) (delegate_to-Released machines node m s c d)
      by_answer not_found e = rw (e, delegate_member_leave) (abandon-Released s c)
      by_answer no_match e = rw (e, delegate_member_leave) (abandon-Released s c)
      by_answer unreadable e =
          rw (e, delegate_member_leave) (rw (stamp-Capped s d, d.over) (abandon-Released s c))

  follow-Released :
      (machines : List Machine) (node : Text) (conn : Result Text) (s : Leaving)
      → conn ≢ err identity_changed
      → CanRelease env s
      → leave_timed_out env s.target ≡ true
      → Capped s
      → Released (follow_request env machines node conn s)
  unfolding follow_request
  follow-Released machines node (ok via) s same c late d =
      if_elim Released (s.config_map node == left) _ _ (λ acked. remove-Released s c)
        λ unacked.
          if_elim Released (registered s.target && absent_from node env.etcd_status) _ _
            (λ absent. remove-Released s c)
            λ present. rw late (delegate-Released machines node (ok via) s c d)
  follow-Released machines node (err identity_changed) s same c late d = absurd (same refl)
  follow-Released machines node (err identity_not_pinned) s same c late d =
      rw late (delegate-Released machines node (err identity_not_pinned) s c d)
  follow-Released machines node (err name_taken) s same c late d =
      rw late (delegate-Released machines node (err name_taken) s c d)
  follow-Released machines node (err conflict) s same c late d =
      rw late (delegate-Released machines node (err conflict) s c d)
  follow-Released machines node (err failed) s same c late d =
      rw late (delegate-Released machines node (err failed) s c d)

  -- A requested leave does not wedge a deletion. Once the request is older than memberLeaveTimeout and
  -- the delegation to k0s older than etcdMemberLeaveCap, a pass removes the hook and lets CAPI go on,
  -- whatever the workload cluster answers or fails to answer about the member, the ack or the status,
  -- as long as no apiserver answers with a changed identity, the control plane is k0s and not frozen,
  -- the node's name can be told, and the patches of the Machine succeed.
  pub reconcile_member_leave-Released :
      (machines : List Machine) (node : Text) (s : Leaving)
      → (connect_for_leave env machines s.target s.world).0 ≢ err identity_changed
      → (distribution_of s.world.kcp == k0s) ≡ true
      → leave_node_name env s.target ≡ ok node
      → CanRelease env s
      → requested s.target ≡ true
      → leave_timed_out env s.target ≡ true
      → Capped s
      → Released (reconcile_member_leave env machines s)
  unfolding reconcile_member_leave progress_leave
  reconcile_member_leave-Released machines node s same dist name c asked late d =
      let world : (connect_for_leave env machines s.target s.world).1 ≡ s.world =
        unfold connect_for_leave in
        connect_verified-world env.api leaving env.config_map_answers machines s.target.name
          s.target.addresses s.world (unfold connect_for_leave in same) in
      rw (c.thawed, dist, name, asked, world)
        (follow-Released machines node (connect_for_leave env machines s.target s.world).0 s same c
          late d)
