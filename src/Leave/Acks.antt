-- ===== src/Leave/Acks.antt =====
-- What a pass of reconcileMemberLeave (ha_leave.go) does to the acks in the leave ConfigMap.
use cluster_api_provider_kai.Prelude.{
  true, Option, none, some, List, Text, ◌==◌, ==_iff, ◌≡◌, ◌≢◌, ◌⊎◌, refl, ◌∙◌, sym, ap, Result, ok,
  err, Error, identity_changed, identity_not_pinned, name_taken, conflict, failed, arith, inl, inr,
  Get, found, not_found, no_match, unreadable, Option-cases, Bool-cases,
}
use cluster_api_provider_kai.Model.{Machine, registered}
use cluster_api_provider_kai.Session.{act, set_spec_leave}
use cluster_api_provider_kai.Member.{EtcdMember, etcd_member_id}
use cluster_api_provider_kai.Leave.{
  LeaveApi, Leaving, left, leave_node_name, stamp_annotation_once, annotate_once,
  remove_etcd_leave_hook, ensure_leave_requested, abandon_member_leave, leave_unreachable,
  leave_unreachable_since_key, member_leave_requested_at_key, member_leave_member_id_key,
}
use cluster_api_provider_kai.Leave.Steps.{
  delegate_member_leave, delegate_to, ask_k0s, await_k0s, annotate_delegation, delegate_annotated,
  capped_or_failed, inspect_member, inspect_found, inspect_unregistered_leave, Inspection, proceed,
  ended,
}
use cluster_api_provider_kai.Leave.Reconcile.{
  write_first_request, inspected, keep_waiting, requested, first_request, follow_request,
  progress_leave, connect_for_leave, reconcile_member_leave,
}

module _ (env : LeaveApi) (k : Text) where
  removed : (s : Leaving) → (remove_etcd_leave_hook env s).1.config_map k ≡ s.config_map k
  unfolding remove_etcd_leave_hook
  removed s = ground arith

  stamped :
      (key : _) (value : Text) (s : Leaving)
      → (annotate_once env key value s).1.config_map k ≡ s.config_map k
  unfolding annotate_once
  stamped key value s = ground arith

  stamped_now :
      (key : _) (s : Leaving) → (stamp_annotation_once env key s).1.config_map k ≡ s.config_map k
  unfolding stamp_annotation_once
  stamped_now key s = stamped key (env.format_time env.now) s

  unreachable : (s : Leaving) → (leave_unreachable env s).1.config_map k ≡ s.config_map k
  unfolding leave_unreachable abandon_member_leave
  unreachable s =
      let s₁ = (stamp_annotation_once env leave_unreachable_since_key s).1 in
      ground (arith, stamped_now leave_unreachable_since_key s, removed s₁)

  capped : (p : Option Error × Leaving) → (capped_or_failed env p).1.config_map k ≡ p.1.config_map k
  unfolding abandon_member_leave
  capped (some e, s) = refl
  capped (none, s) = ground (arith, removed s)

  awaited : (m : EtcdMember) (s : Leaving) → (await_k0s env m s).1.config_map k ≡ s.config_map k
  unfolding await_k0s abandon_member_leave
  awaited m s = ground (arith, removed s)

  asked :
      (node : Text) (m : EtcdMember) (s : Leaving)
      → (ask_k0s env node m s).1.config_map k ≡ s.config_map k
  unfolding ask_k0s abandon_member_leave
  asked node m s = ground (
    arith,
    removed s,
    awaited m s,
    awaited m (record s { world = act (set_spec_leave node true) s.world }),
  )

  annotated :
      (node : Text) (m : EtcdMember) (p : Option Error × Leaving)
      → (delegate_annotated env node m p).1.config_map k ≡ p.1.config_map k
  unfolding delegate_annotated
  annotated node m (some e, s) = refl
  annotated node m (none, s) = asked node m s

  id_stamped :
      (id : Text) (s : Leaving) → (annotate_delegation env id s).1.config_map k ≡ s.config_map k
  unfolding annotate_delegation
  id_stamped id s = ground arith

  delegated_to :
      (machines : List Machine) (node : Text) (m : EtcdMember) (s : Leaving)
      → (delegate_to env machines node m s).1.config_map k ≡ s.config_map k
  unfolding delegate_to abandon_member_leave
  delegated_to machines node m s = elim (Option-cases (etcd_member_id m)) [
    | inl e ↦ ground (arith, e, removed s)
    | inr (id, e) ↦
        ground
          (arith, e, removed s, annotated node m (annotate_delegation env id s) ∙ id_stamped id s)
  ]

  delegated :
      (machines : List Machine) (node : Text) (conn : Result Text) (s : Leaving)
      → (delegate_member_leave env machines node conn s).1.config_map k ≡ s.config_map k
  unfolding delegate_member_leave abandon_member_leave
  delegated machines node (err e) s =
      capped (stamp_annotation_once env member_leave_requested_at_key s)
      ∙ stamped_now member_leave_requested_at_key s
  delegated machines node (ok via) s = by_member env.member refl
    where
      by_member :
          (g : Get EtcdMember)
          → env.member ≡ g
          → (delegate_member_leave env machines node (ok via) s).1.config_map k ≡ s.config_map k
      by_member (found m) e = rw (delegate_member_leave, e) (delegated_to machines node m s)
      by_member no_match e = rw (delegate_member_leave, e) (removed s)
      by_member not_found e = rw (delegate_member_leave, e) (removed s)
      by_member unreadable e =
          rw (delegate_member_leave, e)
            (capped (stamp_annotation_once env member_leave_requested_at_key s)
              ∙ stamped_now member_leave_requested_at_key s)

  member_inspected :
      (m : EtcdMember) (s : Leaving) → (inspect_member env m s).1.config_map k ≡ s.config_map k
  unfolding inspect_member
  member_inspected m s = elim (Option-cases (etcd_member_id m)) [
    | inl e ↦ ground (arith, e, removed s)
    | inr (id, e) ↦ ground (arith, e, removed s, stamped member_leave_member_id_key id s)
  ]

  found_inspected :
      (machines : List Machine) (node : Text) (m : EtcdMember) (s : Leaving)
      → (inspect_found env machines node m s).1.config_map k ≡ s.config_map k
  unfolding inspect_found abandon_member_leave
  found_inspected machines node m s = ground (arith, removed s, member_inspected m s)

  unregistered_inspected :
      (machines : List Machine) (node : Text) (s : Leaving)
      → (inspect_unregistered_leave env machines node s).1.config_map k ≡ s.config_map k
  unfolding inspect_unregistered_leave abandon_member_leave
  unregistered_inspected machines node s = by_member env.member refl
    where
      by_member :
          (g : Get EtcdMember)
          → env.member ≡ g
          → (inspect_unregistered_leave env machines node s).1.config_map k ≡ s.config_map k
      by_member (found m) e = ground (arith, e, unreachable s, found_inspected machines node m s)
      by_member no_match e = ground (arith, e, unreachable s, removed s)
      by_member not_found e = ground (arith, e, unreachable s, removed s)
      by_member unreadable e = ground (arith, e, unreachable s)

  -- a request that is forced changes the entry of this node alone
  requested_other :
      (node : Text) (s : Leaving)
      → k ≢ node
      → (write_first_request env node s).1.config_map k ≡ s.config_map k
  unfolding write_first_request ensure_leave_requested stamp_annotation_once annotate_once
  requested_other node s d = ground (arith, ==_iff k node)

  first_other :
      (machines : List Machine) (node : Text) (conn : Result Text) (s : Leaving)
      → k ≢ node
      → (first_request env machines node conn s).1.config_map k ≡ s.config_map k
  unfolding first_request inspected
  first_other machines node (ok via) s d = elim (Bool-cases (registered s.target)) [
    | inl e ↦ rw (first_request, e) (requested_other node s d)
    | inr e ↦
        rw (first_request, e)
          (after_inspection (inspect_unregistered_leave env machines node s)
            ∙ unregistered_inspected machines node s)
  ]
    where
      after_inspection :
          (p : Inspection × Leaving) → (inspected env node p).1.config_map k ≡ p.1.config_map k
      after_inspection (proceed, s₁) = requested_other node s₁ d
      after_inspection (ended r, s₁) = refl
  first_other machines node (err identity_changed) s d = refl
  first_other machines node (err identity_not_pinned) s d = unreachable s
  first_other machines node (err name_taken) s d = unreachable s
  first_other machines node (err conflict) s d = unreachable s
  first_other machines node (err failed) s d = unreachable s

  -- the write of a pass that waits keeps an ack, also one of this node
  waiting_keeps :
      (node : Text) (s : Leaving)
      → s.config_map k ≡ left
      → (keep_waiting env node s).1.config_map k ≡ left
  unfolding keep_waiting ensure_leave_requested
  waiting_keeps node s e = elim (Bool-cases (k == node)) [
    | inl same ↦
        let at = (==_iff k node).0 same in
        ground (arith, same, e, (==_iff (s.config_map node) left).1 (sym (ap s.config_map at) ∙ e))
    | inr other ↦ ground (arith, other, e)
  ]

  following_keeps :
      (machines : List Machine) (node : Text) (conn : Result Text) (s : Leaving)
      → s.config_map k ≡ left
      → (follow_request env machines node conn s).1.config_map k ≡ left
  unfolding follow_request
  following_keeps machines node (ok via) s e =
      ground (arith, removed s ∙ e, delegated machines node (ok via) s ∙ e, waiting_keeps node s e)
  following_keeps machines node (err identity_changed) s e = e
  following_keeps machines node (err identity_not_pinned) s e =
      ground (arith, e, delegated machines node (err identity_not_pinned) s)
  following_keeps machines node (err name_taken) s e =
      ground (arith, e, delegated machines node (err name_taken) s)
  following_keeps machines node (err conflict) s e =
      ground (arith, e, delegated machines node (err conflict) s)
  following_keeps machines node (err failed) s e =
      ground (arith, e, delegated machines node (err failed) s)

  -- No pass loses an ack of the eviction that it belongs to: an entry that is the ack stays the ack, if it
  -- is that of another node than the one that leaves, or if the leave of this Machine was requested.
  pub reconcile_member_leave-keeps_acks :
      (machines : List Machine) (node : Text) (s : Leaving)
      → leave_node_name env s.target ≡ ok node
      → (k ≢ node) ⊎ (requested s.target ≡ true)
      → s.config_map k ≡ left
      → (reconcile_member_leave env machines s).1.config_map k ≡ left
  unfolding reconcile_member_leave progress_leave
  reconcile_member_leave-keeps_acks machines node s name kept e =
      let (conn, w) = connect_for_leave env machines s.target s.world in
      let s₁ = record s { world = w } in
      elim (Bool-cases (requested s.target)) [
        | inl asked_ ↦
            ground (arith, name, asked_, removed s, e, following_keeps machines node conn s₁ e)
        | inr fresh ↦ elim kept [
          | inl other ↦
              ground (arith, name, fresh, removed s, e, first_other machines node conn s₁ other)
          | inr asked_ ↦ absurd (ground (arith, fresh, asked_))
        ]
      ]
