-- ===== src/Assembly/Steps.antt =====
-- The etcd leave and the orphan cleanup create and delete no Machine.
use cluster_api_provider_kai.Prelude.{
  Option, none, some, List, Text, ◌≡◌, refl, ◌∙◌, ap, arith, if_elim, is_some, Result, Result-cases,
  ok, err, Error, identity_changed, identity_not_pinned, name_taken, conflict, failed, Get-cases,
  inl, inr, Option-cases,
}
use cluster_api_provider_kai.Model.{Machine, registered}
use cluster_api_provider_kai.Session.{World, leaving}
use cluster_api_provider_kai.Member.{EtcdMember, etcd_member_id, etcd_member_peer_owner}
use cluster_api_provider_kai.Connect.Actions.{connect-actions}
use cluster_api_provider_kai.Leave.{
  LeaveApi, Leaving, annotate_once, stamp_annotation_once, remove_etcd_leave_hook,
  abandon_member_leave, ensure_leave_requested, leave_unreachable, leave_node_name,
  member_leave_requested_at_key,
}
use cluster_api_provider_kai.Leave.Steps.{
  Inspection, annotate_delegation, await_k0s, ask_k0s, delegate_annotated, delegate_to,
  delegate_member_leave, capped_or_failed, inspect_member, inspect_found,
  inspect_unregistered_leave, proceed, ended,
}
use cluster_api_provider_kai.Leave.Reconcile.{
  write_first_request, inspected, first_request, keep_waiting, follow_request, connect_for_leave,
  progress_leave, reconcile_member_leave,
}
use cluster_api_provider_kai.Machines.Budget.{membership_changes}

-- As many Machines have been created or deleted as before.
abbrev pub Keeps {ℓ} : {A : Type ℓ} → Leaving → A × Leaving → Type 0
Keeps s p = membership_changes p.1.world.actions ≡ membership_changes s.world.actions

module _ (env : LeaveApi) where
  remove-Keeps : (s : Leaving) → Keeps s (remove_etcd_leave_hook env s)
  unfolding remove_etcd_leave_hook membership_changes
  remove-Keeps s = ground arith

  abandon-Keeps : (s : Leaving) → Keeps s (abandon_member_leave env s)
  unfolding abandon_member_leave
  abandon-Keeps s = remove-Keeps s

  unreachable-Keeps : (s : Leaving) → Keeps s (leave_unreachable env s)
  unfolding leave_unreachable stamp_annotation_once annotate_once abandon_member_leave
      remove_etcd_leave_hook membership_changes
  unreachable-Keeps s = ground arith

  write_first-Keeps : (node : Text) (s : Leaving) → Keeps s (write_first_request env node s)
  unfolding write_first_request ensure_leave_requested stamp_annotation_once annotate_once
      membership_changes
  write_first-Keeps node s = ground arith

  keep_waiting-Keeps : (node : Text) (s : Leaving) → Keeps s (keep_waiting env node s)
  unfolding keep_waiting ensure_leave_requested membership_changes
  keep_waiting-Keeps node s = ground arith

  annotate-Keeps : (id : Text) (s : Leaving) → (annotate_delegation env id s).1.world ≡ s.world
  unfolding annotate_delegation
  annotate-Keeps id s = ground arith

  await-Keeps : (m : EtcdMember) (s : Leaving) → Keeps s (await_k0s env m s)
  unfolding await_k0s
  await-Keeps m s = ground (arith, remove-Keeps s, abandon-Keeps s)

  ask-Keeps : (node : Text) (m : EtcdMember) (s : Leaving) → Keeps s (ask_k0s env node m s)
  unfolding ask_k0s await_k0s abandon_member_leave remove_etcd_leave_hook membership_changes
  ask-Keeps node m s = ground arith

  delegated-Keeps :
      (node : Text) (m : EtcdMember) (s : Leaving) (p : Option Error × Leaving)
      → p.1.world ≡ s.world
      → Keeps s (delegate_annotated env node m p)
  unfolding delegate_annotated
  delegated-Keeps node m s (none, t) e =
      ask-Keeps node m t ∙ ap (λ (w : World). membership_changes w.actions) e
  delegated-Keeps node m s (some x, t) e = ap (λ (w : World). membership_changes w.actions) e

  delegate_to-Keeps :
      (machines : List Machine) (node : Text) (m : EtcdMember) (s : Leaving)
      → Keeps s (delegate_to env machines node m s)
  unfolding delegate_to
  delegate_to-Keeps machines node m s =
      if_elim (Keeps s)
        (is_some (etcd_member_peer_owner env.api env.split_host_port m machines s.target.name)) _ _
        (λ owned. abandon-Keeps s)
        λ free. elim (Option-cases (etcd_member_id m)) [
          | inl e ↦ rw e (abandon-Keeps s)
          | inr (id, e) ↦ rw e (
              ground (
                arith,
                abandon-Keeps s,
                delegated-Keeps node m s (annotate_delegation env id s) (annotate-Keeps id s),
              ))
        ]

  timed-Keeps :
      (s : Leaving)
      → Keeps s (capped_or_failed env (stamp_annotation_once env member_leave_requested_at_key s))
  unfolding stamp_annotation_once annotate_once abandon_member_leave remove_etcd_leave_hook
      membership_changes
  timed-Keeps s = ground arith

  delegate-Keeps :
      (machines : List Machine) (node : Text) (conn : Result Text) (s : Leaving)
      → Keeps s (delegate_member_leave env machines node conn s)
  unfolding delegate_member_leave
  delegate-Keeps machines node (err e) s = timed-Keeps s
  delegate-Keeps machines node (ok via) s = elim (Get-cases env.member) [
    | inl (m, e) ↦ ground (arith, e, delegate_to-Keeps machines node m s)
    | inr other ↦ ground (arith, other, timed-Keeps s, abandon-Keeps s)
  ]

  inspect_member-Keeps : (m : EtcdMember) (s : Leaving) → Keeps s (inspect_member env m s)
  unfolding inspect_member annotate_once remove_etcd_leave_hook membership_changes
  inspect_member-Keeps m s = ground arith

  inspect_found-Keeps :
      (machines : List Machine) (node : Text) (m : EtcdMember) (s : Leaving)
      → Keeps s (inspect_found env machines node m s)
  unfolding inspect_found
  inspect_found-Keeps machines node m s = ground (arith, abandon-Keeps s, inspect_member-Keeps m s)

  inspect-Keeps :
      (machines : List Machine) (node : Text) (s : Leaving)
      → Keeps s (inspect_unregistered_leave env machines node s)
  unfolding inspect_unregistered_leave
  inspect-Keeps machines node s = elim (Get-cases env.member) [
    | inl (m, e) ↦ ground (arith, e, unreachable-Keeps s, inspect_found-Keeps machines node m s)
    | inr other ↦ ground (arith, other, unreachable-Keeps s, abandon-Keeps s, remove-Keeps s)
  ]

  inspected-Keeps :
      (node : Text) (s : Leaving) (p : Inspection × Leaving)
      → Keeps s p
      → Keeps s (inspected env node p)
  unfolding inspected
  inspected-Keeps node s (proceed, t) e = write_first-Keeps node t ∙ e
  inspected-Keeps node s (ended r, t) e = e

  first-Keeps :
      (machines : List Machine) (node : Text) (conn : Result Text) (s : Leaving)
      → Keeps s (first_request env machines node conn s)
  unfolding first_request
  first-Keeps machines node (ok via) s =
      if_elim (Keeps s) (registered s.target) _ _ (λ known. write_first-Keeps node s)
        (λ unknown.
          inspected-Keeps node s (inspect_unregistered_leave env machines node s)
            (inspect-Keeps machines node s))
  first-Keeps machines node (err identity_changed) s = refl
  first-Keeps machines node (err identity_not_pinned) s = unreachable-Keeps s
  first-Keeps machines node (err name_taken) s = unreachable-Keeps s
  first-Keeps machines node (err conflict) s = unreachable-Keeps s
  first-Keeps machines node (err failed) s = unreachable-Keeps s

  follow-Keeps :
      (machines : List Machine) (node : Text) (conn : Result Text) (s : Leaving)
      → Keeps s (follow_request env machines node conn s)
  unfolding follow_request
  follow-Keeps machines node (ok via) s =
      ground
        (arith, remove-Keeps s, keep_waiting-Keeps node s, delegate-Keeps machines node (ok via) s)
  follow-Keeps machines node (err identity_changed) s = refl
  follow-Keeps machines node (err identity_not_pinned) s =
      ground (arith, delegate-Keeps machines node (err identity_not_pinned) s)
  follow-Keeps machines node (err name_taken) s =
      ground (arith, delegate-Keeps machines node (err name_taken) s)
  follow-Keeps machines node (err conflict) s =
      ground (arith, delegate-Keeps machines node (err conflict) s)
  follow-Keeps machines node (err failed) s =
      ground (arith, delegate-Keeps machines node (err failed) s)

  progress-Keeps :
      (machines : List Machine) (node : Text) (s : Leaving)
      → Keeps s (progress_leave env machines node s)
  unfolding progress_leave connect_for_leave
  progress-Keeps machines node s =
      let (conn, w) = connect_for_leave env machines s.target s.world in
      let t : Leaving = record s { world = w } in
      let e : membership_changes w.actions ≡ membership_changes s.world.actions =
        ap membership_changes (
          connect-actions env.api leaving env.config_map_answers machines s.target.name
            s.target.addresses s.world) in
      ground (arith, e, first-Keeps machines node conn t, follow-Keeps machines node conn t)

  pub reconcile_member_leave-Keeps :
      (machines : List Machine) (s : Leaving) → Keeps s (reconcile_member_leave env machines s)
  unfolding reconcile_member_leave
  reconcile_member_leave-Keeps machines s = elim (Result-cases (leave_node_name env s.target)) [
    | inl (node, e) ↦ ground (arith, e, remove-Keeps s, progress-Keeps machines node s)
    | inr (x, e) ↦ ground (arith, e, remove-Keeps s)
  ]
