-- ===== src/Leave/Steps.antt =====
-- delegateMemberLeave (ha_leave_etcdmember.go), inspectUnregisteredLeave (ha_leave_unregistered.go)
-- and reconcileMemberLeave (ha_leave.go).
use cluster_api_provider_kai.Prelude.{
  Bool, ◌&&◌, ◌||◌, true, false, not, Option, none, some, List, [], ◌∷◌, Text, codes, ◌==◌, eqb,
  if◌then◌else◌, is_some, Result, ok, err, Error, failed, found, not_found, no_match, unreadable,
}
use cluster_api_provider_kai.Model.{Machine}
use cluster_api_provider_kai.Session.{set_spec_leave, act}
use cluster_api_provider_kai.Member.{
  EtcdMember, not_in_etcd, etcd_member_id, etcd_member_peer_owner,
}
use cluster_api_provider_kai.Leave.{
  LeaveApi, Leaving, Pass, member_leave_requested_at_key, member_leave_member_id_key,
  set_target_annotation, rendered_hostname, leave_node_name, etcd_member_leave_capped,
  annotate_once, stamp_annotation_once, remove_etcd_leave_hook, abandon_member_leave,
  leave_unreachable,
}

-- clusterv1.MachineDeletingWaitingForPreTerminateHookReason, metav1.ConditionTrue
unfoldable pub waiting_for_pre_terminate_hook : Text
waiting_for_pre_terminate_hook = codes "WaitingForPreTerminateHook"

unfoldable pub condition_true : Text
condition_true = codes "True"

unfoldable pub machine_at_pre_terminate : Machine → Bool
machine_at_pre_terminate m = elim m.deleting_condition [
  | none ↦ false
  | some c ↦ c.status == condition_true && c.reason == waiting_for_pre_terminate_hook
]

-- strings.Contains(h, "{{")
unfoldable pub has_template_markup : Text → Bool
has_template_markup [] = false
has_template_markup (x ∷ []) = false
has_template_markup (x ∷ y ∷ s) = eqb x b'{' && eqb y b'{' || has_template_markup (y ∷ s)

-- What inspectUnregisteredLeave decides: go on with the handshake, or end the pass.
pub data Inspection : Type 0 where
  proceed : Inspection
  ended : Result Bool → Inspection

abbrev pub differs_from : Option Text → Text → Bool
differs_from none id = false
differs_from (some recorded) id = not (recorded == id)

module _ (env : LeaveApi) where
  open env use {api, now, format_time}

  abbrev pub valid_node_hostname : Text → Bool
  valid_node_hostname h = not (has_template_markup h) && env.dns1123_label h

  -- After a stamp: an error ends the pass, an expired cap abandons the leave, else the pass fails
  -- with the error that it met.
  abbrev pub capped_or_failed : Option Error × Leaving → Result Bool × Leaving
  capped_or_failed (some e, s) = (err e, s)
  capped_or_failed (none, s) =
      if etcd_member_leave_capped env s.target then abandon_member_leave env s else (err failed, s)

  -- annotateOnce of the start of the delegation and of the member ID, in one patch
  unfoldable pub annotate_delegation : Text → Leaving → Option Error × Leaving
  annotate_delegation id s =
      if is_some (s.target.annotations member_leave_requested_at_key)
        && is_some (s.target.annotations member_leave_member_id_key)
      then (none, s)
      else elim (env.annotate member_leave_member_id_key) [
        | some e ↦ (some e, s)
        | none ↦
            let s₁ =
              if is_some (s.target.annotations member_leave_requested_at_key)
              then s
              else set_target_annotation member_leave_requested_at_key (format_time now) s in
            (
              none,
              if is_some (s.target.annotations member_leave_member_id_key)
                  then s₁
                  else set_target_annotation member_leave_member_id_key id s₁,
            )
      ]

  -- k0s has been asked: wait until it reports the member gone, or the cap.
  unfoldable pub await_k0s : EtcdMember → Pass
  await_k0s m s =
      if not_in_etcd m
      then remove_etcd_leave_hook env s
      else if etcd_member_leave_capped env s.target
      then abandon_member_leave env s
      else (ok false, s)

  unfoldable pub ask_k0s : Text → EtcdMember → Pass
  ask_k0s node m s = if m.leave then await_k0s m s else elim env.member_patch [
    | some e ↦
        if etcd_member_leave_capped env s.target
        then abandon_member_leave env s
        else (err failed, s)
    | none ↦ await_k0s m (record s { world = act (set_spec_leave node true) s.world })
  ]

  unfoldable pub delegate_annotated :
      Text → EtcdMember → Option Error × Leaving → Result Bool × Leaving
  delegate_annotated node m (some e, s) = (err e, s)
  delegate_annotated node m (none, s) = ask_k0s node m s

  unfoldable pub delegate_to : List Machine → Text → EtcdMember → Pass
  delegate_to machines node m s =
      if is_some (etcd_member_peer_owner api env.split_host_port m machines s.target.name)
      then abandon_member_leave env s
      else elim (etcd_member_id m) [
        | none ↦ abandon_member_leave env s
        | some id ↦
            if differs_from (s.target.annotations member_leave_member_id_key) id
            then abandon_member_leave env s
            else delegate_annotated node m (annotate_delegation id s)
      ]

  -- `conn` is what connectForLeave returned.
  unfoldable pub delegate_member_leave : List Machine → Text → Result Text → Pass
  delegate_member_leave machines node (err e) s =
      capped_or_failed (stamp_annotation_once env member_leave_requested_at_key s)
  delegate_member_leave machines node (ok via) s = elim env.member [
    | found m ↦ delegate_to machines node m s
    | no_match ↦ abandon_member_leave env s
    | not_found ↦ abandon_member_leave env s
    | unreadable ↦ capped_or_failed (stamp_annotation_once env member_leave_requested_at_key s)
  ]

  -- otherMachineWithNodeName: the first other Machine of that node name, or a failed read
  unfoldable pub other_machine_with_node_name : Text → Text → List Machine → Result (Option Text)
  other_machine_with_node_name target node [] = ok none
  other_machine_with_node_name target node (m ∷ ms) =
      let rest = other_machine_with_node_name target node ms in
      if m.name == target then rest else elim (leave_node_name env m) [
        | err e ↦ err e
        | ok name ↦ if name == node then ok (some m.name) else rest
      ]

  pin_member : Option Error × Leaving → Inspection × Leaving
  pin_member (some e, s) = (ended (err e), s)
  pin_member (none, s) = (proceed, s)

  abbrev pub end_with : Result Bool × Leaving → Inspection × Leaving
  end_with (r, s) = (ended r, s)

  -- The member may be a live one: its ID is recorded, and the handshake goes on.
  unfoldable pub inspect_member : EtcdMember → Leaving → Inspection × Leaving
  unfolding pin_member
  inspect_member m s =
      if not_in_etcd m then end_with (remove_etcd_leave_hook env s) else elim (etcd_member_id m) [
        | none ↦ (proceed, s)
        | some id ↦ pin_member (annotate_once env member_leave_member_id_key id s)
      ]

  unfoldable pub inspect_found : List Machine → Text → EtcdMember → Leaving → Inspection × Leaving
  inspect_found machines node m s =
      if is_some (etcd_member_peer_owner api env.split_host_port m machines s.target.name)
      then end_with (abandon_member_leave env s)
      else elim (other_machine_with_node_name s.target.name node machines) [
        | err e ↦ (ended (err e), s)
        | ok (some other) ↦ end_with (abandon_member_leave env s)
        | ok none ↦ inspect_member m s
      ]

  unfoldable pub inspect_unregistered_leave : List Machine → Text → Leaving → Inspection × Leaving
  inspect_unregistered_leave machines node s = elim (rendered_hostname env s.target) [
    | err e ↦ (ended (err e), s)
    | ok raw ↦
        if not (valid_node_hostname raw)
        then end_with (leave_unreachable env s)
        else elim env.member [
          | found m ↦ inspect_found machines node m s
          | no_match ↦ end_with (abandon_member_leave env s)
          | not_found ↦ end_with (remove_etcd_leave_hook env s)
          | unreadable ↦ end_with (leave_unreachable env s)
        ]
  ]
