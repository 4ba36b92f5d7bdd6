-- ===== src/Leave/Reconcile.antt =====
-- reconcileMemberLeave of ha_leave.go: one pass over a hooked Machine that is being deleted.
use cluster_api_provider_kai.Prelude.{
  Bool, ◌&&◌, true, false, not, Option, none, some, List, Text, ◌==◌, if◌then◌else◌, is_some,
  Result, ok, err, Error, identity_changed, failed, lookup,
}
use cluster_api_provider_kai.Model.{Machine, registered, distribution_of, k0s}
use cluster_api_provider_kai.Session.{leaving, Exec}
use cluster_api_provider_kai.Etcd.{EtcdStatus}
use cluster_api_provider_kai.Identity.{frozen}
use cluster_api_provider_kai.Connect.{connect_verified}
use cluster_api_provider_kai.Leave.{
  LeaveApi, Leaving, Pass, leave_requested_at_key, left, leave_node_name, leave_timed_out,
  stamp_annotation_once, remove_etcd_leave_hook, ensure_leave_requested, leave_unreachable,
}
use cluster_api_provider_kai.Leave.Steps.{
  machine_at_pre_terminate, delegate_member_leave, inspect_unregistered_leave, Inspection, proceed,
  ended,
}

-- whether the etcd status could be read and has no report of the node
abbrev pub absent_from : Text → Result EtcdStatus → Bool
absent_from node (err e) = false
absent_from node (ok status) = not (is_some (lookup node status))

-- a leave was requested in this cycle
abbrev pub requested : Machine → Bool
requested m = is_some (m.annotations leave_requested_at_key)

module _ (env : LeaveApi) where
  open env use {api}

  stamp_requested : Option Error × Leaving → Result Bool × Leaving
  stamp_requested (some e, s) = (err e, s)
  stamp_requested (none, s) = (ok false, s)

  request_written : Option Error × Leaving → Result Bool × Leaving
  unfolding stamp_requested
  request_written (some e, s) = (err e, s)
  request_written (none, s) = stamp_requested (stamp_annotation_once env leave_requested_at_key s)

  -- The forced write clears a stale ack, and comes before the stamp.
  unfoldable pub write_first_request : Text → Pass
  unfolding request_written
  write_first_request node s = request_written (ensure_leave_requested env node true s)

  unfoldable pub inspected : Text → Inspection × Leaving → Result Bool × Leaving
  inspected node (proceed, s) = write_first_request node s
  inspected node (ended r, s) = (r, s)

  -- No leave was requested yet in this cycle.
  unfoldable pub first_request : List Machine → Text → Result Text → Pass
  first_request machines node (err identity_changed) s = (err identity_changed, s)
  first_request machines node (err e) s = leave_unreachable env s
  first_request machines node (ok via) s =
      if registered s.target
      then write_first_request node s
      else inspected node (inspect_unregistered_leave env machines node s)

  kept_waiting : Option Error × Leaving → Result Bool × Leaving
  kept_waiting (some e, s) = (err e, s)
  kept_waiting (none, s) = (ok false, s)

  -- Keep the sentinel in place and come back.
  unfoldable pub keep_waiting : Text → Pass
  unfolding kept_waiting
  keep_waiting node s = kept_waiting (ensure_leave_requested env node false s)

  -- A leave was requested: the ack, the missing report, the timeout.
  unfoldable pub follow_request : List Machine → Text → Result Text → Pass
  follow_request machines node (err identity_changed) s = (err identity_changed, s)
  follow_request machines node (err e) s =
      if leave_timed_out env s.target
      then delegate_member_leave env machines node (err e) s
      else (err failed, s)
  follow_request machines node (ok via) s =
      if s.config_map node == left
      then remove_etcd_leave_hook env s
      else if registered s.target && absent_from node env.etcd_status
      then remove_etcd_leave_hook env s
      else if leave_timed_out env s.target
      then delegate_member_leave env machines node (ok via) s
      else keep_waiting node s

  -- connectForLeave
  unfoldable pub connect_for_leave : List Machine → Machine → Exec Text
  connect_for_leave machines target =
      connect_verified api leaving env.config_map_answers machines target.name target.addresses

  unfoldable pub progress_leave : List Machine → Text → Pass
  progress_leave machines node s =
      let (conn, w) = connect_for_leave machines s.target s.world in
      let s₁ = record s { world = w } in
      if requested s.target
      then follow_request machines node conn s₁
      else first_request machines node conn s₁

  unfoldable pub reconcile_member_leave : List Machine → Pass
  reconcile_member_leave machines s =
      if frozen s.world.kcp
      then (err identity_changed, s)
      else if not (distribution_of s.world.kcp == k0s)
      then remove_etcd_leave_hook env s
      else elim (leave_node_name env s.target) [
        | err e ↦ (err e, s)
        | ok node ↦
            if not (requested s.target) && not (machine_at_pre_terminate s.target)
            then (ok false, s)
            else progress_leave machines node s
      ]
