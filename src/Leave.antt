-- ===== src/Leave.antt =====
-- internal/controllers/controlplane/ha_leave.go, ha_leave_etcdmember.go, ha_leave_unregistered.go and
-- ha_leave_nodename.go: the etcd-leave handshake of one control-plane Machine that is being deleted.
pub mod Steps
pub mod Reconcile
pub mod Handshake
pub mod Acks
pub mod Evidence
use cluster_api_provider_kai.Prelude.{
  ℕ, ◌+◌, ◌-◌, Bool, ◌&&◌, true, false, not, Option, none, some, List, [], ◌∷◌, Text, String, codes,
  ltb, leb, ◌==◌, if◌then◌else◌, is_some, put, remove, Annotations, map, Result, ok, err, Error,
  identity_changed, failed, Get, found, not_found, no_match, unreadable,
}
use cluster_api_provider_kai.Model.{
  Machine, ControlPlane, ConfigRef, Condition, or_else, registered,
}
use cluster_api_provider_kai.Session.{
  World, Api, Action, remove_hook, request_leave, set_spec_leave, act, clear_orphan,
}
use cluster_api_provider_kai.Etcd.{EtcdStatus}
use cluster_api_provider_kai.Identity.{frozen}
use cluster_api_provider_kai.Machines.{etcd_leave_hook, has_etcd_leave_hook}
use cluster_api_provider_kai.Member.{EtcdMember}

abbrev pub leave_requested_at_key : String
leave_requested_at_key = "controlplane.cluster.x-k8s.io/etcd-leave-requested-at"

abbrev pub leave_unreachable_since_key : String
leave_unreachable_since_key = "controlplane.cluster.x-k8s.io/etcd-leave-unreachable-since"

abbrev pub member_leave_requested_at_key : String
member_leave_requested_at_key = "controlplane.cluster.x-k8s.io/etcd-member-leave-requested-at"

abbrev pub member_leave_member_id_key : String
member_leave_member_id_key = "controlplane.cluster.x-k8s.io/etcd-member-leave-member-id"

-- memberLeaveTimeout, etcdMemberLeaveCap and leaveUnreachableBound, in seconds
abbrev pub member_leave_timeout : ℕ
member_leave_timeout = 300

abbrev pub etcd_member_leave_cap : ℕ
etcd_member_leave_cap = 600

abbrev pub leave_unreachable_bound : ℕ
leave_unreachable_bound = member_leave_timeout + etcd_member_leave_cap

-- etcdLeaveRequestedValue, etcdLeftValue
unfoldable pub leave_requested : Text
leave_requested = codes "leave-requested"

unfoldable pub left : Text
left = codes "left"

unfoldable pub kairos_config : Text
kairos_config = codes "KairosConfig"

unfoldable pub bootstrap_group : Text
bootstrap_group = codes "bootstrap.cluster.x-k8s.io"

-- strings.ToLower, on ASCII
unfoldable pub lower_char : ℕ → ℕ
lower_char c = if leb b'A' c && leb c b'Z' then c + 32 else c

abbrev pub to_lower : Text → Text
to_lower = map lower_char

-- What one pass over the Machine is told from outside, beside the identity reads: the leave
-- ConfigMap's apiservers, the KairosConfig of a Machine (its spec.hostname), the EtcdMember of the
-- node, the etcd status, and the failure of each write. `dns1123_label` is validation.IsDNS1123Label.
pub record LeaveApi : Type 0 where
  pub api : Api
  pub open api use *
  pub split_host_port : Text → Option Text
  pub dns1123_label : Text → Bool
  pub config_map_answers : Text → Bool
  pub hostname : ConfigRef → Get Text
  pub member : Get EtcdMember
  pub etcd_status : Result EtcdStatus
  pub hook_patch : Option Error
  pub annotate : String → Option Error
  pub config_map_write : Option Error
  pub member_patch : Option Error

-- The world, the Machine that leaves, and the data of the leave ConfigMap in the workload cluster
-- ("" where a key is missing).
pub record Leaving : Type 0 where
  pub world : World
  pub target : Machine
  pub config_map : Text → Text

-- `ok true` means that CAPI may go on, `ok false` that the reconcile comes back.
abbrev pub Pass : Type 0
Pass = Leaving → Result Bool × Leaving

abbrev pub set_target_annotation : String → Text → Leaving → Leaving
set_target_annotation k v s = record s {
  target = record s.target { annotations = put k v s.target.annotations };
}

module _ (env : LeaveApi) where
  open env use {now, parse_time, format_time}

  -- renderedHostname: the KairosConfig's spec.hostname, else the Machine's name
  unfoldable pub rendered_hostname : Machine → Result Text
  rendered_hostname m =
      if m.config_ref.name == codes ""
      then ok m.name
      else if not (m.config_ref.kind == kairos_config)
      then ok m.name
      else if not (m.config_ref.api_group == bootstrap_group)
      then ok m.name
      else elim (env.hostname m.config_ref) [
        | found h ↦ ok (if h == codes "" then m.name else h)
        | not_found ↦ ok m.name
        | _ ↦ err failed
      ]

  abbrev pub lowered : Result Text → Result Text
  lowered (ok h) = ok (to_lower h)
  lowered (err e) = err e

  unfoldable pub rendered_node_name : Machine → Result Text
  unfolding rendered_hostname
  rendered_node_name m = lowered (rendered_hostname m)

  unfoldable pub leave_node_name : Machine → Result Text
  unfolding rendered_node_name
  leave_node_name m = elim m.node_ref [ some name ↦ ok name | none ↦ rendered_node_name m ]

  -- more than `bound` seconds since the instant that the annotation holds
  abbrev pub expired : String → ℕ → Machine → Bool
  expired key bound m = elim (parse_time (or_else (m.annotations key) (codes ""))) [
    | none ↦ false
    | some at ↦ ltb bound (now - at)
  ]

  abbrev pub leave_timed_out : Machine → Bool
  leave_timed_out = expired leave_requested_at_key member_leave_timeout

  abbrev pub etcd_member_leave_capped : Machine → Bool
  etcd_member_leave_capped = expired member_leave_requested_at_key etcd_member_leave_cap

  abbrev pub leave_unreachable_expired : Machine → Bool
  leave_unreachable_expired = expired leave_unreachable_since_key leave_unreachable_bound

  -- annotateOnce of one key: a value that is there stays.
  unfoldable pub annotate_once : String → Text → Leaving → Option Error × Leaving
  annotate_once key value s =
      if is_some (s.target.annotations key) then (none, s) else elim (env.annotate key) [
        | some e ↦ (some e, s)
        | none ↦ (none, set_target_annotation key value s)
      ]

  unfoldable pub stamp_annotation_once : String → Leaving → Option Error × Leaving
  unfolding annotate_once
  stamp_annotation_once key s = annotate_once key (format_time now) s

  -- removeEtcdLeaveHook, and the `true` that its callers return with it
  unfoldable pub remove_etcd_leave_hook : Pass
  remove_etcd_leave_hook s =
      if not (has_etcd_leave_hook s.target)
      then (ok true, s)
      else if frozen s.world.kcp
      then (err identity_changed, s)
      else elim env.hook_patch [
        | some e ↦ (err e, s)
        | none ↦ (
          ok true,
          record s {
            target = record s.target { annotations = remove etcd_leave_hook s.target.annotations };
            world = act (remove_hook s.target.name) s.world;
          },
        )
      ]

  -- abandonMemberLeave: the warning is an event, and the hook goes
  unfoldable pub abandon_member_leave : Pass
  abandon_member_leave = remove_etcd_leave_hook

  -- what ensureLeaveRequested leaves under the node's key
  abbrev pub requested_value : Bool → Text → Text
  requested_value force old = if not force && old == left then left else leave_requested

  unfoldable pub ensure_leave_requested : Text → Bool → Leaving → Option Error × Leaving
  ensure_leave_requested node force s = elim env.config_map_write [
    | some e ↦ (some e, s)
    | none ↦ (
      none,
      record s {
        config_map =
            λ k. if k == node then requested_value force (s.config_map node) else s.config_map k;
        world = act (request_leave node) s.world;
      },
    )
  ]

  -- leaveUnreachable: stamp once, keep the hook for the bound, then abandon
  keep_or_abandon : Option Error × Leaving → Result Bool × Leaving
  keep_or_abandon (some e, s) = (err e, s)
  keep_or_abandon (none, s) =
      if leave_unreachable_expired s.target then abandon_member_leave s else (err failed, s)

  unfoldable pub leave_unreachable : Pass
  unfolding keep_or_abandon
  leave_unreachable s = keep_or_abandon (stamp_annotation_once leave_unreachable_since_key s)
