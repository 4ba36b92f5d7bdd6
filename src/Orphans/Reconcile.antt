-- ===== src/Orphans/Reconcile.antt =====
-- reconcileOrphanEtcdMembers, removeOneOrphan and progressOrphanLeave of ha_etcd_orphans.go.
use cluster_api_provider_kai.Prelude.{
  ℕ, ◌-◌, Bool, ◌&&◌, ◌||◌, true, false, not, Option, none, some, List, [], ◌∷◌, Text, codes, ltb,
  leb, ◌==◌, if◌then◌else◌, is_some, keep, sort_by, text_less, Result, ok, err, Error,
  identity_changed, conflict, Get, found, not_found, no_match, unreadable,
}
use cluster_api_provider_kai.Model.{
  Machine, Outcome, after, joiner_gate_requeue_after, distribution_of, k0s,
}
use cluster_api_provider_kai.Session.{
  World, Exec, act, set_spec_leave, orphans, record_orphan, clear_orphan,
}
use cluster_api_provider_kai.Etcd.{EtcdStatus}
use cluster_api_provider_kai.Identity.{frozen, set_annotation, drop_annotation}
use cluster_api_provider_kai.Connect.{connect_verified}
use cluster_api_provider_kai.Member.{EtcdMember, not_in_etcd, etcd_member_id}
use cluster_api_provider_kai.Leave.{LeaveApi, etcd_member_leave_cap}
use cluster_api_provider_kai.Orphans.{
  orphan_leave_key, etcd_orphan_check_interval, deleting_machine, orphan_cleanup_blocked,
  all_report_healthy, ExpectedMembers, is_expected, expected_etcd_members, orphan_removal_blocked,
}
use cluster_api_provider_kai.Orphans.Record.{OrphanLeave, format_orphan_leave, parse_orphan_leave}

-- What the cleanup is told from outside, beside the reads of the etcd leave: every control-plane Machine
-- of the cluster, the EtcdMembers as listed, one of them by name, and the failure of a spec.leave patch.
-- `valid_name` is validEtcdMemberName.
pub record OrphanApi : Type 0 where
  pub env : LeaveApi
  pub valid_name : Text → Bool
  pub all_machines : Result (List Machine)
  pub listed : Get (List EtcdMember)
  pub member : Text → Get EtcdMember
  pub patch_member : Bool → Option Error

-- An outcome holds every other change of membership.
abbrev pub Held : Type 0
Held = Result (Option Outcome) × World

abbrev pub waiting : Option Outcome
waiting = some (after joiner_gate_requeue_after)

-- the members that k0s does not report as out of etcd
abbrev pub joined_members : List EtcdMember → List EtcdMember
joined_members = keep (λ m. not (not_in_etcd m))

abbrev pub less_member : EtcdMember → EtcdMember → Bool
less_member a b = text_less a.name b.name

abbrev pub forget_orphan_check : World → World
forget_orphan_check w = record w { orphan_checked_at = none }

module _ (o : OrphanApi) where
  abbrev pub mark_orphan_checked : World → World
  mark_orphan_checked w = record w { orphan_checked_at = some o.env.now }

  abbrev pub orphan_check_due : World → Bool
  orphan_check_due w = elim w.orphan_checked_at [
    | none ↦ true
    | some at ↦ leb etcd_orphan_check_interval (o.env.now - at)
  ]

  -- No Machine is excluded, and no ConfigMap is read through the connection.
  abbrev pub connect_for_orphans : List Machine → Exec Text
  connect_for_orphans machines =
      connect_verified o.env.api orphans (λ via. true) machines (codes "") []

  -- the first orphan with a valid name and a member ID
  unfoldable pub first_target : List EtcdMember → Option (EtcdMember × Text)
  first_target [] = none
  first_target (m ∷ ms) =
      let rest = first_target ms in
      if not (o.valid_name m.name)
      then rest
      else elim (etcd_member_id m) [ none ↦ rest | some id ↦ some (m, id) ]

  -- Record first, so that a crash after the patch is still tracked.
  unfoldable pub start_removal : EtcdMember → Text → World → Held
  start_removal target id w = elim (o.env.kcp_patch record_orphan) [
    | some conflict ↦ (ok (some (after 1)), forget_orphan_check w)
    | some e ↦ (err e, forget_orphan_check w)
    | none ↦
        let entry =
          format_orphan_leave o.env.api o.valid_name
            (record { name = target.name; member_id = id; at = o.env.now }) in
        let w₁ = set_annotation orphan_leave_key entry w in
        elim (o.patch_member true) [
          | some e ↦ (ok waiting, w₁)
          | none ↦ (ok waiting, act (set_spec_leave target.name true) w₁)
        ]
  ]

  unfoldable pub remove_target :
      List Machine → ℕ → List EtcdMember → EtcdStatus → Option (EtcdMember × Text) → World → Held
  remove_target machines desired joined status none w = (ok none, w)
  remove_target machines desired joined status (some (target, id)) w =
      if orphan_removal_blocked o.env machines joined target status desired
      then (ok none, w)
      else start_removal target id w

  unfoldable pub orphans_among : ExpectedMembers → List EtcdMember → List EtcdMember
  orphans_among expected joined =
      sort_by less_member (keep (λ m. not (is_expected o.env expected m)) joined)

  unfoldable pub remove_unexpected :
      List Machine → ℕ → List EtcdMember → EtcdStatus → Result ExpectedMembers → World → Held
  remove_unexpected machines desired joined status (err e) w = (err e, w)
  remove_unexpected machines desired joined status (ok expected) w =
      remove_target machines desired joined status (first_target (orphans_among expected joined)) w

  -- The check counts as done once the members are listed, or are no API of the cluster.
  unfoldable pub remove_listed :
      List Machine → ℕ → EtcdStatus → Get (List EtcdMember) → World → Held
  remove_listed machines desired status (found items) w =
      remove_unexpected machines desired (joined_members items) status
        (expected_etcd_members o.env machines) (mark_orphan_checked w)
  remove_listed machines desired status no_match w = (ok none, mark_orphan_checked w)
  remove_listed machines desired status not_found w = (ok none, w)
  remove_listed machines desired status unreadable w = (ok none, w)

  unfoldable pub remove_connected : List Machine → ℕ → EtcdStatus → Result Text → World → Held
  remove_connected machines desired status (err identity_changed) w = (err identity_changed, w)
  remove_connected machines desired status (err e) w = (ok none, w)
  remove_connected machines desired status (ok via) w =
      remove_listed machines desired status o.listed w

  unfoldable pub remove_reported : List Machine → ℕ → Result EtcdStatus → World → Held
  remove_reported machines desired (err e) w = (err e, w)
  remove_reported machines desired (ok status) w =
      if all_report_healthy status machines
      then (let (r, w') = connect_for_orphans machines w in
          remove_connected machines desired status r w')
      else (ok none, w)

  unfoldable pub remove_one_orphan : List Machine → ℕ → World → Held
  remove_one_orphan machines desired w = remove_reported machines desired o.env.etcd_status w

  -- `finish` of progressOrphanLeave: the record is cleared and the hold ends.
  unfoldable pub finish : World → Held
  finish w = elim (o.env.kcp_patch clear_orphan) [
    | none ↦ (ok none, drop_annotation orphan_leave_key w)
    | some conflict ↦ (ok waiting, w)
    | some e ↦ (err e, w)
  ]

  abbrev pub removal_capped : OrphanLeave → Bool
  removal_capped entry = ltb etcd_member_leave_cap (o.env.now - entry.at)

  unfoldable pub finish_or_wait : OrphanLeave → World → Held
  finish_or_wait entry w = if removal_capped entry then finish w else (ok waiting, w)

  -- A Machine accounts for the member after all.
  unfoldable pub take_back : EtcdMember → World → Held
  take_back m w = elim (o.patch_member false) [
    | some e ↦ (ok waiting, w)
    | none ↦ finish (act (set_spec_leave m.name false) w)
  ]

  -- spec.leave was never written: everything is checked again before the first write.
  unfoldable pub ask_again :
      List Machine
      → ℕ
      → OrphanLeave
      → EtcdMember
      → Get (List EtcdMember)
      → Result EtcdStatus
      → World
      → Held
  ask_again machines desired entry m (found items) (ok status) w =
      if is_some (deleting_machine machines)
        || orphan_removal_blocked o.env machines (joined_members items) m status desired
      then finish_or_wait entry w
      else elim (o.patch_member true) [
        | some e ↦ finish_or_wait entry w
        | none ↦ finish_or_wait entry (act (set_spec_leave m.name true) w)
      ]
  ask_again machines desired entry m items status w = finish_or_wait entry w

  unfoldable pub follow_joined :
      List Machine → ℕ → OrphanLeave → EtcdMember → Result ExpectedMembers → World → Held
  follow_joined machines desired entry m (err e) w = (err e, w)
  follow_joined machines desired entry m (ok expected) w =
      if is_expected o.env expected m
      then take_back m w
      else if m.leave
      then finish_or_wait entry w
      else ask_again machines desired entry m o.listed o.env.etcd_status w

  abbrev pub describes : OrphanLeave → EtcdMember → Bool
  describes entry m = elim (etcd_member_id m) [ none ↦ false | some id ↦ id == entry.member_id ]

  unfoldable pub follow_read : List Machine → ℕ → OrphanLeave → Get EtcdMember → World → Held
  follow_read machines desired entry not_found w = finish w
  follow_read machines desired entry no_match w = finish w
  follow_read machines desired entry unreadable w = finish_or_wait entry w
  follow_read machines desired entry (found m) w =
      if not (describes entry m)
      then finish w
      else if not_in_etcd m
      then finish w
      else follow_joined machines desired entry m (expected_etcd_members o.env machines) w

  unfoldable pub follow_connected : List Machine → ℕ → OrphanLeave → Result Text → World → Held
  follow_connected machines desired entry (err identity_changed) w = (err identity_changed, w)
  follow_connected machines desired entry (err e) w = finish_or_wait entry w
  follow_connected machines desired entry (ok via) w =
      follow_read machines desired entry (o.member entry.name) w

  unfoldable pub progress_orphan_leave : List Machine → ℕ → OrphanLeave → World → Held
  progress_orphan_leave machines desired entry w =
      let (r, w') = connect_for_orphans machines w in follow_connected machines desired entry r w'

  -- An annotation that does not parse is removed.
  unfoldable pub follow_record : List Machine → ℕ → Option OrphanLeave → World → Held
  follow_record machines desired (some entry) w = progress_orphan_leave machines desired entry w
  follow_record machines desired none w = elim (o.env.kcp_patch clear_orphan) [
    | some e ↦ (err e, w)
    | none ↦ (ok none, drop_annotation orphan_leave_key w)
  ]

  -- `raw` is the annotation that records a removal in progress.
  unfoldable pub clean_orphans : List Machine → List Machine → ℕ → Option Text → World → Held
  clean_orphans owned machines desired (some raw) w =
      follow_record machines desired (parse_orphan_leave o.env.api o.valid_name raw) w
  clean_orphans owned machines desired none w =
      if orphan_cleanup_blocked w.kcp owned machines desired
      then (ok none, w)
      else if not (orphan_check_due w)
      then (ok none, w)
      else remove_one_orphan machines desired w

  unfoldable pub clean_read : List Machine → Result (List Machine) → ℕ → World → Held
  clean_read owned (err e) desired w = (err e, w)
  clean_read owned (ok machines) desired w =
      clean_orphans owned machines desired (w.kcp.annotations orphan_leave_key) w

  unfoldable pub reconcile_orphan_etcd_members : List Machine → ℕ → Exec (Option Outcome)
  reconcile_orphan_etcd_members owned desired w =
      if not (is_some (w.kcp.annotations orphan_leave_key))
        && (not (distribution_of w.kcp == k0s) || leb desired 1)
      then (ok none, w)
      else if frozen w.kcp
      then (err identity_changed, w)
      else clean_read owned o.all_machines desired w
