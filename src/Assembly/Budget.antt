-- ===== src/Assembly/Budget.antt =====
-- At most one Machine is created or deleted in a reconcile, with the etcd leave, the orphan cleanup, the join tokens
-- and the creation as they are.
use cluster_api_provider_kai.Prelude.{
  ℕ, ◌+◌, ◌≤◌, true, Option, none, some, List, [], Text, codes, ◌≡◌, refl, ◌∙◌, ap, arith, inl, inr,
  Result, Result-cases, ok, err, identity_changed, identity_not_pinned, name_taken, conflict,
  failed, Get, found, not_found, no_match, unreadable,
}
use cluster_api_provider_kai.Model.{Machine, ControlPlaneRole}
use cluster_api_provider_kai.Session.{World, Api, orphans}
use cluster_api_provider_kai.Etcd.{EtcdStatus}
use cluster_api_provider_kai.Member.{EtcdMember}
use cluster_api_provider_kai.Connect.Actions.{connect-actions}
use cluster_api_provider_kai.Orphans.{expected_etcd_members, ExpectedMembers, orphan_leave_key}
use cluster_api_provider_kai.Orphans.Record.{OrphanLeave, parse_orphan_leave}
use cluster_api_provider_kai.Orphans.Reconcile.{
  OrphanApi, start_removal, remove_target, orphans_among, first_target, remove_unexpected,
  remove_listed, remove_connected, remove_reported, remove_one_orphan, finish, finish_or_wait,
  take_back, ask_again, follow_joined, follow_read, follow_connected, progress_orphan_leave,
  follow_record, clean_orphans, clean_read, reconcile_orphan_etcd_members, connect_for_orphans,
  mark_orphan_checked, joined_members,
}
use cluster_api_provider_kai.Machines.Reconcile.{reconcile_machines}
use cluster_api_provider_kai.Machines.Budget.{
  membership_changes, Spends, Frugal, reconcile_machines-Spends,
}
use cluster_api_provider_kai.Tokens.Actions.{ensure-actions, lifetime-actions}
use cluster_api_provider_kai.Creation.Bounds.{create_control_plane_machine_bounded}
use cluster_api_provider_kai.Assembly.{
  Surroundings, ops_of, leave_of, token_state, token_lifetime_of, ensure_token_of, create_of,
}
use cluster_api_provider_kai.Assembly.Steps.{reconcile_member_leave-Keeps}

-- As many Machines have been created or deleted in the second world as in the first.
abbrev Same : World → World → Type 0
Same w v = membership_changes v.actions ≡ membership_changes w.actions

module _ (o : OrphanApi) where
  start-Same :
      (target : EtcdMember) (id : Text) (w : World) → Same w (start_removal o target id w).1
  unfolding start_removal membership_changes
  start-Same target id w = ground arith

  target-Same :
      (machines : List Machine) (desired : ℕ) (joined : List EtcdMember) (status : EtcdStatus)
      (t : Option (EtcdMember × Text)) (w : World)
      → Same w (remove_target o machines desired joined status t w).1
  unfolding remove_target
  target-Same machines desired joined status none w = refl
  target-Same machines desired joined status (some (m, id)) w = ground (arith, start-Same m id w)

  unexpected-Same :
      (machines : List Machine) (desired : ℕ) (joined : List EtcdMember) (status : EtcdStatus)
      (r : Result ExpectedMembers) (w : World)
      → Same w (remove_unexpected o machines desired joined status r w).1
  unfolding remove_unexpected
  unexpected-Same machines desired joined status (err e) w = refl
  unexpected-Same machines desired joined status (ok expected) w =
      target-Same machines desired joined status (first_target o (orphans_among o expected joined))
        w

  listed-Same :
      (machines : List Machine) (desired : ℕ) (status : EtcdStatus) (g : Get (List EtcdMember))
      (w : World)
      → Same w (remove_listed o machines desired status g w).1
  unfolding remove_listed
  listed-Same machines desired status (found items) w =
      unexpected-Same machines desired (joined_members items) status
        (expected_etcd_members o.env machines) (mark_orphan_checked o w)
  listed-Same machines desired status not_found w = refl
  listed-Same machines desired status no_match w = refl
  listed-Same machines desired status unreadable w = refl

  connected-Same :
      (machines : List Machine) (desired : ℕ) (status : EtcdStatus) (r : Result Text) (w : World)
      → Same w (remove_connected o machines desired status r w).1
  unfolding remove_connected
  connected-Same machines desired status (ok via) w = listed-Same machines desired status o.listed w
  connected-Same machines desired status (err identity_changed) w = refl
  connected-Same machines desired status (err identity_not_pinned) w = refl
  connected-Same machines desired status (err name_taken) w = refl
  connected-Same machines desired status (err conflict) w = refl
  connected-Same machines desired status (err failed) w = refl

  connect-Same : (machines : List Machine) (w : World) → Same w (connect_for_orphans o machines w).1
  connect-Same machines w =
      ap membership_changes
        (connect-actions o.env.api orphans (λ via. true) machines (codes "") [] w)

  one-Same :
      (machines : List Machine) (desired : ℕ) (w : World)
      → Same w (remove_one_orphan o machines desired w).1
  unfolding remove_one_orphan remove_reported
  one-Same machines desired w = elim (Result-cases o.env.etcd_status) [
    | inr (x, e) ↦ ground (arith, e)
    | inl (status, e) ↦
        let (r, v) = connect_for_orphans o machines w in
        ground (arith, e, connect-Same machines w, connected-Same machines desired status r v)
  ]

  finish-Same : (w : World) → Same w (finish o w).1
  unfolding finish
  finish-Same w = ground arith

  finish_or_wait-Same : (entry : OrphanLeave) (w : World) → Same w (finish_or_wait o entry w).1
  unfolding finish_or_wait
  finish_or_wait-Same entry w = ground (arith, finish-Same w)

  take_back-Same : (m : EtcdMember) (w : World) → Same w (take_back o m w).1
  unfolding take_back finish membership_changes
  take_back-Same m w = ground arith

  ask_again-Same :
      (machines : List Machine) (desired : ℕ) (entry : OrphanLeave) (m : EtcdMember)
      (g : Get (List EtcdMember)) (status : Result EtcdStatus) (w : World)
      → Same w (ask_again o machines desired entry m g status w).1
  unfolding ask_again finish_or_wait finish membership_changes
  ask_again-Same machines desired entry m (found items) (ok status) w = ground arith
  ask_again-Same machines desired entry m (found items) (err e) w = finish_or_wait-Same entry w
  ask_again-Same machines desired entry m not_found status w = finish_or_wait-Same entry w
  ask_again-Same machines desired entry m no_match status w = finish_or_wait-Same entry w
  ask_again-Same machines desired entry m unreadable status w = finish_or_wait-Same entry w

  joined-Same :
      (machines : List Machine) (desired : ℕ) (entry : OrphanLeave) (m : EtcdMember)
      (r : Result ExpectedMembers) (w : World)
      → Same w (follow_joined o machines desired entry m r w).1
  unfolding follow_joined
  joined-Same machines desired entry m (err e) w = refl
  joined-Same machines desired entry m (ok expected) w = ground (
    arith,
    take_back-Same m w,
    finish_or_wait-Same entry w,
    ask_again-Same machines desired entry m o.listed o.env.etcd_status w,
  )

  follow_read-Same :
      (machines : List Machine) (desired : ℕ) (entry : OrphanLeave) (g : Get EtcdMember) (w : World)
      → Same w (follow_read o machines desired entry g w).1
  unfolding follow_read
  follow_read-Same machines desired entry not_found w = finish-Same w
  follow_read-Same machines desired entry no_match w = finish-Same w
  follow_read-Same machines desired entry unreadable w = finish_or_wait-Same entry w
  follow_read-Same machines desired entry (found m) w = ground (
    arith,
    finish-Same w,
    joined-Same machines desired entry m (expected_etcd_members o.env machines) w,
  )

  follow_connected-Same :
      (machines : List Machine) (desired : ℕ) (entry : OrphanLeave) (r : Result Text) (w : World)
      → Same w (follow_connected o machines desired entry r w).1
  unfolding follow_connected
  follow_connected-Same machines desired entry (ok via) w =
      follow_read-Same machines desired entry (o.member entry.name) w
  follow_connected-Same machines desired entry (err identity_changed) w = refl
  follow_connected-Same machines desired entry (err identity_not_pinned) w =
      finish_or_wait-Same entry w
  follow_connected-Same machines desired entry (err name_taken) w = finish_or_wait-Same entry w
  follow_connected-Same machines desired entry (err conflict) w = finish_or_wait-Same entry w
  follow_connected-Same machines desired entry (err failed) w = finish_or_wait-Same entry w

  record-Same :
      (machines : List Machine) (desired : ℕ) (t : Option OrphanLeave) (w : World)
      → Same w (follow_record o machines desired t w).1
  unfolding follow_record progress_orphan_leave
  record-Same machines desired none w = ground arith
  record-Same machines desired (some entry) w =
      let (r, v) = connect_for_orphans o machines w in
      follow_connected-Same machines desired entry r v ∙ connect-Same machines w

  clean-Same :
      (owned machines : List Machine) (desired : ℕ) (raw : Option Text) (w : World)
      → Same w (clean_orphans o owned machines desired raw w).1
  unfolding clean_orphans
  clean-Same owned machines desired (some raw) w =
      record-Same machines desired (parse_orphan_leave o.env.api o.valid_name raw) w
  clean-Same owned machines desired none w = ground (arith, one-Same machines desired w)

  read-Same :
      (owned : List Machine) (r : Result (List Machine)) (desired : ℕ) (w : World)
      → Same w (clean_read o owned r desired w).1
  unfolding clean_read
  read-Same owned (err e) desired w = refl
  read-Same owned (ok machines) desired w =
      clean-Same owned machines desired (w.kcp.annotations orphan_leave_key) w

  orphans-Same :
      (owned : List Machine) (desired : ℕ) (w : World)
      → Same w (reconcile_orphan_etcd_members o owned desired w).1
  unfolding reconcile_orphan_etcd_members
  orphans-Same owned desired w = ground (arith, read-Same owned o.all_machines desired w)

-- What is relied on of the steps that are not modelled: the patches of Machines and the Secrets create and delete no
-- Machine.
pub record FrugalRest (s : Surroundings) : Type 0 where
  pub update_machines : (machines : List Machine) → Spends 0 (s.update_machines machines)
  pub ensure_secrets : Spends 0 s.ensure_secrets

create-Spends :
    (s : Surroundings) (role : ControlPlaneRole) (token : Text) → Spends 1 (create_of s role token)
unfolding create_of membership_changes
create-Spends s role token w =
    elim (create_control_plane_machine_bounded s.creation_api w.kcp role token
      (record { world = w; objects = s.objects; tried = 0 })).1 [
        | inl same ↦ omega (arith, ap (λ v. membership_changes v.actions) same)
        | inr made ↦ omega (arith, ap (λ v. membership_changes v.actions) made)
      ]

token_lifetime-Spends :
    (s : Surroundings) (machines : List Machine) → Spends 0 (token_lifetime_of s machines)
unfolding token_lifetime_of
token_lifetime-Spends s machines w = omega (
  arith,
  ap membership_changes
      (lifetime-actions s.token_api machines (token_state s.tokens_at_lifetime w)),
)

ensure_token-Spends :
    (s : Surroundings) (machines : List Machine) → Spends 0 (ensure_token_of s machines)
unfolding ensure_token_of
ensure_token-Spends s machines w = omega (
  arith,
  ap membership_changes (ensure-actions s.token_api machines (token_state s.tokens_at_issue w)),
)

ops_of-Frugal : (s : Surroundings) → FrugalRest s → Frugal (ops_of s)
unfolding ops_of leave_of
ops_of-Frugal s rest = record {
  update_machines = rest.update_machines;
  leave = λ all m w. omega (
    arith,
    reconcile_member_leave-Keeps (s.leave_api m) all
        (record { world = w; target = m; config_map = s.config_map }),
  );
  ensure_secrets = rest.ensure_secrets;
  token_lifetime = token_lifetime-Spends s;
  orphans = λ machines desired w. omega (arith, orphans-Same s.orphan_api machines desired w);
  ensure_token = ensure_token-Spends s;
  create = create-Spends s;
}

-- A reconcile whose etcd leaves, orphan cleanup, join tokens and creation are those of the code creates or deletes at
-- most one Machine, whatever every API server answers. This rests on the steps that are not modelled: the patches of
-- Machines and the Secrets create and delete none.
pub reconcile_machines_bounded :
    (api : Api) (s : Surroundings)
    → FrugalRest s
    → (w : World)
    → membership_changes (reconcile_machines api (ops_of s) w).1.actions
      ≤ membership_changes w.actions + 1
reconcile_machines_bounded api s rest w =
    reconcile_machines-Spends api (ops_of s) (ops_of-Frugal s rest) w
