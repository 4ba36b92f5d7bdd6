-- ===== src/Orphans/Ending.antt =====
-- The hold of an orphan removal in progress is bounded (progressOrphanLeave of ha_etcd_orphans.go).
use cluster_api_provider_kai.Prelude.{
  ℕ, true, false, not, Option, none, some, List, Text, ◌≡◌, ◌≢◌, refl, arith, if_elim, Result, ok,
  err, identity_changed, identity_not_pinned, name_taken, conflict, failed, Get, found, not_found,
  no_match, unreadable,
}
use mathlib.Core.Path.{subst, sym}
use cluster_api_provider_kai.Model.{Machine}
use cluster_api_provider_kai.Session.{World, clear_orphan}
use cluster_api_provider_kai.Etcd.{EtcdStatus}
use cluster_api_provider_kai.Identity.{frozen}
use cluster_api_provider_kai.Member.{EtcdMember, not_in_etcd}
use cluster_api_provider_kai.Orphans.{
  orphan_leave_key, is_expected, expected_etcd_members, ExpectedMembers,
}
use cluster_api_provider_kai.Orphans.Record.{OrphanLeave, parse_orphan_leave}
use cluster_api_provider_kai.Orphans.Reconcile.{
  OrphanApi, Held, finish, finish_or_wait, take_back, ask_again, follow_joined, follow_read,
  follow_connected, describes, progress_orphan_leave, follow_record, clean_orphans, clean_read,
  reconcile_orphan_etcd_members, connect_for_orphans, removal_capped,
}

-- The hold has ended, and no removal is recorded any more.
pub record Ends (p : Held) : Type 0 where
  pub free : p.0 ≡ ok none
  pub cleared : p.1.kcp.annotations orphan_leave_key ≡ none

module _ (o : OrphanApi) (entry : OrphanLeave) (cleared : o.env.kcp_patch clear_orphan ≡ none)
    (taken_back : o.patch_member false ≡ none) (capped : removal_capped o entry ≡ true) where
  finish-Ends : (w : World) → Ends (finish o w)
  unfolding finish
  finish-Ends w = record { free = ground arith; cleared = ground arith }

  finish_or_wait-Ends : (w : World) → Ends (finish_or_wait o entry w)
  unfolding finish_or_wait
  finish_or_wait-Ends w =
      if_elim Ends (removal_capped o entry) _ _ (λ e. finish-Ends w) (λ e. absurd (cc))

  take_back-Ends : (m : EtcdMember) (w : World) → Ends (take_back o m w)
  unfolding take_back finish
  take_back-Ends m w = record { free = ground arith; cleared = ground arith }

  ask_again-Ends :
      (machines : List Machine) (desired : ℕ) (m : EtcdMember) (items : Get (List EtcdMember))
      (status : Result EtcdStatus) (w : World)
      → Ends (ask_again o machines desired entry m items status w)
  unfolding ask_again finish_or_wait finish
  ask_again-Ends machines desired m (found items) (ok status) w = record {
    free = ground arith;
    cleared = ground arith;
  }
  ask_again-Ends machines desired m (found items) (err e) w = finish_or_wait-Ends w
  ask_again-Ends machines desired m not_found status w = finish_or_wait-Ends w
  ask_again-Ends machines desired m no_match status w = finish_or_wait-Ends w
  ask_again-Ends machines desired m unreadable status w = finish_or_wait-Ends w

  joined-Ends :
      (machines : List Machine) (desired : ℕ) (m : EtcdMember) (r : Result ExpectedMembers)
      (expected : ExpectedMembers) (w : World)
      → r ≡ ok expected
      → Ends (follow_joined o machines desired entry m r w)
  unfolding follow_joined
  joined-Ends machines desired m (err x) expected w e = absurd (cc)
  joined-Ends machines desired m (ok known) expected w e =
      if_elim Ends (is_expected o.env known m) _ _ (λ e. take_back-Ends m w)
        λ e.
          if_elim Ends m.leave _ _ (λ e. finish_or_wait-Ends w)
            (λ e. ask_again-Ends machines desired m o.listed o.env.etcd_status w)

  follow_read-Ends :
      (machines : List Machine) (desired : ℕ) (g : Get EtcdMember) (expected : ExpectedMembers)
      (w : World)
      → expected_etcd_members o.env machines ≡ ok expected
      → Ends (follow_read o machines desired entry g w)
  unfolding follow_read
  follow_read-Ends machines desired not_found expected w e = finish-Ends w
  follow_read-Ends machines desired no_match expected w e = finish-Ends w
  follow_read-Ends machines desired unreadable expected w e = finish_or_wait-Ends w
  follow_read-Ends machines desired (found m) expected w e =
      if_elim Ends (not (describes o entry m)) _ _ (λ other. finish-Ends w)
        λ same.
          if_elim Ends (not_in_etcd m) _ _ (λ gone. finish-Ends w)
            (λ inside.
              joined-Ends machines desired m (expected_etcd_members o.env machines) expected w e)

  follow_connected-Ends :
      (machines : List Machine) (desired : ℕ) (r : Result Text) (expected : ExpectedMembers)
      (w : World)
      → r ≢ err identity_changed
      → expected_etcd_members o.env machines ≡ ok expected
      → Ends (follow_connected o machines desired entry r w)
  unfolding follow_connected
  follow_connected-Ends machines desired (ok via) expected w same e =
      follow_read-Ends machines desired (o.member entry.name) expected w e
  follow_connected-Ends machines desired (err identity_changed) expected w same e =
      absurd (same refl)
  follow_connected-Ends machines desired (err identity_not_pinned) expected w same e =
      finish_or_wait-Ends w
  follow_connected-Ends machines desired (err name_taken) expected w same e = finish_or_wait-Ends w
  follow_connected-Ends machines desired (err conflict) expected w same e = finish_or_wait-Ends w
  follow_connected-Ends machines desired (err failed) expected w same e = finish_or_wait-Ends w

  -- A recorded removal older than etcdMemberLeaveCap does not wedge the control plane: the pass clears
  -- the record and ends the hold, whatever the workload cluster answers or fails to answer, as long
  -- as no apiserver answers with a changed identity, the control plane is not frozen, its Machines
  -- and their node names can be read, and neither the clearing of the record nor the taking back of a
  -- request fails.
  pub reconcile_orphan_etcd_members-Ends :
      (owned machines : List Machine) (desired : ℕ) (raw : Text) (expected : ExpectedMembers)
      (w : World)
      → w.kcp.annotations orphan_leave_key ≡ some raw
      → parse_orphan_leave o.env.api o.valid_name raw ≡ some entry
      → frozen w.kcp ≡ false
      → o.all_machines ≡ ok machines
      → expected_etcd_members o.env machines ≡ ok expected
      → (connect_for_orphans o machines w).0 ≢ err identity_changed
      → Ends (reconcile_orphan_etcd_members o owned desired w)
  unfolding reconcile_orphan_etcd_members clean_read clean_orphans follow_record
      progress_orphan_leave
  reconcile_orphan_etcd_members-Ends owned machines desired raw expected w recorded parsed thawed
        all_read rendered same =
      rw (recorded, thawed)
        (subst (λ (r : Result (List Machine)). Ends (clean_read o owned r desired w)) (sym all_read)
          (subst (λ (t : Option Text). Ends (clean_orphans o owned machines desired t w))
            (sym recorded)
            (subst (λ (t : Option OrphanLeave). Ends (follow_record o machines desired t w))
              (sym parsed)
              (let (r, v) = connect_for_orphans o machines w in
                follow_connected-Ends machines desired r expected v same rendered))))
