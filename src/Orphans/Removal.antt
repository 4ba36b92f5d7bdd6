-- ===== src/Orphans/Removal.antt =====
-- When the orphan cleanup asks k0s to remove a member, and that its hold ends (ha_etcd_orphans.go).
use cluster_api_provider_kai.Prelude.{
  sort_by-All, some_inj, All-Memᴰ, keep-All, zip-All, keep-All_pass, ℕ, ◌&&◌, ◌||◌, leb, true,
  false, not, Option, none, some, List, [], ◌∷◌, Text, codes, ◌≡◌, ◌⊎◌, inl, inr, refl, ap, ◌∙◌,
  ◌==◌, arith, if_elim, is_some, All, keep, Result, ok, err, identity_changed, identity_not_pinned,
  name_taken, conflict, failed, Get, found, not_found, no_match, unreadable, Option-cases,
  Bool-cases,
}
use mathlib.Core.Path.{subst}
use mathlib.Core.List.{Memᴰ}
use cluster_api_provider_kai.Model.{Machine, distribution_of, k0s}
use cluster_api_provider_kai.Session.{World, set_spec_leave, orphans}
use cluster_api_provider_kai.Etcd.{EtcdStatus}
use cluster_api_provider_kai.Identity.{frozen}
use cluster_api_provider_kai.Connect.Actions.{connect-actions}
use cluster_api_provider_kai.Member.{EtcdMember, etcd_member_id, not_in_etcd}
use cluster_api_provider_kai.Orphans.{
  orphan_leave_key, orphan_cleanup_blocked, all_report_healthy, ExpectedMembers, is_expected,
  expected_etcd_members, orphan_removal_blocked,
}
use cluster_api_provider_kai.Orphans.Record.{format_orphan_leave}
use cluster_api_provider_kai.Orphans.Safety.{SafeRemoval, orphan_removal_blocked-SafeRemoval}
use cluster_api_provider_kai.Orphans.Reconcile.{
  OrphanApi, Held, less_member, joined_members, first_target, start_removal, remove_target,
  orphans_among, remove_unexpected, remove_listed, remove_connected, remove_reported,
  remove_one_orphan, clean_read, connect_for_orphans, orphan_check_due, mark_orphan_checked,
  clean_orphans, reconcile_orphan_etcd_members,
}

module _ (o : OrphanApi) where
  first_target-holds :
      (P : EtcdMember → Type 0) (ms : List EtcdMember) (m : EtcdMember) (id : Text)
      → All P ms
      → first_target o ms ≡ some (m, id)
      → P m × (o.valid_name m.name ≡ true) × (etcd_member_id m ≡ some id)
  unfolding first_target
  first_target-holds P [] m id h e = absurd (cc)
  first_target-holds P (x ∷ ms) m id h e = elim (Bool-cases (o.valid_name x.name)) [
    | inr bad ↦ first_target-holds P ms m id h.1 (ground (arith, bad, e))
    | inl good ↦ elim (Option-cases (etcd_member_id x)) [
      | inl none_ ↦ first_target-holds P ms m id h.1 (ground (arith, good, none_, e))
      | inr (i, some_) ↦
          subst
            (λ (p : EtcdMember × Text).
              P p.0 × (o.valid_name p.0.name ≡ true) × (etcd_member_id p.0 ≡ some p.1))
            (some_inj (rw (first_target, good, some_) at e)) (h.0, good, some_)
    ]
  ]

  -- An EtcdMember that was listed, that k0s does not report as out of etcd, that no Machine accounts for, and
  -- that has a valid name and this member ID.
  pub record Orphan (items : List EtcdMember) (expected : ExpectedMembers) (m : EtcdMember)
      (id : Text) : Type 0 where
    pub listed : Memᴰ m items
    pub in_etcd : not_in_etcd m ≡ false
    pub unexpected : is_expected o.env expected m ≡ false
    pub named : o.valid_name m.name ≡ true
    pub id_is : etcd_member_id m ≡ some id

  first_target-Orphan :
      (expected : ExpectedMembers) (items : List EtcdMember) (m : EtcdMember) (id : Text)
      → first_target o (orphans_among o expected (joined_members items)) ≡ some (m, id)
      → Orphan items expected m id
  unfolding orphans_among
  first_target-Orphan expected items m id e =
      let unexpected = λ (m : EtcdMember). not (is_expected o.env expected m) in
      let joined = joined_members items in
      let P =
        λ (m : EtcdMember). ((unexpected m ≡ true) × (not (not_in_etcd m) ≡ true)) × Memᴰ m items in
      let (((odd, inside), among), named, id_is) =
        first_target-holds P (orphans_among o expected joined) m id
          (sort_by-All P less_member (keep unexpected joined) (
            zip-All _ (λ m. Memᴰ m items) (keep unexpected joined)
              (zip-All (λ m. unexpected m ≡ true) (λ m. not (not_in_etcd m) ≡ true)
                (keep unexpected joined) (keep-All_pass unexpected joined)
                (keep-All (λ m. not (not_in_etcd m) ≡ true) unexpected joined
                  (keep-All_pass (λ m. not (not_in_etcd m)) items)))
              (keep-All (λ m. Memᴰ m items) unexpected joined
                (keep-All (λ m. Memᴰ m items) (λ m. not (not_in_etcd m)) items (All-Memᴰ items)))))
          e in
      record {
        listed = among;
        in_etcd = ground (arith, inside);
        unexpected = ground (arith, odd);
        named = named;
        id_is = id_is;
      }

  -- Why a member may be asked to leave: every Machine of the cluster is settled and reports a healthy
  -- voting member, no Machine accounts for this one, and the quorum holds without it.
  pub record Justified (owned : List Machine) (desired : ℕ) (w : World) (target : EtcdMember)
      (id : Text) : Type 0 where
    pub machines : List Machine
    pub status : EtcdStatus
    pub items : List EtcdMember
    pub expected : ExpectedMembers
    pub all_read : o.all_machines ≡ ok machines
    pub status_read : o.env.etcd_status ≡ ok status
    pub steady : orphan_cleanup_blocked w.kcp owned machines desired ≡ false
    pub reported : all_report_healthy status machines ≡ true
    pub rendered : expected_etcd_members o.env machines ≡ ok expected
    pub members_read : o.listed ≡ found items
    pub orphan : Orphan items expected target id
    pub safe : SafeRemoval o.env machines (joined_members items) target status desired

  -- The record of the removal, as it stands on the KairosControlPlane.
  abbrev pub record_of : EtcdMember → Text → Text
  record_of target id =
      format_orphan_leave o.env.api o.valid_name
        (record { name = target.name; member_id = id; at = o.env.now })

  -- What a cleanup with no removal in progress comes to.
  pub data Cleanup (owned : List Machine) (desired : ℕ) (w : World) (p : Held) : Type 0 where
    left_alone : p.1.actions ≡ w.actions → Cleanup owned desired w p
    asked :
        (target : EtcdMember) (id : Text)
        → Justified owned desired w target id
        → p.1.actions ≡ set_spec_leave target.name true ∷ w.actions
        → p.1.kcp.annotations orphan_leave_key ≡ some (record_of target id)
        → Cleanup owned desired w p

  -- the step asks for nothing, or for this member once the removal is recorded
  abbrev Asks : EtcdMember → Text → World → Held → Type 0
  Asks target id w p =
      (p.1.actions ≡ w.actions)
      ⊎ ((p.1.actions ≡ set_spec_leave target.name true ∷ w.actions)
          × (p.1.kcp.annotations orphan_leave_key ≡ some (record_of target id)))

  start-Asks :
      (target : EtcdMember) (id : Text) (w : World) → Asks target id w (start_removal o target id w)
  unfolding start_removal
  start-Asks target id w = ground arith

  Asks-Cleanup :
      (owned : List Machine) (desired : ℕ) (w v : World) (target : EtcdMember) (id : Text)
      (p : Held)
      → Justified owned desired w target id
      → v.actions ≡ w.actions
      → Asks target id v p
      → Cleanup owned desired w p
  Asks-Cleanup owned desired w v target id p j e (inl same) = left_alone (same ∙ e)
  Asks-Cleanup owned desired w v target id p j e (inr (added, kept)) =
      asked target id j (added ∙ ap (λ as_. set_spec_leave target.name true ∷ as_) e) kept

  module _ (owned : List Machine) (desired : ℕ) (w : World) (machines : List Machine)
      (status : EtcdStatus) (all_read : o.all_machines ≡ ok machines)
      (status_read : o.env.etcd_status ≡ ok status)
      (steady : orphan_cleanup_blocked w.kcp owned machines desired ≡ false)
      (reported : all_report_healthy status machines ≡ true) where
    target-Cleanup :
        (items : List EtcdMember) (expected : ExpectedMembers) (t : Option (EtcdMember × Text))
        (v : World)
        → expected_etcd_members o.env machines ≡ ok expected
        → o.listed ≡ found items
        → ((m : EtcdMember) (id : Text) → t ≡ some (m, id) → Orphan items expected m id)
        → v.actions ≡ w.actions
        → Cleanup owned desired w
            (remove_target o machines desired (joined_members items) status t v)
    unfolding remove_target
    target-Cleanup items expected none v rendered read orphan e = left_alone e
    target-Cleanup items expected (some (m, id)) v rendered read orphan e =
        if_elim (Cleanup owned desired w)
          (orphan_removal_blocked o.env machines (joined_members items) m status desired) _ _
          (λ blocked. left_alone e)
          (λ free.
            Asks-Cleanup owned desired w v m id (start_removal o m id v)
              (record {
                machines = machines;
                status = status;
                items = items;
                expected = expected;
                all_read = all_read;
                status_read = status_read;
                steady = steady;
                reported = reported;
                rendered = rendered;
                members_read = read;
                orphan = orphan m id refl;
                safe =
                    (orphan_removal_blocked-SafeRemoval o.env machines (joined_members items) m
                        status desired).0
                      free;
              })
              e (start-Asks m id v))

    unexpected-Cleanup :
        (items : List EtcdMember) (r : Result ExpectedMembers) (v : World)
        → o.listed ≡ found items
        → expected_etcd_members o.env machines ≡ r
        → v.actions ≡ w.actions
        → Cleanup owned desired w
            (remove_unexpected o machines desired (joined_members items) status r v)
    unfolding remove_unexpected
    unexpected-Cleanup items (err x) v read rendered e = left_alone e
    unexpected-Cleanup items (ok expected) v read rendered e =
        target-Cleanup items expected
          (first_target o (orphans_among o expected (joined_members items))) v rendered read
          (first_target-Orphan expected items) e

    listed-Cleanup :
        (items : Get (List EtcdMember)) (v : World)
        → o.listed ≡ items
        → v.actions ≡ w.actions
        → Cleanup owned desired w (remove_listed o machines desired status items v)
    unfolding remove_listed
    listed-Cleanup (found items) v read e =
        unexpected-Cleanup items (expected_etcd_members o.env machines) (mark_orphan_checked o v)
          read refl e
    listed-Cleanup no_match v read e = left_alone e
    listed-Cleanup not_found v read e = left_alone e
    listed-Cleanup unreadable v read e = left_alone e

    connected-Cleanup :
        (r : Result Text) (v : World)
        → v.actions ≡ w.actions
        → Cleanup owned desired w (remove_connected o machines desired status r v)
    unfolding remove_connected
    connected-Cleanup (ok via) v e = listed-Cleanup o.listed v refl e
    connected-Cleanup (err identity_changed) v e = left_alone e
    connected-Cleanup (err identity_not_pinned) v e = left_alone e
    connected-Cleanup (err name_taken) v e = left_alone e
    connected-Cleanup (err conflict) v e = left_alone e
    connected-Cleanup (err failed) v e = left_alone e

  reported-Cleanup :
      (owned : List Machine) (desired : ℕ) (w : World) (machines : List Machine)
      (read : Result EtcdStatus)
      → o.env.etcd_status ≡ read
      → o.all_machines ≡ ok machines
      → orphan_cleanup_blocked w.kcp owned machines desired ≡ false
      → Cleanup owned desired w (remove_reported o machines desired read w)
  unfolding remove_reported
  reported-Cleanup owned desired w machines (err x) e all_read steady = left_alone refl
  reported-Cleanup owned desired w machines (ok status) e all_read steady =
      let (r, v) = connect_for_orphans o machines w in
      if_elim (Cleanup owned desired w) (all_report_healthy status machines) _ _
        (λ reported.
          connected-Cleanup owned desired w machines status all_read e steady reported r v
            (connect-actions o.env.api orphans (λ via. true) machines (codes "") [] w))
        (λ pending. left_alone refl)

  clean-Cleanup :
      (owned : List Machine) (desired : ℕ) (w : World) (machines : List Machine) (raw : Option Text)
      → raw ≡ none
      → o.all_machines ≡ ok machines
      → Cleanup owned desired w (clean_orphans o owned machines desired raw w)
  unfolding clean_orphans remove_one_orphan
  clean-Cleanup owned desired w machines (some raw) free all_read = absurd (cc)
  clean-Cleanup owned desired w machines none free all_read =
      if_elim (Cleanup owned desired w) (orphan_cleanup_blocked w.kcp owned machines desired) _ _
        (λ blocked. left_alone refl)
        λ steady.
          if_elim (Cleanup owned desired w) (not (orphan_check_due o w)) _ _
            (λ early. left_alone refl)
            (λ due.
              reported-Cleanup owned desired w machines o.env.etcd_status refl all_read steady)

  read-Cleanup :
      (owned : List Machine) (desired : ℕ) (w : World) (read : Result (List Machine))
      → o.all_machines ≡ read
      → w.kcp.annotations orphan_leave_key ≡ none
      → Cleanup owned desired w (clean_read o owned read desired w)
  unfolding clean_read
  read-Cleanup owned desired w (err x) e free = left_alone refl
  read-Cleanup owned desired w (ok machines) e free =
      clean-Cleanup owned desired w machines (w.kcp.annotations orphan_leave_key) free e

  -- With no removal in progress, the orphan cleanup asks k0s to remove at most one member, and only with the record
  -- of its name, its member ID and this instant on the KairosControlPlane, when the control plane is in its steady
  -- state, every Machine of the cluster reports a healthy voting member, and the listed member is in etcd with no
  -- Machine that accounts for it by name or peer address. Then every Machine is paired with a listed member in etcd,
  -- and the quorum holds without the one that is removed.
  pub reconcile_orphan_etcd_members-Cleanup :
      (owned : List Machine) (desired : ℕ) (w : World)
      → w.kcp.annotations orphan_leave_key ≡ none
      → Cleanup owned desired w (reconcile_orphan_etcd_members o owned desired w)
  unfolding reconcile_orphan_etcd_members
  reconcile_orphan_etcd_members-Cleanup owned desired w free =
      if_elim (Cleanup owned desired w)
        (not (is_some (w.kcp.annotations orphan_leave_key))
          && (not (distribution_of w.kcp == k0s) || leb desired 1))
        _ _ (λ off. left_alone refl)
        λ on.
          if_elim (Cleanup owned desired w) (frozen w.kcp) _ _ (λ f. left_alone refl)
            λ thawed. read-Cleanup owned desired w o.all_machines refl free
