-- ===== src/Etcd/Quorum.antt =====
-- What the quorum guard canRemoveMember of ha_etcd.go guarantees.
use cluster_api_provider_kai.Prelude.{
  ℕ, ◌≤◌, ◌≡◌, ◌⊎◌, inl, inr, ◌↔◌, Bool, true, false, ◌&&◌, some, Text, arith, lookup, without,
  ◌==◌, DistinctKeys, count_values-without, Result, ok, err, failed, Option-cases,
}
use cluster_api_provider_kai.Model.{
  Machine, ControlPlane, desired_replicas, registered, running_phase, node_ref_name,
}
use cluster_api_provider_kai.Etcd.{
  MemberStatus, EtcdStatus, etcd_voting_healthy_count, quorum, allowed, can_remove_member, counts,
  judge_report, judge_status, judge_read,
}

abbrev pub is_live : Machine → Bool
is_live target = registered target && (target.phase == running_phase)

-- The member has reported, and without it the healthy voting members are still a quorum.
pub record KeepsQuorum (desired : ℕ) (key : Text) (status : EtcdStatus) : Type 0 where
  pub reported : (st : MemberStatus) × (lookup key status ≡ some st)
  pub keeps : quorum desired ≤ etcd_voting_healthy_count (without key status)

judge_report_iff :
    (desired : ℕ) (key : Text) (status : EtcdStatus) (st : MemberStatus)
    → DistinctKeys status
    → lookup key status ≡ some st
    → (judge_report desired status st ≡ allowed)
      ↔ (quorum desired ≤ etcd_voting_healthy_count (without key status))
unfolding judge_report etcd_voting_healthy_count
judge_report_iff desired key status st d e = (
  ground (arith, count_values-without counts key status d),
  ground (arith, count_values-without counts key status d),
)

judge_status_iff :
    (desired : ℕ) (key : Text) (status : EtcdStatus)
    → DistinctKeys status
    → (judge_status desired key status ≡ allowed) ↔ KeepsQuorum desired key status
judge_status_iff desired key status d = elim (Option-cases (lookup key status)) [
  | inl missing ↦ (unfold judge_status in (λ h. ground arith), λ k. ground (arith, k.reported.1))
  | inr (st, e) ↦ (
    λ h. record {
      reported = (st, e);
      keeps = (judge_report_iff desired key status st d e).0 (unfold judge_status in ground arith);
    },
    λ k.
        unfold judge_status in
        rw (e, judge_status) ((judge_report_iff desired key status st d e).1 k.keeps),
  )
]

abbrev pub Proven : ℕ → Text → Result EtcdStatus → Type 0
Proven desired key (err e) = ⊥
Proven desired key (ok status) = KeepsQuorum desired key status

abbrev pub DistinctRead : Result EtcdStatus → Type 0
DistinctRead (err e) = Unit
DistinctRead (ok status) = DistinctKeys status

judge_read_iff :
    (desired : ℕ) (key : Text) (read : Result EtcdStatus)
    → DistinctRead read
    → (judge_read desired key read ≡ ok allowed) ↔ Proven desired key read
unfolding judge_read
judge_read_iff desired key (err e) d = (λ h. cc, λ h. absurd h)
judge_read_iff desired key (ok status) d = (
  λ h. (judge_status_iff desired key status d).0 (ground arith),
  λ k. rw ((judge_status_iff desired key status d).1 k),
)

-- For a control plane that is not being deleted and wants more than one replica, the guard allows
-- the delete of a live target (registered and Running) exactly when the etcd status could be read,
-- the target has a report in it, and the healthy voting members without the target are still a
-- quorum of the desired replicas. A Go map has distinct keys, which is the hypothesis on the read.
pub can_remove_member-live_iff :
    (kcp : ControlPlane) (read : Result EtcdStatus) (target : Machine)
    → kcp.deleting ≡ false
    → 2 ≤ desired_replicas kcp
    → is_live target ≡ true
    → DistinctRead read
    → (can_remove_member kcp read target ≡ ok allowed)
      ↔ Proven (desired_replicas kcp) (node_ref_name target) read
unfolding can_remove_member
can_remove_member-live_iff kcp read target alive ha live d =
    let judged = judge_read_iff (desired_replicas kcp) (node_ref_name target) read d in
    (λ h. judged.0 (ground arith), λ k. ground (arith, judged.1 k))

-- The guard allows a delete whatever the etcd status says, and even where it cannot be read, exactly
-- in three cases: whole-cluster teardown, a control plane that wants one replica at most, and a
-- target that has no Node or is not Running.
pub can_remove_member-bypass :
    (kcp : ControlPlane) (target : Machine)
    → ((read : Result EtcdStatus) → can_remove_member kcp read target ≡ ok allowed)
      ↔ ((kcp.deleting ≡ true) ⊎ ((desired_replicas kcp ≤ 1) ⊎ (is_live target ≡ false)))
unfolding can_remove_member judge_read
can_remove_member-bypass kcp target = (λ h. bypassed (h (err failed)), λ h read. ground arith)
  where
    bypassed :
        can_remove_member kcp (err failed) target ≡ ok allowed
        → (kcp.deleting ≡ true) ⊎ ((desired_replicas kcp ≤ 1) ⊎ (is_live target ≡ false))
    bypassed h = ground arith
