-- ===== src/Etcd.antt =====
-- internal/controllers/controlplane/ha_etcd.go: the node-reported etcd status and the quorum guard
-- in front of every delete of a control-plane Machine.
pub mod Quorum
use cluster_api_provider_kai.Prelude.{
  ℕ, ◌+◌, ◌-◌, ◌/◌, Bool, ◌&&◌, ◌||◌, true, false, not, Option, none, some, List, [], ◌∷◌, Text,
  leb, ltb, ◌==◌, if◌then◌else◌, lookup, count_values, Result, ok, err, Error, failed, Get, found,
  not_found, no_match, unreadable,
}
use cluster_api_provider_kai.Model.{
  Machine, ControlPlane, desired_replicas, registered, running_phase, node_ref_name,
}

-- etcdMemberStatus; its name, member count and report time are never read
pub record MemberStatus : Type 0 where
  pub healthy : Bool
  pub voting : Bool

abbrev pub EtcdStatus : Type 0
EtcdStatus = List (Text × MemberStatus)

-- `unmarshal` is json.Unmarshal into an etcdMemberStatus.
module _ (unmarshal : Text → Option MemberStatus) where
  abbrev keep_parsed : Text → Option MemberStatus → EtcdStatus → EtcdStatus
  keep_parsed member none rest = rest
  keep_parsed member (some st) rest = (member, st) ∷ rest

  parse_members : List (Text × Text) → EtcdStatus
  parse_members [] = []
  parse_members ((member, raw) ∷ entries) =
      keep_parsed member (unmarshal raw) (parse_members entries)

  -- A missing Secret is an empty map; an entry that does not parse is skipped.
  unfoldable pub read_etcd_status : Get (List (Text × Text)) → Result EtcdStatus
  unfolding parse_members
  read_etcd_status (found entries) = ok (parse_members entries)
  read_etcd_status not_found = ok []
  read_etcd_status no_match = err failed
  read_etcd_status unreadable = err failed

abbrev pub counts : MemberStatus → Bool
counts st = st.healthy && st.voting

unfoldable pub etcd_voting_healthy_count : EtcdStatus → ℕ
etcd_voting_healthy_count = count_values counts

pub data Verdict : Type 0 where
  allowed no_report : Verdict
  -- how many healthy voting members would be left, and the quorum
  below_quorum : ℕ → ℕ → Verdict

abbrev pub quorum : ℕ → ℕ
quorum replicas = replicas / 2 + 1

-- The last part of canRemoveMember: the target has reported `st`.
unfoldable pub judge_report : ℕ → EtcdStatus → MemberStatus → Verdict
judge_report desired status st =
    let voting = etcd_voting_healthy_count status in
    let post_removal = if counts st then voting - 1 else voting in
    if ltb post_removal (quorum desired)
    then below_quorum post_removal (quorum desired)
    else allowed

judge_status : ℕ → Text → EtcdStatus → Verdict
judge_status desired key status = elim (lookup key status) [
  | none ↦ no_report
  | some st ↦ judge_report desired status st
]

judge_read : ℕ → Text → Result EtcdStatus → Result Verdict
judge_read desired key (err e) = err e
judge_read desired key (ok status) = ok (judge_status desired key status)

-- `read` is the answer of readEtcdStatus, which only the last branch looks at.
unfoldable pub can_remove_member : ControlPlane → Result EtcdStatus → Machine → Result Verdict
unfolding judge_read judge_status judge_report
can_remove_member kcp read target =
    if kcp.deleting
    then ok allowed
    else if leb (desired_replicas kcp) 1
    then ok allowed
    else if not (registered target) || not (target.phase == running_phase)
    then ok allowed
    else judge_read (desired_replicas kcp) (node_ref_name target) read
