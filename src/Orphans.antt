-- ===== src/Orphans.antt =====
-- internal/controllers/controlplane/ha_etcd_orphans.go: which etcd members no Machine accounts for, when
-- one may be removed, and the record of the removal in progress.
pub mod Record
pub mod Reconcile
pub mod Removal
pub mod Ending
pub mod Safety
pub mod Matching
use cluster_api_provider_kai.Prelude.{
  ℕ, suc, ◌+◌, ◌-◌, ◌/◌, Bool, ◌&&◌, ◌||◌, true, false, not, Option, none, some, List, [], ◌∷◌,
  ◌++◌, Text, String, codes, ltb, leb, eqb, ◌==◌, length, if◌then◌else◌, is_some, lookup, member_of,
  keep, count_if, sort_by, text_less, Result, ok, err, Error,
}
use cluster_api_provider_kai.Model.{Machine, ControlPlane, registered, node_ref_name, or_else}
use cluster_api_provider_kai.Session.{Api}
use cluster_api_provider_kai.Etcd.{EtcdStatus, MemberStatus, counts, quorum}
use cluster_api_provider_kai.Candidates.{parse_ips}
use cluster_api_provider_kai.Member.{EtcdMember, not_in_etcd, peer_ip}
use cluster_api_provider_kai.Leave.{LeaveApi, rendered_node_name}

abbrev pub orphan_leave_key : String
orphan_leave_key = "controlplane.cluster.x-k8s.io/etcd-orphan-member-leave"

-- etcdOrphanCheckInterval and orphanLeaveClockSkew, in seconds
abbrev pub etcd_orphan_check_interval : ℕ
etcd_orphan_check_interval = 60

abbrev pub orphan_leave_clock_skew : ℕ
orphan_leave_clock_skew = 300

abbrev pub head? {ℓ} : {A : Type ℓ} → List A → Option A
head? [] = none
head? (x ∷ xs) = some x

-- the first Machine being deleted
unfoldable pub deleting_machine : List Machine → Option Text
deleting_machine [] = none
deleting_machine (m ∷ ms) =
    let rest = deleting_machine ms in if m.deleting then some m.name else rest

unfoldable pub all_run : Text → List Machine → Bool
all_run version [] = true
all_run version (m ∷ ms) = not (m.version == codes "") && m.version == version && all_run version ms

unfoldable pub all_settled : List Machine → Bool
all_settled [] = true
all_settled (m ∷ ms) = not m.deleting && registered m && all_settled ms

-- orphanCleanupBlocked: no steady state
unfoldable pub orphan_cleanup_blocked : ControlPlane → List Machine → List Machine → ℕ → Bool
orphan_cleanup_blocked kcp owned all desired =
    kcp.deleting
    || not (eqb (length owned) desired)
    || not (all_run kcp.version owned)
    || not (all_settled all)

-- whether every member reports healthy and voting
unfoldable pub all_report_healthy : EtcdStatus → List Machine → Bool
all_report_healthy status [] = true
all_report_healthy status (m ∷ ms) =
    (elim (lookup (node_ref_name m) status) [ none ↦ false | some st ↦ counts st ])
    && all_report_healthy status ms

-- expectedMembers
pub record ExpectedMembers : Type 0 where
  pub names : List Text
  pub addrs : List Text

-- the names of the EtcdMembers that no pairing has used yet
abbrev pub unused : List Text → List EtcdMember → List EtcdMember
unused used joined = keep (λ m. not (member_of m.name used)) joined

unfoldable pub names_of : List EtcdMember → List Text
names_of [] = []
names_of (m ∷ ms) = m.name ∷ names_of ms

-- unmatchedMachines, first loop: Machines paired by Node name, and the member names used
pub record Pairing : Type 0 where
  pub used : List Text
  pub matched : List Text

unfoldable pub pair_by_name : List EtcdMember → List Machine → Pairing → Pairing
pair_by_name joined [] p = p
pair_by_name joined (m ∷ ms) p = pair_by_name joined ms (
    if registered m
      && member_of (node_ref_name m) (names_of joined)
      && not (member_of (node_ref_name m) p.used)
    then record { used = node_ref_name m ∷ p.used; matched = m.name ∷ p.matched }
    else p)

unfoldable pub first_at : (EtcdMember → Bool) → List EtcdMember → Option EtcdMember
first_at p [] = none
first_at p (m ∷ ms) = if p m then some m else first_at p ms

module _ (env : LeaveApi) where
  open env use {api, split_host_port}

  abbrev pub at_address : List Text → EtcdMember → Bool
  at_address addrs m = elim (peer_ip api split_host_port m) [
    | none ↦ false
    | some ip ↦ member_of ip addrs
  ]

  abbrev pub used_then : Option EtcdMember → List Text → List Text
  used_then none used = used
  used_then (some m) used = m.name ∷ used

  abbrev pub unless_found : Option EtcdMember → Text → List Text → List Text
  unless_found (some m) name out = out
  unless_found none name out = name ∷ out

  -- second loop: the Machines left, by a peer address that they report
  unfoldable pub pair_by_address :
      List EtcdMember → List Text → List Text → List Machine → List Text
  pair_by_address joined matched used [] = []
  pair_by_address joined matched used (m ∷ ms) =
      let hit = first_at (at_address (parse_ips api m.addresses)) (unused used joined) in
      if member_of m.name matched
      then pair_by_address joined matched used ms
      else unless_found hit m.name (pair_by_address joined matched (used_then hit used) ms)

  unfoldable pub unmatched_machines : List Machine → List EtcdMember → List Text
  unmatched_machines machines joined =
      let p = pair_by_name joined machines (record { used = []; matched = [] }) in
      pair_by_address joined p.matched p.used machines

  -- expectedMembers.has
  unfoldable pub is_expected : ExpectedMembers → EtcdMember → Bool
  is_expected e m = if member_of m.name e.names then true else at_address e.addrs m

  abbrev pub node_names : Machine → List Text
  node_names m = elim m.node_ref [ none ↦ [] | some name ↦ name ∷ [] ]

  abbrev pub add_expected : Result Text → Machine → Result ExpectedMembers → Result ExpectedMembers
  add_expected (err e) m rest = err e
  add_expected (ok name) m (err e) = err e
  add_expected (ok name) m (ok e) = ok (record {
    names = name ∷ (node_names m ++ e.names);
    addrs = parse_ips api m.addresses ++ e.addrs;
  })

  unfoldable pub expected_etcd_members : List Machine → Result ExpectedMembers
  expected_etcd_members [] = ok (record { names = []; addrs = [] })
  expected_etcd_members (m ∷ ms) =
      add_expected (rendered_node_name env m) m (expected_etcd_members ms)

  -- the Node names of the registered Machines
  unfoldable pub registered_names : List Machine → List Text
  registered_names [] = []
  registered_names (m ∷ ms) = node_names m ++ registered_names ms

  abbrev pub healthy_report : EtcdStatus → Text → Bool
  healthy_report status name = elim (lookup name status) [ none ↦ false | some st ↦ counts st ]

  unfoldable pub healthy_voting_members :
      List EtcdMember → EtcdMember → List Machine → EtcdStatus → ℕ
  healthy_voting_members joined removing machines status =
      count_if
        (λ m.
          not (m.name == removing.name)
          && member_of m.name (registered_names machines)
          && healthy_report status m.name)
        joined

  -- how many healthy voting members must stay
  abbrev pub needed : List EtcdMember → ℕ → ℕ
  needed joined desired =
      let need = quorum (length joined - 1) in
      if ltb need (quorum desired) then quorum desired else need

  unfoldable pub orphan_removal_blocked :
      List Machine → List EtcdMember → EtcdMember → EtcdStatus → ℕ → Bool
  orphan_removal_blocked machines joined target status desired =
      is_some (head? (unmatched_machines machines joined))
      || ltb (healthy_voting_members joined target machines status) (needed joined desired)
