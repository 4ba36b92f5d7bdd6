-- ===== src/Orphans/Safety.antt =====
-- When orphanRemovalBlocked of ha_etcd_orphans.go lets an orphan etcd member go.
use mathlib.Core.List.{Memᴰ, Sublistᴰ}
use cluster_api_provider_kai.Prelude.{
  ℕ, ◌*◌, ◌-◌, ◌<◌, ◌≤◌, Bool, Bool-cases, ◌&&◌, true, false, not, Option-cases, some, List, [],
  ◌∷◌, length, count_if, keep, member_of, member_of-append, lookup, Text, ◌==◌, ==_iff, ==_refl,
  All, keep-All_pass, ◌⊎◌, ◌≡◌, ◌≢◌, refl, sym, ap, ◌∙◌, ◌↔◌, arith, inl, inr,
}
use cluster_api_provider_kai.Model.{Machine}
use cluster_api_provider_kai.Etcd.{EtcdStatus, MemberStatus}
use cluster_api_provider_kai.Member.{EtcdMember}
use cluster_api_provider_kai.Leave.{LeaveApi}
use cluster_api_provider_kai.Orphans.{
  orphan_removal_blocked, healthy_voting_members, unmatched_machines, registered_names, node_names,
  healthy_report,
}
use cluster_api_provider_kai.Orphans.Matching.{Paired, unmatched_machines-Paired}

-- A member other than the target that is the Node of one of the Machines, and reports healthy and voting.
pub record Voter (machines : List Machine) (target : EtcdMember) (status : EtcdStatus)
    (m : EtcdMember) : Type 0 where
  pub stays : m.name ≢ target.name
  pub machine : Machine
  pub is_machine : Memᴰ machine machines
  pub node : machine.node_ref ≡ some m.name
  pub report : MemberStatus
  pub reported : lookup m.name status ≡ some report
  pub healthy : report.healthy ≡ true
  pub voting : report.voting ≡ true

-- The pairing leaves no Machine over, so that each has a member of its own; and there are voters among the joined
-- members that are a quorum of the replicas the spec wants, and more than half of the members that stay.
pub record SafeRemoval (env : LeaveApi) (machines : List Machine) (joined : List EtcdMember)
    (target : EtcdMember) (status : EtcdStatus) (desired : ℕ) : Type 0 where
  pub none_over : unmatched_machines env machines joined ≡ []
  pub paired : Paired env machines joined
  pub voters : List EtcdMember
  pub among : Sublistᴰ voters joined
  pub each : All (Voter machines target status) voters
  pub spec_quorum : desired < 2 * length voters
  pub majority : length joined - 1 < 2 * length voters

List-cases : (xs : List Text) → (xs ≡ []) ⊎ ((x : Text) × (rest : List Text) × (xs ≡ x ∷ rest))
List-cases [] = inl refl
List-cases (x ∷ xs) = inr (x, xs, refl)

module _ {A : Type 0} (p : A → Bool) where
  keep-Sublistᴰ : (xs : List A) → Sublistᴰ (keep p xs) xs
  unfolding keep
  keep-Sublistᴰ [] = Sublistᴰ.slnil
  keep-Sublistᴰ (x ∷ xs) = elim (Bool-cases (p x)) [
    | inl e ↦ rw (keep, e) (Sublistᴰ.cons-cons refl (keep-Sublistᴰ xs))
    | inr e ↦ rw (keep, e) (Sublistᴰ.cons (keep-Sublistᴰ xs))
  ]

  length-keep : (xs : List A) → length (keep p xs) ≡ count_if p xs
  unfolding keep count_if
  length-keep [] = refl
  length-keep (x ∷ xs) = ground (arith, length-keep xs)

  sublist-counted :
      (ys xs : List A) → Sublistᴰ ys xs → All (λ y. p y ≡ true) ys → length ys ≤ count_if p xs
  unfolding count_if
  sublist-counted ys xs Sublistᴰ.slnil h = omega arith
  sublist-counted ys (x ∷ xs) (Sublistᴰ.cons s) h = ground (arith, sublist-counted ys xs s h)
  sublist-counted (y ∷ ys) (x ∷ xs) (Sublistᴰ.cons-cons e s) h =
      ground (arith, ap p e, h, sublist-counted ys xs s h.1)

-- a Node name of one of the Machines
names-Machine :
    (env : LeaveApi) (k : Text) (machines : List Machine)
    → member_of k (registered_names env machines) ≡ true
    → (m : Machine) × Memᴰ m machines × (m.node_ref ≡ some k)
unfolding registered_names member_of
names-Machine env k [] h = absurd (ground (arith, h))
names-Machine env k (m ∷ ms) h = elim (Option-cases m.node_ref) [
  | inl none_ ↦
      let (x, is_machine, node) = names-Machine env k ms (ground (arith, none_, h)) in
      (x, Memᴰ.tail is_machine, node)
  | inr (name, some_) ↦ elim (Bool-cases (name == k)) [
    | inl hit ↦ (m, Memᴰ.head refl, some_ ∙ ap some ((==_iff name k).0 hit))
    | inr miss ↦
        let (x, is_machine, node) = names-Machine env k ms (ground (arith, some_, miss, h)) in
        (x, Memᴰ.tail is_machine, node)
  ]
]

Machine-names :
    (env : LeaveApi) (k : Text) (machines : List Machine) (m : Machine)
    → Memᴰ m machines
    → m.node_ref ≡ some k
    → member_of k (registered_names env machines) ≡ true
unfolding registered_names member_of
Machine-names env k [] m x'' node = elim x'' [ ]
Machine-names env k (x ∷ ms) m (Memᴰ.head e) node =
    ground (arith, ==_refl k, ap (λ (y : Machine). y.node_ref) (sym e) ∙ node)
Machine-names env k (x ∷ ms) m (Memᴰ.tail later) node = ground (
  arith,
  member_of-append k (node_names env x) (registered_names env ms),
  Machine-names env k ms m later node,
)

module _ (env : LeaveApi) (machines : List Machine) (target : EtcdMember)
    (status : EtcdStatus) where
  -- the test that healthyVotingMembers counts with
  abbrev passes : EtcdMember → Bool
  passes m =
      not (m.name == target.name)
      && member_of m.name (registered_names env machines)
      && healthy_report env status m.name

  passes-Voter : (m : EtcdMember) → passes m ≡ true → Voter machines target status m
  passes-Voter m h =
      let (machine, is_machine, node) = names-Machine env m.name machines (ground (arith, h)) in
      elim (Option-cases (lookup m.name status)) [
        | inl none_ ↦ absurd (ground (arith, none_, h))
        | inr (report, some_) ↦ record {
          stays = λ e. absurd (ground (arith, (==_iff m.name target.name).1 e, h));
          machine = machine;
          is_machine = is_machine;
          node = node;
          report = report;
          reported = some_;
          healthy = ground (arith, some_, h);
          voting = ground (arith, some_, h);
        }
      ]

  Voter-passes : (m : EtcdMember) → Voter machines target status m → passes m ≡ true
  Voter-passes m v = elim (Bool-cases (m.name == target.name)) [
    | inl same ↦ absurd (v.stays ((==_iff m.name target.name).0 same))
    | inr other ↦ ground (
      arith,
      other,
      Machine-names env m.name machines v.machine v.is_machine v.node,
      v.reported,
      v.healthy,
      v.voting,
    )
  ]

  All-Voter :
      (ms : List EtcdMember) → All (λ m. passes m ≡ true) ms → All (Voter machines target status) ms
  All-Voter [] h = tt
  All-Voter (m ∷ ms) h = (passes-Voter m h.0, All-Voter ms h.1)

  All-passes :
      (ms : List EtcdMember) → All (Voter machines target status) ms → All (λ m. passes m ≡ true) ms
  All-passes [] h = tt
  All-passes (m ∷ ms) h = (Voter-passes m h.0, All-passes ms h.1)

  free-SafeRemoval :
      (joined : List EtcdMember) (desired : ℕ)
      → unmatched_machines env machines joined ≡ []
      → orphan_removal_blocked env machines joined target status desired ≡ false
      → SafeRemoval env machines joined target status desired
  unfolding orphan_removal_blocked healthy_voting_members
  free-SafeRemoval joined desired none_over h =
      let counted = length-keep passes joined in
      record {
        none_over = none_over;
        paired = unmatched_machines-Paired env machines joined none_over;
        voters = keep passes joined;
        among = keep-Sublistᴰ passes joined;
        each = All-Voter (keep passes joined) (keep-All_pass passes joined);
        spec_quorum = ground (arith, none_over, counted, h);
        majority = ground (arith, none_over, counted, h);
      }

-- The guard lets the removal of an orphan go exactly when it is safe: the pairing leaves no Machine over, so
-- that the Machines have members of their own, each by its Node name or its peer address, and no member twice;
-- and there are members that stay, each the Node of a Machine that reports healthy and voting, that are more
-- than half of the desired replicas and more than half of the members that stay.
pub orphan_removal_blocked-SafeRemoval :
    (env : LeaveApi) (machines : List Machine) (joined : List EtcdMember) (target : EtcdMember)
    (status : EtcdStatus) (desired : ℕ)
    → (orphan_removal_blocked env machines joined target status desired ≡ false)
      ↔ SafeRemoval env machines joined target status desired
unfolding orphan_removal_blocked healthy_voting_members
orphan_removal_blocked-SafeRemoval env machines joined target status desired = (
  λ h. elim (List-cases (unmatched_machines env machines joined)) [
    | inr (x, rest, e) ↦ absurd (ground (arith, e, h))
    | inl e ↦ free-SafeRemoval env machines target status joined desired e h
  ],
  λ k. ground (
    arith,
    k.none_over,
    k.spec_quorum,
    k.majority,
    sublist-counted (passes env machines target status) k.voters joined k.among
        (All-passes env machines target status k.voters k.each),
  ),
)
