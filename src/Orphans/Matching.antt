-- ===== src/Orphans/Matching.antt =====
-- unmatchedMachines of ha_etcd_orphans.go: where it finds none, each Machine has a member of its own.
use mathlib.Core.List.{Memᴰ}
use cluster_api_provider_kai.Prelude.{
  Bool, Bool-cases, ◌&&◌, ◌||◌, true, false, not, Option-cases, some, List, [], ◌∷◌, map, Text,
  codes, ◌==◌, ==_refl, ==_iff, All-Memᴰ, member_of, keep, All, ◌≡◌, inl, inr, refl, sym, ap, ◌∙◌,
  arith,
}
use cluster_api_provider_kai.Model.{Machine, registered, node_ref_name, or_else}
use cluster_api_provider_kai.Candidates.{parse_ips}
use cluster_api_provider_kai.Member.{EtcdMember, peer_ip}
use cluster_api_provider_kai.Leave.{LeaveApi}
use cluster_api_provider_kai.Orphans.{
  Pairing, pair_by_name, pair_by_address, first_at, unused, at_address, names_of,
  unmatched_machines,
}

-- The Machine accounts for the member: its Node has the member's name, or it reports the peer address.
pub data Accounts (env : LeaveApi) (m : Machine) (e : EtcdMember) : Type 0 where
  by_name : m.node_ref ≡ some e.name → Accounts env m e
  by_address :
      (ip : Text)
      → peer_ip env.api env.split_host_port e ≡ some ip
      → member_of ip (parse_ips env.api m.addresses) ≡ true
      → Accounts env m e

-- A Machine and the member that it is paired with, both of these lists.
pub record Pair (env : LeaveApi) (machines : List Machine) (joined : List EtcdMember) : Type 0 where
  pub machine : Machine
  pub member : EtcdMember
  pub is_machine : Memᴰ machine machines
  pub is_member : Memᴰ member joined
  pub accounts : Accounts env machine member

abbrev pub Distinct : List Text → Type 0
Distinct [] = Unit
Distinct (x ∷ xs) = (member_of x xs ≡ false) × Distinct xs

-- Pairs without a common member that cover every Machine by its name.
pub record Paired (env : LeaveApi) (machines : List Machine) (joined : List EtcdMember)
    : Type 0 where
  pub pairs : List (Pair env machines joined)
  pub apart : Distinct (map (λ p. p.member.name) pairs)
  pub covered :
      All (λ (m : Machine). member_of m.name (map (λ p. p.machine.name) pairs) ≡ true) machines

member_named :
    (k : Text) (joined : List EtcdMember)
    → member_of k (names_of joined) ≡ true
    → (e : EtcdMember) × Memᴰ e joined × (e.name ≡ k)
unfolding member_of names_of
member_named k [] h = absurd (ground (arith, h))
member_named k (e ∷ es) h = elim (Bool-cases (e.name == k)) [
  | inl hit ↦ (e, Memᴰ.head refl, (==_iff e.name k).0 hit)
  | inr miss ↦
      let (x, among, at) = member_named k es (ground (arith, h, miss)) in (x, Memᴰ.tail among, at)
]

-- what the search for a peer address has found
found_unused :
    (env : LeaveApi) (addrs used : List Text) (joined : List EtcdMember) (e : EtcdMember)
    → first_at (at_address env addrs) (unused used joined) ≡ some e
    → Memᴰ e joined × (at_address env addrs e ≡ true) × (member_of e.name used ≡ false)
unfolding first_at keep
found_unused env addrs used [] e h = absurd (ground (arith, h))
found_unused env addrs used (x ∷ xs) e h = elim (Bool-cases (member_of x.name used)) [
  | inl taken ↦
      let (among, at, free) = found_unused env addrs used xs e (ground (arith, taken, h)) in
      (Memᴰ.tail among, at, free)
  | inr free ↦ elim (Bool-cases (at_address env addrs x)) [
    | inr off ↦
        let (among, at, free) = found_unused env addrs used xs e (ground (arith, free, off, h)) in
        (Memᴰ.tail among, at, free)
    | inl at ↦
        let same : some x ≡ some e = ground (arith, free, at, h) in
        let same_member : e ≡ x = sym (ap (λ o. or_else o x) same) in
        (
          Memᴰ.head same_member,
          ap (at_address env addrs) same_member ∙ at,
          ap (λ y. member_of y.name used) same_member ∙ free,
        )
  ]
]

at_address-Accounts :
    (env : LeaveApi) (m : Machine) (e : EtcdMember)
    → at_address env (parse_ips env.api m.addresses) e ≡ true
    → Accounts env m e
at_address-Accounts env m e h = elim (Option-cases (peer_ip env.api env.split_host_port e)) [
  | inl none_ ↦ absurd (ground (arith, none_, h))
  | inr (ip, some_) ↦ by_address ip some_ (ground (arith, some_, h))
]

node_of_registered : (m : Machine) → registered m ≡ true → m.node_ref ≡ some (node_ref_name m)
node_of_registered m h = elim (Option-cases m.node_ref) [
  | inl none_ ↦ absurd (ground (arith, none_, h))
  | inr (name, some_) ↦ some_ ∙ ap some (sym (ap (λ o. or_else o (codes "")) some_))
]

or_true : (a : Bool) {b : Bool} → b ≡ true → (a || b) ≡ true
or_true a h = ground (arith, h)

module _ (env : LeaveApi) (machines : List Machine) (joined : List EtcdMember) where
  abbrev members_of : List (Pair env machines joined) → List Text
  members_of pairs = map (λ p. p.member.name) pairs

  abbrev machines_of : List (Pair env machines joined) → List Text
  machines_of pairs = map (λ p. p.machine.name) pairs

  -- the first loop, by Node name
  abbrev state_of : List (Pair env machines joined) → Pairing
  state_of pairs = record { used = members_of pairs; matched = machines_of pairs }

  paired_by_name :
      (ms : List Machine) (pairs : List (Pair env machines joined))
      → All (λ m. Memᴰ m machines) ms
      → Distinct (members_of pairs)
      → (pairs' : List (Pair env machines joined)) × (pair_by_name joined ms (state_of pairs)
          ≡ state_of pairs')
        × Distinct (members_of pairs')
  unfolding pair_by_name
  paired_by_name [] pairs among d = (pairs, refl, d)
  paired_by_name (m ∷ ms) pairs among d =
      elim (Bool-cases (
        registered m
        && member_of (node_ref_name m) (names_of joined)
        && not (member_of (node_ref_name m) (members_of pairs)))) [
          | inr miss ↦
              let (pairs', same, d') = paired_by_name ms pairs among.1 d in
              (pairs', rw (pair_by_name, miss) same, d')
          | inl hit_ ↦
              let (e, is_member, named) =
                member_named (node_ref_name m) joined (ground (arith, hit_)) in
              let node = node_of_registered m (ground (arith, hit_)) ∙ ap some (sym named) in
              let pair : Pair env machines joined = record {
                machine = m;
                member = e;
                is_machine = among.0;
                is_member = is_member;
                accounts = by_name node;
              } in
              let free : member_of e.name (members_of pairs) ≡ false =
                ap (λ k. member_of k (members_of pairs)) named ∙ ground (arith, hit_) in
              let (pairs', same, d') = paired_by_name ms (pair ∷ pairs) among.1 (free, d) in
              (
                pairs',
                rw (pair_by_name, hit_)
                    (ap
                        (λ k. pair_by_name joined ms (record {
                          used = k ∷ members_of pairs;
                          matched = m.name ∷ machines_of pairs;
                        }))
                        (sym named)
                      ∙ same),
                d',
              )
        ]

  -- What the second loop comes to: more pairs, which cover these Machines.
  record Covered (pairs : List (Pair env machines joined)) (ms : List Machine) : Type 0 where
    all : List (Pair env machines joined)
    apart : Distinct (members_of all)
    more :
        (k : Text) → member_of k (machines_of pairs) ≡ true → member_of k (machines_of all) ≡ true
    covers : All (λ (m : Machine). member_of m.name (machines_of all) ≡ true) ms

  paired_by_address :
      (ms : List Machine) (matched : List Text) (pairs : List (Pair env machines joined))
      → All (λ m. Memᴰ m machines) ms
      → ((k : Text) → member_of k matched ≡ true → member_of k (machines_of pairs) ≡ true)
      → Distinct (members_of pairs)
      → pair_by_address env joined matched (members_of pairs) ms ≡ []
      → Covered pairs ms
  unfolding pair_by_address member_of
  paired_by_address [] matched pairs among sub d h = record {
    all = pairs;
    apart = d;
    more = λ k e. e;
    covers = tt;
  }
  paired_by_address (m ∷ ms) matched pairs among sub d h =
      elim (Bool-cases (member_of m.name matched)) [
        | inl hit_ ↦
            let c =
              paired_by_address ms matched pairs among.1 sub d (rw (pair_by_address, hit_) at h) in
            record {
              all = c.all;
              apart = c.apart;
              more = c.more;
              covers = (c.more m.name (sub m.name hit_), c.covers);
            }
        | inr miss ↦
            elim (Option-cases (
              first_at (at_address env (parse_ips env.api m.addresses))
                (unused (members_of pairs) joined))) [
                  | inl none_ ↦ absurd (ground (arith, rw (pair_by_address, miss, none_) at h))
                  | inr (e, hit) ↦
                      let (is_member, at, free) =
                        found_unused env (parse_ips env.api m.addresses) (members_of pairs) joined e
                          hit in
                      let pair : Pair env machines joined = record {
                        machine = m;
                        member = e;
                        is_machine = among.0;
                        is_member = is_member;
                        accounts = at_address-Accounts env m e at;
                      } in
                      let c =
                        paired_by_address ms matched (pair ∷ pairs) among.1
                          (λ k y. or_true (m.name == k) (sub k y)) (free, d)
                          (rw (pair_by_address, miss, hit) at h) in
                      record {
                        all = c.all;
                        apart = c.apart;
                        more = λ k y. c.more k (or_true (m.name == k) y);
                        covers = (c.more m.name (ground (arith, ==_refl m.name)), c.covers);
                      }
                ]
      ]

  -- Where unmatchedMachines finds none, the Machines are paired.
  pub unmatched_machines-Paired :
      unmatched_machines env machines joined ≡ [] → Paired env machines joined
  unfolding unmatched_machines
  unmatched_machines-Paired h =
      let (pairs, same, d) = paired_by_name machines [] (All-Memᴰ machines) tt in
      let c =
        paired_by_address machines (machines_of pairs) pairs (All-Memᴰ machines) (λ k e. e) d
          (ap (λ p. pair_by_address env joined p.matched p.used machines) (sym same) ∙ h) in
      record { pairs = c.all; apart = c.apart; covered = c.covers }
