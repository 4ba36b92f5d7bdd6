-- ===== src/Candidates/Sound.antt =====
-- Which addresses leaveCandidateIPs of ha_leave_member.go lets the etcd-leave traffic go to.
use cluster_api_provider_kai.Prelude.{
  ℕ, ◌+◌, Bool, Bool-cases, inl, inr, ◌⊎◌, refl, sym, ap, ◌∙◌, ◌==◌, ==_iff, count_if, true, false,
  not, ◌&&◌, List, [], ◌∷◌, ◌++◌, Text, ◌≡◌, arith, All, keep, map, sort_by, eqb, member_of,
  member_of-append, occurrences, keep-All, keep-All_pass, sort_by-All, append-All, map-All, zip-All,
}
use cluster_api_provider_kai.Model.{Machine, registered}
use cluster_api_provider_kai.Session.{Api}
use cluster_api_provider_kai.Candidates.{
  dedupe, ips_of, Candidate, less_candidate, parse_ips, own_member_address, unicast_ips, staying,
  reported_ips, candidates_of, leave_candidate_ips,
}

-- The Machine stays (it is neither the one that leaves nor being deleted), and reports this address.
abbrev pub reports : Api → Text → Text → Machine → Bool
reports api name ip m =
    (not (m.name == name) && not m.deleting) && member_of ip (parse_ips api m.addresses)

-- A unicast address that one of the Machines that stay reports, that no Machine being deleted reports, and that is
-- neither excluded nor an address of the Machine that leaves.
pub record Usable (api : Api) (machines : List Machine) (name : Text)
    (addresses exclude : List Text) (ip : Text) : Type 0 where
  pub unicast : api.is_global_unicast ip ≡ true
  pub once : count_if (reports api name ip) machines ≡ 1
  pub none_deleting :
      All (λ m. (m.deleting ≡ false) ⊎ (member_of ip (parse_ips api m.addresses) ≡ false)) machines
  pub not_excluded : member_of ip (parse_ips api exclude) ≡ false
  pub not_leaving : member_of ip (parse_ips api addresses) ≡ false

member_of-keep :
    (k : Text) (p : Text → Bool) (xs : List Text)
    → p k ≡ true
    → member_of k (keep p xs) ≡ member_of k xs
unfolding member_of keep
member_of-keep k p [] h = refl
member_of-keep k p (x ∷ xs) h = elim (Bool-cases (x == k)) [
  | inl same ↦ ground (arith, same, h, ap p ((==_iff x k).0 same), member_of-keep k p xs h)
  | inr other ↦ ground (arith, other, member_of-keep k p xs h)
]

occurrences-append :
    (k : Text) (xs ys : List Text) → occurrences k (xs ++ ys) ≡ occurrences k xs + occurrences k ys
unfolding occurrences
occurrences-append k [] ys = ground arith
occurrences-append k (x ∷ xs) ys = ground (arith, occurrences-append k xs ys)

occurrences-keep :
    (k : Text) (p : Text → Bool) (xs : List Text)
    → p k ≡ true
    → occurrences k (keep p xs) ≡ occurrences k xs
unfolding occurrences keep
occurrences-keep k p [] h = refl
occurrences-keep k p (x ∷ xs) h = elim (Bool-cases (x == k)) [
  | inl same ↦ ground (arith, same, h, ap p ((==_iff x k).0 same), occurrences-keep k p xs h)
  | inr other ↦ ground (arith, other, occurrences-keep k p xs h)
]

dropped :
    (k : Text) (p : Text → Bool) (xs : List Text) → p k ≡ false → occurrences k (keep p xs) ≡ 0
unfolding occurrences keep
dropped k p [] h = refl
dropped k p (x ∷ xs) h = elim (Bool-cases (x == k)) [
  | inl same ↦ ground (arith, same, h, ap p ((==_iff x k).0 same), dropped k p xs h)
  | inr other ↦ ground (arith, other, dropped k p xs h)
]

abbrev one_if : Bool → ℕ
one_if true = 1
one_if false = 0

occurrences-dedupe :
    (k : Text) (xs : List Text) → occurrences k (dedupe xs) ≡ one_if (member_of k xs)
unfolding occurrences dedupe member_of
occurrences-dedupe k [] = refl
occurrences-dedupe k (x ∷ xs) = elim (Bool-cases (x == k)) [
  | inl same ↦
      let at = (==_iff x k).0 same in
      ground (
        arith,
        same,
        dropped k (λ y. not (y == x)) (dedupe xs) (ground (arith, ==_iff k x, sym at)),
      )
  | inr other ↦ ground (
    arith,
    other,
    ==_iff x k,
    ==_iff k x,
    occurrences-keep k (λ y. not (y == x)) (dedupe xs)
          (ground (arith, ap (λ b. not b) (different other)))
        ∙ occurrences-dedupe k xs,
  )
]
  where
    different : (x == k) ≡ false → (k == x) ≡ false
    different h = elim (Bool-cases (k == x)) [
      | inl e ↦ absurd (ground (arith, h, (==_iff x k).1 (sym ((==_iff k x).0 e))))
      | inr e ↦ e
    ]

-- An address of a Machine is taken once.
occurrences-unicast :
    (api : Api) (ip : Text) (m : Machine)
    → api.is_global_unicast ip ≡ true
    → occurrences ip (unicast_ips api m) ≡ one_if (member_of ip (parse_ips api m.addresses))
unfolding unicast_ips
occurrences-unicast api ip m h =
    occurrences-dedupe ip (keep api.is_global_unicast (parse_ips api m.addresses))
    ∙ ap one_if (member_of-keep ip api.is_global_unicast (parse_ips api m.addresses) h)

-- The list of the reported addresses counts the Machines that stay and report this one.
occurrences-reports :
    (api : Api) (name ip : Text) (machines : List Machine)
    → api.is_global_unicast ip ≡ true
    → occurrences ip (reported_ips api (staying api name machines))
      ≡ count_if (reports api name ip) machines
unfolding occurrences reported_ips staying keep count_if
occurrences-reports api name ip [] h = refl
occurrences-reports api name ip (m ∷ ms) h =
    elim (Bool-cases (not (m.name == name) && not m.deleting)) [
      | inl stays ↦
          let split =
            occurrences-append ip (unicast_ips api m) (reported_ips api (staying api name ms)) in
          ground (
            arith,
            stays,
            split,
            occurrences-unicast api ip m h,
            occurrences-reports api name ip ms h,
          )
      | inr gone ↦ ground (arith, gone, occurrences-reports api name ip ms h)
    ]

-- No Machine that is being deleted reports an address that is in none of their lists.
deleting-silent :
    (api : Api) (ip : Text) (machines : List Machine)
    → member_of ip (ips_of api (keep (λ m. m.deleting) machines)) ≡ false
    → All (λ m. (m.deleting ≡ false) ⊎ (member_of ip (parse_ips api m.addresses) ≡ false)) machines
unfolding ips_of keep member_of
deleting-silent api ip [] h = tt
deleting-silent api ip (m ∷ ms) h = elim (Bool-cases m.deleting) [
  | inl gone ↦
      let split =
        member_of-append ip (parse_ips api m.addresses) (ips_of api (keep (λ m. m.deleting) ms)) in
      (
        inr (ground (arith, gone, split, h)),
        deleting-silent api ip ms (ground (arith, gone, split, h)),
      )
  | inr stays ↦ (inl stays, deleting-silent api ip ms (ground (arith, stays, h)))
]

dedupe-All : (P : Text → Type 0) (xs : List Text) → All P xs → All P (dedupe xs)
unfolding dedupe
dedupe-All P [] h = tt
dedupe-All P (x ∷ xs) h = (h.0, keep-All P (λ y. not (y == x)) (dedupe xs) (dedupe-All P xs h.1))

unicast_ips-All :
    (api : Api) (m : Machine) → All (λ ip. api.is_global_unicast ip ≡ true) (unicast_ips api m)
unfolding unicast_ips
unicast_ips-All api m =
    dedupe-All (λ ip. api.is_global_unicast ip ≡ true) _
      (keep-All_pass api.is_global_unicast (parse_ips api m.addresses))

-- the tests that a candidate has passed
abbrev Passed : Api → (Text → Bool) → Text → Type 0
Passed api usable ip = (usable ip ≡ true) × (api.is_global_unicast ip ≡ true)

candidates_of-All :
    (api : Api) (usable : Text → Bool) (ms : List Machine)
    → All (λ (c : Candidate). Passed api usable c.ip) (candidates_of api usable ms)
unfolding candidates_of
candidates_of-All api usable [] = tt
candidates_of-All api usable (m ∷ ms) =
    let P = λ (c : Candidate). Passed api usable c.ip in
    let ips = keep usable (unicast_ips api m) in
    append-All P _ (candidates_of api usable ms)
      (map-All P (λ ip. record { ip = ip; registered = registered m }) ips
        (zip-All (λ ip. usable ip ≡ true) (λ ip. api.is_global_unicast ip ≡ true) ips
          (keep-All_pass usable (unicast_ips api m))
          (keep-All (λ ip. api.is_global_unicast ip ≡ true) usable (unicast_ips api m)
            (unicast_ips-All api m))))
      (candidates_of-All api usable ms)

tested-Usable :
    (api : Api) (machines : List Machine) (name : Text) (addresses exclude : List Text) (ip : Text)
    → (own_member_address api machines ip
        && not (member_of ip (parse_ips api exclude ++ parse_ips api addresses)))
      ≡ true
    → api.is_global_unicast ip ≡ true
    → eqb (occurrences ip (reported_ips api (staying api name machines))) 1 ≡ true
    → Usable api machines name addresses exclude ip
unfolding own_member_address
tested-Usable api machines name addresses exclude ip ours unicast once =
    let split = member_of-append ip (parse_ips api exclude) (parse_ips api addresses) in
    record {
      unicast = unicast;
      once = ground (arith, once, occurrences-reports api name ip machines unicast);
      none_deleting = deleting-silent api ip machines (ground (arith, ours));
      not_excluded = ground (arith, ours, split);
      not_leaving = ground (arith, ours, split);
    }

tested-All :
    (api : Api) (machines : List Machine) (name : Text) (addresses exclude ips : List Text)
    → All
        (λ ip.
          Passed api
            (λ ip.
              own_member_address api machines ip
              && not (member_of ip (parse_ips api exclude ++ parse_ips api addresses)))
            ip
          × (eqb (occurrences ip (reported_ips api (staying api name machines))) 1 ≡ true))
        ips
    → All (Usable api machines name addresses exclude) ips
tested-All api machines name addresses exclude [] h = tt
tested-All api machines name addresses exclude (ip ∷ ips) h = (
  tested-Usable api machines name addresses exclude ip h.0.0.0 h.0.0.1 h.0.1,
  tested-All api machines name addresses exclude ips h.1,
)

-- Every candidate address is a unicast one that exactly one of the Machines that stay (neither the one
-- that leaves nor being deleted) reports, that no Machine that is being deleted reports, and that is
-- neither an excluded host nor an address of the Machine that leaves.
pub leave_candidate_ips-Usable :
    (api : Api) (machines : List Machine) (name : Text) (addresses exclude : List Text)
    → All
        (Usable api machines name addresses exclude)
        (leave_candidate_ips api machines name addresses exclude)
unfolding leave_candidate_ips
leave_candidate_ips-Usable api machines name addresses exclude =
    let usable = λ (ip : Text).
      own_member_address api machines ip
      && not (member_of ip (parse_ips api exclude ++ parse_ips api addresses)) in
    let once =
      λ (ip : Text). eqb (occurrences ip (reported_ips api (staying api name machines))) 1 in
    let P = λ (ip : Text). Passed api usable ip in
    let cands = sort_by less_candidate (candidates_of api usable (staying api name machines)) in
    let ips = map (λ (c : Candidate). c.ip) cands in
    tested-All api machines name addresses exclude (keep once ips) (
      zip-All P (λ ip. once ip ≡ true) (keep once ips)
        (keep-All P once ips (
          map-All P (λ (c : Candidate). c.ip) cands
            (sort_by-All (λ (c : Candidate). P c.ip) less_candidate
              (candidates_of api usable (staying api name machines))
              (candidates_of-All api usable (staying api name machines)))))
        (keep-All_pass once ips))
