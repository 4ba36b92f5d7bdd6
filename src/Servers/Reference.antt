-- ===== src/Servers/Reference.antt =====
-- The loop that picks join servers, against what it computes.
use cluster_api_provider_kai.Prelude.{
  ℕ, ◌+◌, Bool, ◌||◌, true, false, not, Option, List, [], ◌∷◌, ◌++◌, map, Text, codes, ◌≡◌, refl,
  sym, ap, subst, ◌∙◌, arith, Bool-cases, Option-cases, inl, inr, keep, member_of, sort_by,
  text_less, found, ok, count_if, if◌then◌else◌, ◌==◌,
}
use cluster_api_provider_kai.Model.{Machine}
use cluster_api_provider_kai.Session.{Api}
use cluster_api_provider_kai.Candidates.{own_member_address, parse_ips}
use cluster_api_provider_kai.Servers.{
  Endpoint, EndpointSlice, Url, servers_of, k0s_join_server_url, live_k0s_join_servers, not_unicast,
  out_of_service, Scan, no_scan, scan_ip, scan_addresses, scan_endpoints,
}

-- The texts of the endpoints in service.
unfoldable pub addresses_in_service : List Endpoint → List Text
addresses_in_service [] = []
addresses_in_service (ep ∷ eps) =
    let rest = addresses_in_service eps in if out_of_service ep then rest else ep.addresses ++ rest

-- The first of each IP, in order, that is not among those seen.
unfoldable pub first_times : List Text → List Text → List Text
first_times seen [] = []
first_times seen (x ∷ xs) = elim (member_of x seen) [
  | true ↦ first_times seen xs
  | false ↦ x ∷ first_times (x ∷ seen) xs
]

-- The unicast IPs in service, each once.
unfoldable pub unicast_in_service : Api → List Endpoint → List Text
unicast_in_service api eps =
    first_times [] (keep (λ ip. not (not_unicast ip)) (parse_ips api (addresses_in_service eps)))

module _ (api : Api) (ip_text : Text → Text) (parse_url : Text → Option Url)
    (machines : List Machine) where
  -- What the scan of these IPs adds to `s`.
  unfoldable scan_ips : List Text → Scan → Scan
  scan_ips [] s = s
  scan_ips (ip ∷ ips) s = scan_ips ips (scan_ip api ip_text parse_url machines ip s)

  scan_ips-append :
      (xs ys : List Text) (s : Scan) → scan_ips (xs ++ ys) s ≡ scan_ips ys (scan_ips xs s)
  unfolding scan_ips
  scan_ips-append [] ys s = refl
  scan_ips-append (x ∷ xs) ys s = scan_ips-append xs ys (scan_ip api ip_text parse_url machines x s)

  scan_addresses-ips :
      (as_ : List Text) (s : Scan)
      → scan_addresses api ip_text parse_url machines as_ s ≡ scan_ips (parse_ips api as_) s
  unfolding scan_addresses parse_ips scan_ips
  scan_addresses-ips [] s = refl
  scan_addresses-ips (a ∷ as_) s = elim (Option-cases (api.parse_ip a)) [
    | inl e ↦ rw e (scan_addresses-ips as_ s)
    | inr (ip, e) ↦ rw e (scan_addresses-ips as_ (scan_ip api ip_text parse_url machines ip s))
  ]

  parse_ips-append :
      (as_ bs : List Text) → parse_ips api (as_ ++ bs) ≡ parse_ips api as_ ++ parse_ips api bs
  unfolding parse_ips
  parse_ips-append [] bs = refl
  parse_ips-append (a ∷ as_) bs = elim (Option-cases (api.parse_ip a)) [
    | inl e ↦ rw e (parse_ips-append as_ bs)
    | inr (ip, e) ↦ rw e (ap (λ r. ip ∷ r) (parse_ips-append as_ bs))
  ]

  scan_endpoints-ips :
      (eps : List Endpoint) (s : Scan)
      → scan_endpoints api ip_text parse_url machines eps s
        ≡ scan_ips (parse_ips api (addresses_in_service eps)) s
  unfolding scan_endpoints addresses_in_service parse_ips scan_ips
  scan_endpoints-ips [] s = refl
  scan_endpoints-ips (ep ∷ eps) s = elim (Bool-cases (out_of_service ep)) [
    | inl e ↦ rw e (scan_endpoints-ips eps s)
    | inr e ↦ rw e (
        scan_endpoints-ips eps (scan_addresses api ip_text parse_url machines ep.addresses s)
        ∙ ap (scan_ips (parse_ips api (addresses_in_service eps)))
            (scan_addresses-ips ep.addresses s)
        ∙ sym (
            scan_ips-append (parse_ips api ep.addresses) (parse_ips api (addresses_in_service eps))
              s)
        ∙ ap (λ l. scan_ips l s) (sym (parse_ips-append ep.addresses (addresses_in_service eps))))
  ]

  abbrev own : Text → Bool
  own = own_member_address api machines

  abbrev fresh_unicast : List Text → List Text → List Text
  fresh_unicast seen xs = first_times seen (keep (λ ip. not (not_unicast ip)) xs)

  append_assoc : (xs ys zs : List Text) → (xs ++ ys) ++ zs ≡ xs ++ (ys ++ zs)
  append_assoc [] ys zs = refl
  append_assoc (x ∷ xs) ys zs = ap (λ r. x ∷ r) (append_assoc xs ys zs)

  append_nil : (xs : List Text) → xs ++ [] ≡ xs
  append_nil [] = refl
  append_nil (x ∷ xs) = ap (λ r. x ∷ r) (append_nil xs)

  fresh-skip :
      (seen : List Text) (x : Text) (xs : List Text)
      → not_unicast x ≡ true
      → fresh_unicast seen (x ∷ xs) ≡ fresh_unicast seen xs
  unfolding keep
  fresh-skip seen x xs e = rw e refl

  fresh-seen :
      (seen : List Text) (x : Text) (xs : List Text)
      → not_unicast x ≡ false
      → member_of x seen ≡ true
      → fresh_unicast seen (x ∷ xs) ≡ fresh_unicast seen xs
  unfolding keep first_times
  fresh-seen seen x xs e old = ground (arith, e, old)

  fresh-new :
      (seen : List Text) (x : Text) (xs : List Text)
      → not_unicast x ≡ false
      → member_of x seen ≡ false
      → fresh_unicast seen (x ∷ xs) ≡ x ∷ fresh_unicast (x ∷ seen) xs
  unfolding keep first_times
  fresh-new seen x xs e new = ground (arith, e, new)

  -- The loop's result on these IPs, from this state on.
  abbrev Scanned : List Text → Scan → Scan → Type 0
  Scanned fresh s r =
      (r.ips ≡ s.ips ++ keep own fresh)
      × (r.unmatched ≡ s.unmatched + count_if (λ ip. not (own ip)) fresh)

  scan_new :
      (x : Text) (rest : List Text) (s : Scan) (f : Scan → Scan)
      → ((t : Scan) → t.seen ≡ x ∷ s.seen → Scanned rest t (f t))
      → not_unicast x ≡ false
      → member_of x s.seen ≡ false
      → Scanned (x ∷ rest) s (f (scan_ip api ip_text parse_url machines x s))
  unfolding scan_ip keep count_if
  scan_new x rest s f ih e new = elim (Bool-cases (own x)) [
    | inl mine ↦
        let h =
          ih (record { seen = x ∷ s.seen; ips = s.ips ++ (x ∷ []); unmatched = s.unmatched })
            refl in
        rw (scan_ip, e, new, mine) (h.0 ∙ append_assoc s.ips (x ∷ []) (keep own rest), h.1)
    | inr other ↦
        let h = ih (record { seen = x ∷ s.seen; ips = s.ips; unmatched = s.unmatched + 1 }) refl in
        rw (scan_ip, e, new, other) (h.0, omega (arith, h.1))
  ]

  scan_ip-skip :
      (x : Text) (s : Scan) → not_unicast x ≡ true → scan_ip api ip_text parse_url machines x s ≡ s
  unfolding scan_ip
  scan_ip-skip x s e = rw e refl

  scan_ip-seen :
      (x : Text) (s : Scan)
      → not_unicast x ≡ false
      → member_of x s.seen ≡ true
      → scan_ip api ip_text parse_url machines x s ≡ s
  unfolding scan_ip
  scan_ip-seen x s e old = rw (e, old) refl

  keeps :
      {l k : List Text} {s t : Scan} (xs : List Text)
      → l ≡ k
      → s ≡ t
      → Scanned l s (scan_ips xs s)
      → Scanned k s (scan_ips xs t)
  keeps {k = k} {s = s} xs e h d =
      subst (λ t. Scanned k s (scan_ips xs t)) h (subst (λ l. Scanned l s (scan_ips xs s)) e d)

  scan_ips-Scanned :
      (xs : List Text) (s : Scan) → Scanned (fresh_unicast s.seen xs) s (scan_ips xs s)
  unfolding scan_ips keep first_times count_if
  scan_ips-Scanned [] s = (sym (append_nil s.ips), omega arith)
  scan_ips-Scanned (x ∷ xs) s = elim (Bool-cases (not_unicast x)) [
    | inl e ↦
        keeps xs (sym (fresh-skip s.seen x xs e)) (sym (scan_ip-skip x s e)) (scan_ips-Scanned xs s)
    | inr e ↦ elim (Bool-cases (member_of x s.seen)) [
      | inl old ↦
          keeps xs (sym (fresh-seen s.seen x xs e old)) (sym (scan_ip-seen x s e old))
            (scan_ips-Scanned xs s)
      | inr new ↦
          subst (λ l. Scanned l s (scan_ips xs (scan_ip api ip_text parse_url machines x s)))
            (sym (fresh-new s.seen x xs e new))
            (scan_new x (fresh_unicast (x ∷ s.seen) xs) s (scan_ips xs)
              (λ t h.
                subst (λ seen. Scanned (fresh_unicast seen xs) t (scan_ips xs t)) h
                  (scan_ips-Scanned xs t))
              e new)
    ]
  ]

  servers-reference :
      (eps : List Endpoint)
      → let s = scan_endpoints api ip_text parse_url machines eps no_scan in
        (s.ips ≡ keep own (unicast_in_service api eps))
        × (s.unmatched ≡ count_if (λ ip. not (own ip)) (unicast_in_service api eps))
  unfolding unicast_in_service
  servers-reference eps =
      let h = scan_ips-Scanned (parse_ips api (addresses_in_service eps)) no_scan in
      rw (scan_endpoints-ips eps no_scan) (h.0, omega (arith, h.1))

  servers_of_eq :
      (r : Scan) (ips : List Text) (n : ℕ)
      → r.ips ≡ ips
      → r.unmatched ≡ n
      → servers_of api ip_text parse_url r ≡ record {
        urls = map (k0s_join_server_url api ip_text parse_url) (sort_by text_less ips);
        unmatched = n;
      }
  unfolding servers_of
  servers_of_eq r ips n h k = rw (h, k) refl

  -- Of a slice of IPv4 or IPv6 addresses, the servers for a join token are those of our members among the unicast
  -- IPs in service, each once and in the order of their bytes; the rest of these IPs is counted.
  pub live_k0s_join_servers-reference :
      (slice : EndpointSlice)
      → (slice.address_type == codes "IPv4" || slice.address_type == codes "IPv6") ≡ true
      → live_k0s_join_servers api ip_text parse_url machines (found slice)
        ≡ ok (record {
          urls =
              map
                (k0s_join_server_url api ip_text parse_url)
                (sort_by text_less (keep own (unicast_in_service api slice.endpoints)));
          unmatched = count_if (λ ip. not (own ip)) (unicast_in_service api slice.endpoints);
        })
  unfolding live_k0s_join_servers
  live_k0s_join_servers-reference slice h =
      let (ips, unmatched) = servers-reference slice.endpoints in
      ground (
        arith,
        h,
        servers_of_eq (scan_endpoints api ip_text parse_url machines slice.endpoints no_scan) _ _
            ips unmatched,
      )
