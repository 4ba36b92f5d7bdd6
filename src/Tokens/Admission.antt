-- ===== src/Tokens/Admission.antt =====
-- ensureK0sControllerJoinToken of ha_k0s_jointoken.go, step by step, up to the token that it returns.
use cluster_api_provider_kai.Prelude.{
  Bool, ◌||◌, true, false, not, Option, none, some, List, [], ◌∷◌, Text, codes, ◌≡◌, ◌≢◌, refl, sym,
  ap, ◌∙◌, arith, inl, inr, Bool-cases, Option-cases, Result, Result-cases, ok, err, failed,
  identity_changed, identity_not_pinned, name_taken, conflict, ◌==◌, ==_iff,
}
use cluster_api_provider_kai.Model.{Machine}
use cluster_api_provider_kai.Session.{minting}
use cluster_api_provider_kai.Identity.{frozen, via_endpoint, verify_workload_identity}
use cluster_api_provider_kai.Token.{Decoded, TokenSecret}
use cluster_api_provider_kai.Servers.{JoinServers, live_k0s_join_servers}
use cluster_api_provider_kai.Tokens.{
  TokenState, TokenApi, StoredSecret, JoinMember, members_of, decoded_of, workload_cluster_ca,
  set_world, superseded_ids, read_stored, reach_workload, check_token,
}
use cluster_api_provider_kai.Tokens.Issue.{
  any_pending, bound_to, still_good, check_secret, check_issued_k0s_join_token, reuse, choose,
  with_urls, with_servers, with_verified, with_ca, with_stored, with_members,
  ensure_k0s_controller_join_token,
}
use cluster_api_provider_kai.Tokens.Minting.{ok_inj, err_ne_ok}
use cluster_api_provider_kai.Tokens.Issued.{hold-none, Issued, still_good-Good, issue_new-Minted}

-- The token is issued for the live servers that were read.
abbrev pub OnServers :
    TokenApi → List JoinMember → Text → Result JoinServers → TokenState → Text → TokenState → Type 0
OnServers t members ca r s i s' =
    (servers : JoinServers) × (r ≡ ok servers) × Issued t members ca servers.urls s i s'

module _ (t : TokenApi) (members : List JoinMember) (stored : StoredSecret) where
  check_secret-good :
      (d : Decoded) (ca : Text) (live : List Text) (o : Option TokenSecret)
      → check_secret t d ca live o ≡ true
      → (ws : TokenSecret) × (o ≡ some ws) × (still_good t d ca live ws ≡ true)
  unfolding check_secret
  check_secret-good d ca live none h = absurd (ground (arith, h))
  check_secret-good d ca live (some ws) h = (ws, refl, h)

  check-good :
      (d : Decoded) (ca : Text) (live : List Text) (s : TokenState)
      → check_issued_k0s_join_token t d ca live s ≡ ok true
      → (ws : TokenSecret) × (s.issued d.token.id ≡ some ws) × (still_good t d ca live ws ≡ true)
  unfolding check_issued_k0s_join_token
  check-good d ca live s h = elim (Option-cases (t.fails (check_token d.token.id))) [
    | inr (x, f) ↦ absurd (err_ne_ok (rw (check_issued_k0s_join_token, f) at h))
    | inl f ↦
        check_secret-good d ca live (s.issued d.token.id)
          (ok_inj (rw (check_issued_k0s_join_token, f) at h))
  ]

  -- where the stored token is annotated, decodes, and is bound to no Machine
  reuse-Issued :
      (d : Decoded) (server ca : Text) (live olds : List Text) (r : Result Bool) (s : TokenState)
      (i : Text)
      → s.stored ≡ some stored
      → decoded_of t stored ≡ some d
      → d.token.id ≡ stored.annotated_id
      → bound_to stored.annotated_id (codes "") members ≡ codes ""
      → r ≡ check_issued_k0s_join_token t d ca (server ∷ live) s
      → (reuse t stored.annotated_id server ca olds r s).0 ≡ ok i
      → i ≢ codes ""
      → Issued t members ca (server ∷ live) s i (reuse t stored.annotated_id server ca olds r s).1
  unfolding reuse
  reuse-Issued d server ca live olds (err e) s i was dec same free c h n = hold-none h n
  reuse-Issued d server ca live olds (ok false) s i was dec same free c h n =
      inr (server, live, refl, issue_new-Minted t server ca olds s i h n)
  reuse-Issued d server ca live olds (ok true) s i was dec same free c h n =
      let (ws, there, good) = check-good d ca (server ∷ live) s (sym c) in
      let at : stored.annotated_id ≡ i = ok_inj h in
      inl (record {
        stored = stored;
        was_stored = was;
        annotated = at;
        decoded = d;
        decodes = dec;
        same_id = same ∙ at;
        unbound = ap (λ j. bound_to j (codes "") members) (sym at) ∙ free;
        secret = ws;
        present = ap s.issued (sym at ∙ sym same) ∙ there;
        good = still_good-Good t d ca (server ∷ live) ws good;
        unchanged = refl;
      })

  choose-Issued :
      (ca server : Text) (live : List Text) (o : Option Decoded) (s : TokenState) (i : Text)
      → s.stored ≡ some stored
      → decoded_of t stored ≡ o
      → (choose t stored members ca server (server ∷ live) o s).0 ≡ ok i
      → i ≢ codes ""
      → Issued t members ca
          (server ∷ live)
          s
          i
          (choose t stored members ca server (server ∷ live) o s).1
  unfolding choose
  choose-Issued ca server live none s i was dec h n = inr (
    server,
    live,
    refl,
    issue_new-Minted t server ca (superseded_ids stored.annotated_id none) s i h n,
  )
  choose-Issued ca server live (some d) s i was dec h n =
      let olds = superseded_ids stored.annotated_id (some d) in
      let unusable =
        stored.annotated_id == codes ""
        || not (d.token.id == stored.annotated_id)
        || not (bound_to stored.annotated_id (codes "") members == codes "") in
      elim (Bool-cases unusable) [
        | inl bad ↦
            rw (choose, bad)
              (inr (
                server,
                live,
                refl,
                issue_new-Minted t server ca olds s i (rw (choose, bad) at h) n,
              ))
        | inr fine ↦
            rw (choose, fine)
              (reuse-Issued d server ca live olds
                (check_issued_k0s_join_token t d ca (server ∷ live) s) s i was dec
                ((==_iff d.token.id stored.annotated_id).0 (ground (arith, fine)))
                ((==_iff (bound_to stored.annotated_id (codes "") members) (codes "")).0
                  (ground (arith, fine)))
                refl (rw (choose, fine) at h) n)
      ]

  with_urls-Issued :
      (ca : Text) (urls : List Text) (s : TokenState) (i : Text)
      → s.stored ≡ some stored
      → (with_urls t stored members ca urls s).0 ≡ ok i
      → i ≢ codes ""
      → Issued t members ca urls s i (with_urls t stored members ca urls s).1
  unfolding with_urls
  with_urls-Issued ca [] s i was h n = hold-none h n
  with_urls-Issued ca (server ∷ live) s i was h n =
      choose-Issued ca server live (decoded_of t stored) s i was refl h n

  with_servers-Issued :
      (ca : Text) (r : Result JoinServers) (s : TokenState) (i : Text)
      → s.stored ≡ some stored
      → (with_servers t stored members ca r s).0 ≡ ok i
      → i ≢ codes ""
      → OnServers t members ca r s i (with_servers t stored members ca r s).1
  unfolding with_servers
  with_servers-Issued ca (err e) s i was h n = hold-none h n
  with_servers-Issued ca (ok servers) s i was h n =
      (servers, refl, with_urls-Issued ca servers.urls s i was h n)

  with_verified-Issued :
      (ca : Text) (machines : List Machine) (r : Result (Unit {0})) (s : TokenState) (i : Text)
      → s.stored ≡ some stored
      → (with_verified t stored members ca machines r s).0 ≡ ok i
      → i ≢ codes ""
      → (r ≡ ok tt)
        × OnServers t members ca
            (live_k0s_join_servers t.api t.ip_text t.parse_url machines (t.endpoint_slice minting))
            s
            i
            (with_verified t stored members ca machines r s).1
  unfolding with_verified
  with_verified-Issued ca machines (ok x) s i was h n = (
    refl,
    with_servers-Issued ca
        (live_k0s_join_servers t.api t.ip_text t.parse_url machines (t.endpoint_slice minting)) s i
        was h n,
  )
  with_verified-Issued ca machines (err identity_changed) s i was h n = absurd (err_ne_ok h)
  with_verified-Issued ca machines (err identity_not_pinned) s i was h n = hold-none h n
  with_verified-Issued ca machines (err name_taken) s i was h n = hold-none h n
  with_verified-Issued ca machines (err conflict) s i was h n = hold-none h n
  with_verified-Issued ca machines (err failed) s i was h n = hold-none h n

-- What stands behind a token ID: no joiner is pending, the identity of the workload cluster was read and is the
-- pinned one, the CA and the live servers were read, and then the stored token was reused or a fresh one minted.
pub record Admitted (t : TokenApi) (machines : List Machine) (s : TokenState) (id : Text)
    (s' : TokenState) : Type 0 where
  pub members : List JoinMember
  pub read : members_of t t.etcd_status machines ≡ ok members
  pub none_pending : any_pending members ≡ false
  pub unfrozen : frozen s.world.kcp ≡ false
  pub verified : (verify_workload_identity t.api minting via_endpoint s.world).0 ≡ ok tt
  pub ca : Text
  pub ca_read : workload_cluster_ca t ≡ ok ca
  pub servers : JoinServers
  pub live :
      live_k0s_join_servers t.api t.ip_text t.parse_url machines (t.endpoint_slice minting)
      ≡ ok servers
  pub issued :
      Issued t members ca servers.urls
        (set_world (verify_workload_identity t.api minting via_endpoint s.world).1 s)
        id
        s'

module _ (t : TokenApi) (machines : List Machine) (members : List JoinMember) where
  -- from the read of the members on
  abbrev Behind : TokenState → Text → TokenState → Type 0
  Behind s id s' =
      ((verify_workload_identity t.api minting via_endpoint s.world).0 ≡ ok tt)
      × ((ca : Text) × (workload_cluster_ca t ≡ ok ca)
          × OnServers t members ca
              (live_k0s_join_servers t.api t.ip_text t.parse_url machines
                (t.endpoint_slice minting))
              (set_world (verify_workload_identity t.api minting via_endpoint s.world).1 s) id s')

  with_ca-Behind :
      (stored : StoredSecret) (r : Result Text) (s : TokenState) (i : Text)
      → s.stored ≡ some stored
      → workload_cluster_ca t ≡ r
      → (with_ca t stored members machines r s).0 ≡ ok i
      → i ≢ codes ""
      → Behind s i (with_ca t stored members machines r s).1
  unfolding with_ca
  with_ca-Behind stored (err e) s i was of h n = hold-none h n
  with_ca-Behind stored (ok ca) s i was of h n =
      elim (Option-cases (t.fails (reach_workload minting))) [
        | inr (x, f) ↦ hold-none (rw (with_ca, f) at h) n
        | inl f ↦
            let (r, w) = verify_workload_identity t.api minting via_endpoint s.world in
            let (v, on) =
              with_verified-Issued t members stored ca machines r (set_world w s) i was
                (rw (with_ca, f) at h) n in
            rw (with_ca, f) (v, (ca, of, on))
      ]

  with_stored-Behind :
      (o : Option StoredSecret) (s : TokenState) (i : Text)
      → s.stored ≡ o
      → (with_stored t members machines o s).0 ≡ ok i
      → i ≢ codes ""
      → Behind s i (with_stored t members machines o s).1
  unfolding with_stored
  with_stored-Behind none s i was h n = hold-none h n
  with_stored-Behind (some stored) s i was h n =
      with_ca-Behind stored (workload_cluster_ca t) s i was refl h n

  with_members-Behind :
      (s : TokenState) (i : Text)
      → (with_members t machines (ok members) s).0 ≡ ok i
      → i ≢ codes ""
      → (any_pending members ≡ false) × Behind s i (with_members t machines (ok members) s).1
  unfolding with_members
  with_members-Behind s i h n = elim (Bool-cases (any_pending members)) [
    | inl p ↦ hold-none (rw (with_members, p) at h) n
    | inr p ↦ elim (Option-cases (t.fails (read_stored minting))) [
      | inr (x, f) ↦ absurd (err_ne_ok (rw (with_members, p, f) at h))
      | inl f ↦ (
        p,
        rw (with_members, p, f)
            (with_stored-Behind s.stored s i refl (rw (with_members, p, f) at h) n),
      )
    ]
  ]

-- When a token ID is returned, the control plane is not frozen, no joiner is pending, and the workload cluster was
-- verified. Either the stored token is returned as it is: it was given to no Machine, its Secret is a
-- controller-join-only bootstrap token that is good for half an hour, and it names the CA that was read and one of the
-- live servers that were read. Or the token is fresh, for that CA and the first of those servers, with a Secret that
-- expires in an hour, stored with its ID, and the cluster was verified once more behind it.
pub ensure_k0s_controller_join_token-Admitted :
    (t : TokenApi) (machines : List Machine) (s : TokenState) (id : Text)
    → (ensure_k0s_controller_join_token t machines s).0 ≡ ok id
    → id ≢ codes ""
    → Admitted t machines s id (ensure_k0s_controller_join_token t machines s).1
unfolding ensure_k0s_controller_join_token with_members
ensure_k0s_controller_join_token-Admitted t machines s id h n =
    elim (Bool-cases (frozen s.world.kcp)) [
      | inl f ↦ absurd (err_ne_ok (rw (ensure_k0s_controller_join_token, f) at h))
      | inr f ↦ elim (Result-cases (members_of t t.etcd_status machines)) [
        | inr (e, r) ↦ absurd (err_ne_ok (rw (ensure_k0s_controller_join_token, f, r) at h))
        | inl (members, r) ↦
            let (p, (v, (ca, of, (servers, live, i)))) =
              with_members-Behind t machines members s id
                (rw (ensure_k0s_controller_join_token, f, r) at h) n in
            rw (ensure_k0s_controller_join_token, f, r)
              (record {
                members = members;
                read = r;
                none_pending = p;
                unfrozen = f;
                verified = v;
                ca = ca;
                ca_read = of;
                servers = servers;
                live = live;
                issued = i;
              })
      ]
    ]
