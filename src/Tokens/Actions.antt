-- ===== src/Tokens/Actions.antt =====
-- No join-token step of ha_k0s_jointoken.go changes the membership of the control plane.
use cluster_api_provider_kai.Prelude.{
  Bool, ◌&&◌, true, false, Option, none, some, List, [], ◌∷◌, Text, codes, ◌≡◌, refl, ap, ◌∙◌,
  arith, inl, inr, ◌==◌, if_elim, member_of, Bool-cases, Option-cases, Result, ok, err, failed,
  identity_changed, identity_not_pinned, name_taken, conflict,
}
use cluster_api_provider_kai.Model.{Machine}
use cluster_api_provider_kai.Session.{minting, minted, lifetime}
use cluster_api_provider_kai.Identity.{via_endpoint, verify_workload_identity}
use cluster_api_provider_kai.Identity.Actions.{verify-actions}
use cluster_api_provider_kai.Token.{Decoded}
use cluster_api_provider_kai.Servers.{JoinServers, live_k0s_join_servers}
use cluster_api_provider_kai.Tokens.{
  TokenState, TokenApi, StoredSecret, JoinMember, Warning, pending, members_of, decoded_of,
  workload_cluster_ca, set_world, warn, legacy_token, server_unavailable, token_missing,
  extension_capped, superseded_ids, delete_k0s_join_token, delete_read,
  delete_k0s_join_token_secret_best_effort,
}
use cluster_api_provider_kai.Tokens.Issue.{
  check_issued_k0s_join_token, mint_k0s_controller_join_token, delete_superseded, confirm,
  after_mint, issue_new, reuse, choose, with_urls, with_servers, with_verified, with_ca,
  with_stored, with_members, ensure_k0s_controller_join_token,
}
use cluster_api_provider_kai.Tokens.Lifetime.{
  joiners_of, extendable, finished, pending_ids, warn_all, warn_legacy, mark_removed,
  clear_then_mark, remove_k0s_join_token, remove_finished, extend_read, extend_k0s_join_token,
  server_gone, extend_all, read_server, maintain, maintain_verified, keep_tokens,
  reconcile_k0s_join_token_lifetime,
}
use cluster_api_provider_kai.Tokens.Minting.{mint-world}

module _ (t : TokenApi) where
  delete-world : (id : Text) (s : TokenState) → (delete_k0s_join_token t id s).1.world ≡ s.world
  unfolding delete_k0s_join_token delete_read delete_k0s_join_token_secret_best_effort
  delete-world id s = elim (Option-cases (s.issued id)) [
    | inl e ↦ ground (arith, e)
    | inr (ws, e) ↦ ground (arith, e)
  ]

  superseded-world :
      (id : Text) (olds : List Text) (s : TokenState)
      → (delete_superseded t id olds s).world ≡ s.world
  unfolding delete_superseded
  superseded-world id [] s = refl
  superseded-world id (old ∷ olds) s = elim (Bool-cases (old == id)) [
    | inl hit ↦ rw (delete_superseded, hit) (superseded-world id olds s)
    | inr other ↦
        rw (delete_superseded, other)
          (superseded-world id olds (delete_k0s_join_token t old s).1 ∙ delete-world old s)
  ]

  confirm-world :
      (id : Text) (olds : List Text) (r : Result (Unit {0})) (s : TokenState)
      → (confirm t id olds r s).1.world ≡ s.world
  unfolding confirm
  confirm-world id olds (ok x) s = superseded-world id olds s
  confirm-world id olds (err identity_changed) s = delete-world id s
  confirm-world id olds (err identity_not_pinned) s = refl
  confirm-world id olds (err name_taken) s = refl
  confirm-world id olds (err conflict) s = refl
  confirm-world id olds (err failed) s = refl

  after_mint-actions :
      (olds : List Text) (r : Result Text) (s : TokenState)
      → (after_mint t olds r s).1.world.actions ≡ s.world.actions
  unfolding after_mint
  after_mint-actions olds (err e) s = refl
  after_mint-actions olds (ok id) s =
      let (r, w) = verify_workload_identity t.api minted via_endpoint s.world in
      ap (λ v. v.actions) (confirm-world id olds r (set_world w s))
      ∙ verify-actions t.api minted via_endpoint s.world

  issue_new-actions :
      (server ca : Text) (olds : List Text) (s : TokenState)
      → (issue_new t server ca olds s).1.world.actions ≡ s.world.actions
  unfolding issue_new
  issue_new-actions server ca olds s =
      let (r, s') = mint_k0s_controller_join_token t server ca s in
      after_mint-actions olds r s' ∙ ap (λ v. v.actions) (mint-world t server ca s)

  reuse-actions :
      (id server ca : Text) (olds : List Text) (r : Result Bool) (s : TokenState)
      → (reuse t id server ca olds r s).1.world.actions ≡ s.world.actions
  unfolding reuse
  reuse-actions id server ca olds (err e) s = refl
  reuse-actions id server ca olds (ok true) s = refl
  reuse-actions id server ca olds (ok false) s = issue_new-actions server ca olds s

  choose-actions :
      (stored : StoredSecret) (members : List JoinMember) (ca server : Text) (live : List Text)
      (o : Option Decoded) (s : TokenState)
      → (choose t stored members ca server live o s).1.world.actions ≡ s.world.actions
  unfolding choose
  choose-actions stored members ca server live none s =
      issue_new-actions server ca (superseded_ids stored.annotated_id none) s
  choose-actions stored members ca server live (some d) s =
      let olds = superseded_ids stored.annotated_id (some d) in
      ground (
        arith,
        issue_new-actions server ca olds s,
        reuse-actions stored.annotated_id server ca olds (check_issued_k0s_join_token t d ca live s)
            s,
      )

  with_urls-actions :
      (stored : StoredSecret) (members : List JoinMember) (ca : Text) (urls : List Text)
      (s : TokenState)
      → (with_urls t stored members ca urls s).1.world.actions ≡ s.world.actions
  unfolding with_urls
  with_urls-actions stored members ca [] s = refl
  with_urls-actions stored members ca (server ∷ live) s =
      choose-actions stored members ca server (server ∷ live) (decoded_of t stored) s

  with_servers-actions :
      (stored : StoredSecret) (members : List JoinMember) (ca : Text) (r : Result JoinServers)
      (s : TokenState)
      → (with_servers t stored members ca r s).1.world.actions ≡ s.world.actions
  unfolding with_servers
  with_servers-actions stored members ca (err e) s = refl
  with_servers-actions stored members ca (ok servers) s =
      with_urls-actions stored members ca servers.urls s

  with_verified-actions :
      (stored : StoredSecret) (members : List JoinMember) (ca : Text) (machines : List Machine)
      (r : Result (Unit {0})) (s : TokenState)
      → (with_verified t stored members ca machines r s).1.world.actions ≡ s.world.actions
  unfolding with_verified
  with_verified-actions stored members ca machines (ok x) s =
      with_servers-actions stored members ca
        (live_k0s_join_servers t.api t.ip_text t.parse_url machines (t.endpoint_slice minting)) s
  with_verified-actions stored members ca machines (err identity_changed) s = refl
  with_verified-actions stored members ca machines (err identity_not_pinned) s = refl
  with_verified-actions stored members ca machines (err name_taken) s = refl
  with_verified-actions stored members ca machines (err conflict) s = refl
  with_verified-actions stored members ca machines (err failed) s = refl

  with_ca-actions :
      (stored : StoredSecret) (members : List JoinMember) (machines : List Machine)
      (r : Result Text) (s : TokenState)
      → (with_ca t stored members machines r s).1.world.actions ≡ s.world.actions
  unfolding with_ca
  with_ca-actions stored members machines (err e) s = refl
  with_ca-actions stored members machines (ok ca) s =
      let (r, w) = verify_workload_identity t.api minting via_endpoint s.world in
      ground (
        arith,
        with_verified-actions stored members ca machines r (set_world w s),
        verify-actions t.api minting via_endpoint s.world,
      )

  with_stored-actions :
      (members : List JoinMember) (machines : List Machine) (o : Option StoredSecret)
      (s : TokenState)
      → (with_stored t members machines o s).1.world.actions ≡ s.world.actions
  unfolding with_stored
  with_stored-actions members machines none s = refl
  with_stored-actions members machines (some stored) s =
      with_ca-actions stored members machines (workload_cluster_ca t) s

  with_members-actions :
      (machines : List Machine) (r : Result (List JoinMember)) (s : TokenState)
      → (with_members t machines r s).1.world.actions ≡ s.world.actions
  unfolding with_members
  with_members-actions machines (err e) s = refl
  with_members-actions machines (ok members) s =
      ground (arith, with_stored-actions members machines s.stored s)

  pub ensure-actions :
      (machines : List Machine) (s : TokenState)
      → (ensure_k0s_controller_join_token t machines s).1.world.actions ≡ s.world.actions
  unfolding ensure_k0s_controller_join_token
  ensure-actions machines s =
      ground (arith, with_members-actions machines (members_of t t.etcd_status machines) s)

  warn_all-world :
      (w : Text → Warning) (ms : List Machine) (s : TokenState) → (warn_all w ms s).world ≡ s.world
  unfolding warn_all
  warn_all-world w [] s = refl
  warn_all-world w (m ∷ ms) s = warn_all-world w ms (warn (w m.name) s)

  warn_legacy-world : (ms : List JoinMember) (s : TokenState) → (warn_legacy ms s).world ≡ s.world
  unfolding warn_legacy
  warn_legacy-world [] s = refl
  warn_legacy-world (m ∷ ms) s =
      if_elim (λ (r : TokenState). (warn_legacy ms r).world ≡ s.world)
        (pending m && m.token_id == codes "") _ _
        (λ h. warn_legacy-world ms (warn (legacy_token m.machine.name) s))
        (λ h. warn_legacy-world ms s)

  remove-world : (m : JoinMember) (s : TokenState) → (remove_k0s_join_token t m s).world ≡ s.world
  unfolding remove_k0s_join_token clear_then_mark mark_removed
  remove-world m s = elim (Option-cases (delete_k0s_join_token t m.token_id s).1.stored) [
    | inl e ↦ ground (arith, e, delete-world m.token_id s)
    | inr (ws, e) ↦ ground (arith, e, delete-world m.token_id s)
  ]

  remove_finished-world :
      (in_use : List Text) (members : List JoinMember) (s : TokenState)
      → (remove_finished t in_use members s).world ≡ s.world
  unfolding remove_finished
  remove_finished-world in_use [] s = refl
  remove_finished-world in_use (m ∷ ms) s =
      if_elim (λ (r : TokenState). (remove_finished t in_use ms r).world ≡ s.world)
        (member_of m.token_id in_use) _ _ (λ h. remove_finished-world in_use ms s)
        (λ h. remove_finished-world in_use ms (remove_k0s_join_token t m s) ∙ remove-world m s)

  extend-world :
      (id : Text) (joiners : List Machine) (s : TokenState)
      → (extend_k0s_join_token t id joiners s).world ≡ s.world
  unfolding extend_k0s_join_token extend_read
  extend-world id joiners s = elim (Option-cases (s.issued id)) [
    | inl e ↦ ground (arith, e, warn_all-world token_missing joiners s)
    | inr (ws, e) ↦ ground (arith, e, warn_all-world extension_capped joiners s)
  ]

  extend_all-world :
      (server : Option (Text × Text)) (live : Result JoinServers) (members : List JoinMember)
      (ids : List Text) (s : TokenState)
      → (extend_all t server live members ids s).world ≡ s.world
  unfolding extend_all
  extend_all-world server live members [] s = refl
  extend_all-world server live members (id ∷ ids) s =
      let joiners = joiners_of id members in
      let s' = extend_k0s_join_token t id joiners s in
      if_elim (λ (r : TokenState). (extend_all t server live members ids r).world ≡ s.world)
        (server_gone t id server live) _ _
        (λ h.
          extend_all-world server live members ids (warn_all server_unavailable joiners s')
          ∙ warn_all-world server_unavailable joiners s'
          ∙ extend-world id joiners s)
        (λ h. extend_all-world server live members ids s' ∙ extend-world id joiners s)

  maintain_verified-world :
      (machines : List Machine) (members : List JoinMember) (r : Result (Unit {0})) (s : TokenState)
      → (maintain_verified t machines members r s).world ≡ s.world
  unfolding maintain_verified maintain
  maintain_verified-world machines members (err e) s = refl
  maintain_verified-world machines members (ok x) s =
      let ids = pending_ids members in
      let s' = remove_finished t ids (finished members) s in
      extend_all-world (read_server t s')
        (live_k0s_join_servers t.api t.ip_text t.parse_url machines (t.endpoint_slice lifetime))
        (extendable members) ids s'
      ∙ remove_finished-world ids (finished members) s

  keep_tokens-actions :
      (machines : List Machine) (r : Result (List JoinMember)) (s : TokenState)
      → (keep_tokens t machines r s).1.world.actions ≡ s.world.actions
  unfolding keep_tokens
  keep_tokens-actions machines (err e) s = refl
  keep_tokens-actions machines (ok members) s =
      let s' = warn_legacy members s in
      let (r, w) = verify_workload_identity t.api lifetime via_endpoint s'.world in
      ground (
        arith,
        warn_legacy-world members s,
        maintain_verified-world machines members r (set_world w s'),
        verify-actions t.api lifetime via_endpoint s'.world,
      )

  pub lifetime-actions :
      (machines : List Machine) (s : TokenState)
      → (reconcile_k0s_join_token_lifetime t machines s).1.world.actions ≡ s.world.actions
  unfolding reconcile_k0s_join_token_lifetime
  lifetime-actions machines s =
      ground (arith, keep_tokens-actions machines (members_of t t.etcd_status machines) s)
