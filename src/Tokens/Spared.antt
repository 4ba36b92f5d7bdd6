-- ===== src/Tokens/Spared.antt =====
-- The Secrets of the workload cluster that are no controller-join-only bootstrap tokens are not touched by
-- ha_k0s_jointoken.go.
use cluster_api_provider_kai.Prelude.{
  ◌+◌, Bool, true, false, Option, none, some, List, [], ◌∷◌, Text, ◌≡◌, sym, ap, ◌∙◌, arith, inl,
  inr, ◌==◌, ==_iff, Bool-cases, Option-cases, Result, Result-cases, ok, err, failed,
  identity_changed, identity_not_pinned, name_taken, conflict,
}
use cluster_api_provider_kai.Model.{Machine}
use cluster_api_provider_kai.Session.{minting, minted}
use cluster_api_provider_kai.Identity.{via_endpoint, verify_workload_identity}
use cluster_api_provider_kai.Token.{
  BootstrapToken, Decoded, TokenSecret, is_controller_join_only, generate, encode, new_secret,
}
use cluster_api_provider_kai.Servers.{JoinServers, live_k0s_join_servers}
use cluster_api_provider_kai.Tokens.{
  TokenState, TokenApi, StoredSecret, JoinMember, members_of, decoded_of, workload_cluster_ca,
  set_world, set_issued, k0s_join_token_ttl, superseded_ids, delete_k0s_join_token,
  delete_k0s_join_token_secret_best_effort, create_token, undo_create,
}
use cluster_api_provider_kai.Tokens.Issue.{
  check_issued_k0s_join_token, store, mint_token, mint_k0s_controller_join_token, delete_superseded,
  confirm, after_mint, issue_new, reuse, choose, with_urls, with_servers, with_verified, with_ca,
  with_stored, with_members, ensure_k0s_controller_join_token,
}
use cluster_api_provider_kai.Tokens.Lifetime.{reconcile_k0s_join_token_lifetime, keep_tokens}
use cluster_api_provider_kai.Tokens.Deletes.{delete_k0s_join_token-Gone, set_issued-other}
use cluster_api_provider_kai.Tokens.Fate.{reconcile_k0s_join_token_lifetime-Fate}

module _ (t : TokenApi) (j : Text) (ws : TokenSecret)
    (foreign : is_controller_join_only ws ≡ false) where
  abbrev There : TokenState → Type 0
  There s = s.issued j ≡ some ws

  delete-There : (id : Text) (s : TokenState) → There s → There (delete_k0s_join_token t id s).1
  delete-There id s h = elim (delete_k0s_join_token-Gone t id s j) [
    | inl same ↦ same ∙ h
    | inr (at, (gone, (ws', was, only))) ↦ absurd (mismatch ws' (sym h ∙ was) only)
  ]
    where
      mismatch : (ws' : TokenSecret) → some ws ≡ some ws' → is_controller_join_only ws' ≡ true → ⊥
      mismatch ws' e only = ground (arith, foreign, only, e)

  undo-There :
      (id : Text) (s : TokenState)
      → (j == id) ≡ false
      → There s
      → There (delete_k0s_join_token_secret_best_effort t (undo_create id) id s).1
  unfolding delete_k0s_join_token_secret_best_effort
  undo-There id s other h = elim (Option-cases (t.fails (undo_create id))) [
    | inl e ↦
        rw (delete_k0s_join_token_secret_best_effort, e) (set_issued-other id j none s other ∙ h)
    | inr (x, e) ↦ rw (delete_k0s_join_token_secret_best_effort, e) h
  ]

  store-There :
      (id : Text) (r : Result Text) (s : TokenState)
      → (j == id) ≡ false
      → There s
      → There (store t id r s).1
  unfolding store
  store-There id (err e) s other h = undo-There id s other h
  store-There id (ok encoded) s other h = ground (arith, undo-There id s other h, h)

  mint_token-There :
      (server ca : Text) (token : BootstrapToken) (s : TokenState)
      → There s
      → There (mint_token t server ca token s).1
  unfolding mint_token
  mint_token-There server ca token s h = elim (Option-cases (t.fails (create_token token.id))) [
    | inr (x, f) ↦ rw (mint_token, f) h
    | inl f ↦ elim (Option-cases (s.issued token.id)) [
      | inr (old, used) ↦ rw (mint_token, f, used) h
      | inl unused ↦
          let other : (j == token.id) ≡ false = differs unused (==_iff j token.id).0 in
          let v = some (new_secret t.api token (t.api.now + k0s_join_token_ttl)) in
          rw (mint_token, f, unused)
            (store-There token.id (encode t.codec server ca token) (set_issued token.id v s) other
              (set_issued-other token.id j v s other ∙ h))
    ]
  ]
    where
      differs :
          s.issued token.id ≡ none
          → ((j == token.id) ≡ true → j ≡ token.id)
          → (j == token.id) ≡ false
      differs unused same = elim (Bool-cases (j == token.id)) [
        | inr other ↦ other
        | inl hit ↦ absurd (ground (arith, sym h ∙ ap s.issued (same hit) ∙ unused))
      ]

  mint-There :
      (server ca : Text) (s : TokenState)
      → There s
      → There (mint_k0s_controller_join_token t server ca s).1
  unfolding mint_k0s_controller_join_token
  mint-There server ca s h = elim (Result-cases (generate t.draw)) [
    | inl (token, e) ↦ rw (mint_k0s_controller_join_token, e) (mint_token-There server ca token s h)
    | inr (x, e) ↦ rw (mint_k0s_controller_join_token, e) h
  ]

  superseded-There :
      (id : Text) (olds : List Text) (s : TokenState)
      → There s
      → There (delete_superseded t id olds s)
  unfolding delete_superseded
  superseded-There id [] s h = h
  superseded-There id (old ∷ olds) s h = elim (Bool-cases (old == id)) [
    | inl hit ↦ rw (delete_superseded, hit) (superseded-There id olds s h)
    | inr other ↦
        rw (delete_superseded, other)
          (superseded-There id olds (delete_k0s_join_token t old s).1 (delete-There old s h))
  ]

  after_mint-There :
      (olds : List Text) (r : Result Text) (s : TokenState)
      → There s
      → There (after_mint t olds r s).1
  unfolding after_mint
  after_mint-There olds (err e) s h = h
  after_mint-There olds (ok id) s h =
      let (r, w) = verify_workload_identity t.api minted via_endpoint s.world in
      confirmed r (set_world w s) h
    where
      confirmed :
          (r : Result (Unit {0})) (s' : TokenState) → There s' → There (confirm t id olds r s').1
      confirmed (ok x) s' k = unfold confirm in superseded-There id olds s' k
      confirmed (err identity_changed) s' k = unfold confirm in delete-There id s' k
      confirmed (err identity_not_pinned) s' k = unfold confirm in k
      confirmed (err name_taken) s' k = unfold confirm in k
      confirmed (err conflict) s' k = unfold confirm in k
      confirmed (err failed) s' k = unfold confirm in k

  issue_new-There :
      (server ca : Text) (olds : List Text) (s : TokenState)
      → There s
      → There (issue_new t server ca olds s).1
  unfolding issue_new
  issue_new-There server ca olds s h =
      let (r, s') = mint_k0s_controller_join_token t server ca s in
      after_mint-There olds r s' (mint-There server ca s h)

  reuse-There :
      (id server ca : Text) (olds : List Text) (r : Result Bool) (s : TokenState)
      → There s
      → There (reuse t id server ca olds r s).1
  unfolding reuse
  reuse-There id server ca olds (err e) s h = h
  reuse-There id server ca olds (ok true) s h = h
  reuse-There id server ca olds (ok false) s h = issue_new-There server ca olds s h

  choose-There :
      (stored : StoredSecret) (members : List JoinMember) (ca server : Text) (live : List Text)
      (o : Option Decoded) (s : TokenState)
      → There s
      → There (choose t stored members ca server live o s).1
  unfolding choose
  choose-There stored members ca server live none s h =
      issue_new-There server ca (superseded_ids stored.annotated_id none) s h
  choose-There stored members ca server live (some d) s h =
      let olds = superseded_ids stored.annotated_id (some d) in
      ground (
        arith,
        issue_new-There server ca olds s h,
        reuse-There stored.annotated_id server ca olds (check_issued_k0s_join_token t d ca live s) s
            h,
      )

  with_urls-There :
      (stored : StoredSecret) (members : List JoinMember) (ca : Text) (urls : List Text)
      (s : TokenState)
      → There s
      → There (with_urls t stored members ca urls s).1
  unfolding with_urls
  with_urls-There stored members ca [] s h = h
  with_urls-There stored members ca (server ∷ live) s h =
      choose-There stored members ca server (server ∷ live) (decoded_of t stored) s h

  with_servers-There :
      (stored : StoredSecret) (members : List JoinMember) (ca : Text) (r : Result JoinServers)
      (s : TokenState)
      → There s
      → There (with_servers t stored members ca r s).1
  unfolding with_servers
  with_servers-There stored members ca (err e) s h = h
  with_servers-There stored members ca (ok servers) s h =
      with_urls-There stored members ca servers.urls s h

  with_verified-There :
      (stored : StoredSecret) (members : List JoinMember) (ca : Text) (machines : List Machine)
      (r : Result (Unit {0})) (s : TokenState)
      → There s
      → There (with_verified t stored members ca machines r s).1
  unfolding with_verified
  with_verified-There stored members ca machines (ok x) s h =
      with_servers-There stored members ca
        (live_k0s_join_servers t.api t.ip_text t.parse_url machines (t.endpoint_slice minting)) s h
  with_verified-There stored members ca machines (err identity_changed) s h = h
  with_verified-There stored members ca machines (err identity_not_pinned) s h = h
  with_verified-There stored members ca machines (err name_taken) s h = h
  with_verified-There stored members ca machines (err conflict) s h = h
  with_verified-There stored members ca machines (err failed) s h = h

  with_stored-There :
      (members : List JoinMember) (machines : List Machine) (o : Option StoredSecret)
      (s : TokenState)
      → There s
      → There (with_stored t members machines o s).1
  unfolding with_stored with_ca
  with_stored-There members machines none s h = h
  with_stored-There members machines (some stored) s h =
      elim (Result-cases (workload_cluster_ca t)) [
        | inr (x, e) ↦ ground (arith, e, h)
        | inl (ca, e) ↦
            let (r, w) = verify_workload_identity t.api minting via_endpoint s.world in
            ground (arith, e, h, with_verified-There stored members ca machines r (set_world w s) h)
      ]

  with_members-There :
      (machines : List Machine) (r : Result (List JoinMember)) (s : TokenState)
      → There s
      → There (with_members t machines r s).1
  unfolding with_members
  with_members-There machines (err e) s h = h
  with_members-There machines (ok members) s h =
      ground (arith, h, with_stored-There members machines s.stored s h)

  -- A Secret of the workload cluster that is no controller-join-only bootstrap token stays as it is, whether a token
  -- is issued or the tokens are maintained, and whatever fails.
  pub join_tokens-spare :
      (machines : List Machine) (s : TokenState)
      → s.issued j ≡ some ws
      → ((ensure_k0s_controller_join_token t machines s).1.issued j ≡ some ws)
        × ((reconcile_k0s_join_token_lifetime t machines s).1.issued j ≡ some ws)
  unfolding ensure_k0s_controller_join_token reconcile_k0s_join_token_lifetime
  join_tokens-spare machines s h = (
    ground (arith, h, with_members-There machines (members_of t t.etcd_status machines) s h),
    elim (Result-cases (members_of t t.etcd_status machines)) [
      | inr (e, r) ↦ unfold keep_tokens in ground (arith, h, r)
      | inl (members, r) ↦ elim (reconcile_k0s_join_token_lifetime-Fate t machines members s j r) [
        | inl same ↦ same ∙ h
        | inr (inl (free, its, (gone, (old, was, only)))) ↦
            absurd (ground (arith, foreign, only, sym h ∙ was))
        | inr (inr (at, e)) ↦ absurd (ground (arith, foreign, e.only, sym h ∙ e.was))
      ]
    ],
  )
