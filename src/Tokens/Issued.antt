-- ===== src/Tokens/Issued.antt =====
-- What ensureK0sControllerJoinToken of ha_k0s_jointoken.go has established when it returns a token ID.
use cluster_api_provider_kai.Prelude.{
  ℕ, ◌+◌, ◌≤◌, Option, none, member_of, true, false, some, List, [], ◌∷◌, Text, codes, ◌≡◌, ◌≢◌,
  refl, sym, ap, subst, ◌∙◌, arith, ◌⊎◌, inl, inr, Bool-cases, Option-cases, Result, ok, err,
  failed, identity_changed, identity_not_pinned, name_taken, conflict, ◌==◌, ==_iff,
}
use cluster_api_provider_kai.Session.{minted}
use cluster_api_provider_kai.Identity.{via_endpoint, verify_workload_identity}
use cluster_api_provider_kai.Token.{
  Decoded, TokenSecret, is_controller_join_only, value_of, token_secret_key, expiry,
}
use cluster_api_provider_kai.Servers.{normalize_k0s_join_server}
use cluster_api_provider_kai.Tokens.{
  TokenState, TokenApi, StoredSecret, JoinMember, decoded_of, set_world, delete_k0s_join_token,
  k0s_join_token_renew_within, delete_read, delete_k0s_join_token_secret_best_effort,
}
use cluster_api_provider_kai.Tokens.Issue.{
  bound_to, still_good, late_enough, is_live, mint_k0s_controller_join_token, delete_superseded,
  confirm, after_mint, issue_new,
}
use cluster_api_provider_kai.Tokens.Deletes.{Same, delete_k0s_join_token-Gone}
use cluster_api_provider_kai.Tokens.Minting.{ok_inj, err_ne_ok, Fresh, mint-Fresh, mint-world}

pub hold-none : {P : Type 0} {i : Text} → ok (codes "") ≡ ok i → i ≢ codes "" → P
hold-none h n = absurd (n (sym (ok_inj h)))

module _ (t : TokenApi) where
  delete-stored : (id : Text) (s : TokenState) → (delete_k0s_join_token t id s).1.stored ≡ s.stored
  unfolding delete_k0s_join_token delete_read delete_k0s_join_token_secret_best_effort
  delete-stored id s = elim (Option-cases (s.issued id)) [
    | inl e ↦ ground (arith, e)
    | inr (ws, e) ↦ ground (arith, e)
  ]

  delete-other :
      (id j : Text) (s : TokenState) → (id == j) ≡ false → Same j s (delete_k0s_join_token t id s).1
  delete-other id j s other = elim (delete_k0s_join_token-Gone t id s j) [
    | inl same ↦ same
    | inr (at, gone) ↦ absurd (ground (arith, ==_iff id j, at, other))
  ]

  superseded-kept :
      (id : Text) (olds : List Text) (s : TokenState)
      → Same id s (delete_superseded t id olds s)
        × ((delete_superseded t id olds s).stored ≡ s.stored)
  unfolding delete_superseded
  superseded-kept id [] s = (refl, refl)
  superseded-kept id (old ∷ olds) s = elim (Bool-cases (old == id)) [
    | inl hit ↦ rw (delete_superseded, hit) (superseded-kept id olds s)
    | inr other ↦
        let s' = (delete_k0s_join_token t old s).1 in
        let (same, stored) = superseded-kept id olds s' in
        rw (delete_superseded, other)
          (same ∙ delete-other old id s other, stored ∙ delete-stored old s)
  ]

  -- The token is fresh, for this server and CA, and the identity was read once more behind it.
  abbrev pub Minted : Text → Text → TokenState → Text → TokenState → Type 0
  Minted server ca s id s' =
      Fresh t server ca s id s'
      × ((verify_workload_identity t.api minted via_endpoint s.world).0 ≡ ok tt)

  Fresh-kept :
      (server ca id : Text) (s s' s'' : TokenState)
      → Fresh t server ca s id s'
      → Same id s' s''
      → s''.stored ≡ s'.stored
      → Fresh t server ca s id s''
  Fresh-kept server ca id s s' s'' f same stored = record {
    token = f.token;
    generated = f.generated;
    named = f.named;
    unused = f.unused;
    present = same ∙ f.present;
    encoded = f.encoded;
    encodes = f.encodes;
    kept = stored ∙ f.kept;
  }

  confirm-Minted :
      (server ca id : Text) (olds : List Text) (r : Result (Unit {0})) (s s' : TokenState)
      (i : Text)
      → r ≡ (verify_workload_identity t.api minted via_endpoint s.world).0
      → Fresh t server ca s id s'
      → (confirm t id olds r s').0 ≡ ok i
      → i ≢ codes ""
      → Minted server ca s i (confirm t id olds r s').1
  unfolding confirm
  confirm-Minted server ca id olds (ok x) s s' i v f h n =
      let (same, stored) = superseded-kept id olds s' in
      subst (λ j. Minted server ca s j (delete_superseded t id olds s')) (ok_inj h)
        (Fresh-kept server ca id s s' _ f same stored, sym v)
  confirm-Minted server ca id olds (err identity_changed) s s' i v f h n = absurd (err_ne_ok h)
  confirm-Minted server ca id olds (err identity_not_pinned) s s' i v f h n = hold-none h n
  confirm-Minted server ca id olds (err name_taken) s s' i v f h n = hold-none h n
  confirm-Minted server ca id olds (err conflict) s s' i v f h n = hold-none h n
  confirm-Minted server ca id olds (err failed) s s' i v f h n = hold-none h n

  after_mint-Minted :
      (server ca : Text) (olds : List Text) (r : Result Text) (s s' : TokenState) (i : Text)
      → s'.world ≡ s.world
      → ((id : Text) → r ≡ ok id → Fresh t server ca s id s')
      → (after_mint t olds r s').0 ≡ ok i
      → i ≢ codes ""
      → Minted server ca s i (after_mint t olds r s').1
  unfolding after_mint
  after_mint-Minted server ca olds (err e) s s' i same f h n = hold-none h n
  after_mint-Minted server ca olds (ok id) s s' i same f h n =
      let (r, w) = verify_workload_identity t.api minted via_endpoint s'.world in
      let fresh = Fresh-kept server ca id s s' (set_world w s') (f id refl) refl refl in
      confirm-Minted server ca id olds r s (set_world w s') i
        (ap (λ v. (verify_workload_identity t.api minted via_endpoint v).0) same) fresh h n

  pub issue_new-Minted :
      (server ca : Text) (olds : List Text) (s : TokenState) (i : Text)
      → (issue_new t server ca olds s).0 ≡ ok i
      → i ≢ codes ""
      → Minted server ca s i (issue_new t server ca olds s).1
  unfolding issue_new
  issue_new-Minted server ca olds s i h n =
      let (r, s') = mint_k0s_controller_join_token t server ca s in
      after_mint-Minted server ca olds r s s' i (mint-world t server ca s)
        (λ id e. mint-Fresh t server ca s id e) h n

  -- A Secret that a joiner can use: it lets controllers join and nothing else, has the secret of the stored token,
  -- is good for the time that a join takes, and the stored token names a live server and the CA of the cluster.
  pub record Good (d : Decoded) (ca : Text) (live : List Text) (ws : TokenSecret) : Type 0 where
    pub join_only : is_controller_join_only ws ≡ true
    pub same_secret : value_of token_secret_key ws ≡ d.token.secret
    pub expires : ℕ
    pub expiry_is : expiry t.api ws ≡ some expires
    pub late : t.api.now + k0s_join_token_renew_within ≤ expires
    pub server : Text
    pub server_is : normalize_k0s_join_server t.api t.ip_text t.parse_url d.server ≡ some server
    pub served : member_of server live ≡ true
    pub same_ca : d.ca_data ≡ ca

  late-by :
      (o : Option ℕ)
      → late_enough t o ≡ true
      → (at : ℕ) × (o ≡ some at) × (t.api.now + k0s_join_token_renew_within ≤ at)
  late-by none h = absurd (ground (arith, h))
  late-by (some at) h = (at, refl, ground (arith, h))

  live-by :
      (live : List Text) (o : Option Text)
      → is_live t live o ≡ true
      → (server : Text) × (o ≡ some server) × (member_of server live ≡ true)
  live-by live none h = absurd (ground (arith, h))
  live-by live (some server) h = (server, refl, h)

  pub still_good-Good :
      (d : Decoded) (ca : Text) (live : List Text) (ws : TokenSecret)
      → still_good t d ca live ws ≡ true
      → Good d ca live ws
  unfolding still_good
  still_good-Good d ca live ws h =
      let (at, expiry_is, late) = late-by (expiry t.api ws) (ground (arith, h)) in
      let (server, server_is, served) =
        live-by live (normalize_k0s_join_server t.api t.ip_text t.parse_url d.server)
          (ground (arith, h)) in
      record {
        join_only = ground (arith, h);
        same_secret = (==_iff (value_of token_secret_key ws) d.token.secret).0 (ground (arith, h));
        expires = at;
        expiry_is = expiry_is;
        late = late;
        server = server;
        server_is = server_is;
        served = served;
        same_ca = (==_iff d.ca_data ca).0 (ground (arith, h));
      }

  -- The stored token is this one, was given to no Machine, checks out against this CA, these servers and its
  -- Secret, and stays.
  pub record Reused (members : List JoinMember) (ca : Text) (live : List Text) (s : TokenState)
      (id : Text) (s' : TokenState) : Type 0 where
    pub stored : StoredSecret
    pub was_stored : s.stored ≡ some stored
    pub annotated : stored.annotated_id ≡ id
    pub decoded : Decoded
    pub decodes : decoded_of t stored ≡ some decoded
    pub same_id : decoded.token.id ≡ id
    pub unbound : bound_to id (codes "") members ≡ codes ""
    pub secret : TokenSecret
    pub present : s.issued id ≡ some secret
    pub good : Good decoded ca live secret
    pub unchanged : s' ≡ s

  -- reused, or minted for the first of these servers
  abbrev pub Issued : List JoinMember → Text → List Text → TokenState → Text → TokenState → Type 0
  Issued members ca live s id s' =
      Reused members ca live s id s'
      ⊎ ((server : Text) × (rest : List Text) × (live ≡ server ∷ rest) × Minted server ca s id s')
