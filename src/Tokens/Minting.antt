-- ===== src/Tokens/Minting.antt =====
-- What mintK0sControllerJoinToken of ha_k0s_jointoken.go leaves, and the second read of the identity behind it.
use cluster_api_provider_kai.Prelude.{
  ◌+◌, none, some, Text, ◌≡◌, refl, sym, ap, ◌∙◌, arith, inl, inr, Option-cases, Result,
  Result-cases, ok, err, Error,
}
use cluster_api_provider_kai.Token.{BootstrapToken, generate, encode, new_secret}
use cluster_api_provider_kai.Tokens.{
  TokenState, TokenApi, set_issued, k0s_join_token_ttl, create_token, store_token,
  delete_k0s_join_token_secret_best_effort,
}
use cluster_api_provider_kai.Tokens.Issue.{store, mint_token, mint_k0s_controller_join_token}
use cluster_api_provider_kai.Tokens.Deletes.{set_issued-here}

pub ok_inj : {A : Type 0} {x y : A} → ok x ≡ ok y → x ≡ y
ok_inj {A = A} {x = x} e = ap (from x) e
  where
    from : A → Result A → A
    from d (ok a) = a
    from d (err f) = d

pub err_ne_ok : {A : Type 0} {f : Error} {y : A} → ¬ (err f ≡ ok y)
err_ne_ok e = ground (arith, e)

-- A token that no Secret had is issued for an hour from now, encoded, and stored with its ID.
pub record Fresh (t : TokenApi) (server ca : Text) (s : TokenState) (id : Text) (s' : TokenState)
    : Type 0 where
  pub token : BootstrapToken
  pub generated : generate t.draw ≡ ok token
  pub named : token.id ≡ id
  pub unused : s.issued id ≡ none
  pub present : s'.issued id ≡ some (new_secret t.api token (t.api.now + k0s_join_token_ttl))
  pub encoded : Text
  pub encodes : encode t.codec server ca token ≡ ok encoded
  pub kept : s'.stored ≡ some (record { token = encoded; annotated_id = id })

module _ (t : TokenApi) where
  store-ok :
      (id : Text) (r : Result Text) (s : TokenState) (i : Text)
      → (store t id r s).0 ≡ ok i
      → (encoded : Text) × (r ≡ ok encoded)
        × (i ≡ id)
        × ((store t id r s).1
            ≡ record s { stored = some (record { token = encoded; annotated_id = id }) })
  unfolding store
  store-ok id (err e) s i h = absurd (err_ne_ok h)
  store-ok id (ok encoded) s i h = elim (Option-cases (t.fails store_token)) [
    | inr (x, f) ↦ absurd (err_ne_ok (rw (store, f) at h))
    | inl f ↦ (encoded, refl, ok_inj (sym (rw (store, f) at h)), rw (store, f) refl)
  ]

  store-world : (id : Text) (r : Result Text) (s : TokenState) → (store t id r s).1.world ≡ s.world
  unfolding store delete_k0s_join_token_secret_best_effort
  store-world id (err e) s = ground arith
  store-world id (ok encoded) s = ground arith

  mint_token-world :
      (server ca : Text) (token : BootstrapToken) (s : TokenState)
      → (mint_token t server ca token s).1.world ≡ s.world
  unfolding mint_token
  mint_token-world server ca token s = ground (
    arith,
    store-world token.id (encode t.codec server ca token)
        (set_issued token.id (some (new_secret t.api token (t.api.now + k0s_join_token_ttl))) s),
  )

  pub mint-world :
      (server ca : Text) (s : TokenState)
      → (mint_k0s_controller_join_token t server ca s).1.world ≡ s.world
  unfolding mint_k0s_controller_join_token
  mint-world server ca s = elim (Result-cases (generate t.draw)) [
    | inl (token, e) ↦ rw (mint_k0s_controller_join_token, e) (mint_token-world server ca token s)
    | inr (x, e) ↦ rw (mint_k0s_controller_join_token, e) refl
  ]

  mint_token-Fresh :
      (server ca : Text) (token : BootstrapToken) (s : TokenState) (i : Text)
      → generate t.draw ≡ ok token
      → (mint_token t server ca token s).0 ≡ ok i
      → Fresh t server ca s i (mint_token t server ca token s).1
  unfolding mint_token
  mint_token-Fresh server ca token s i g h = elim (Option-cases (t.fails (create_token token.id))) [
    | inr (x, f) ↦ absurd (err_ne_ok (rw (mint_token, f) at h))
    | inl f ↦ elim (Option-cases (s.issued token.id)) [
      | inr (ws, used) ↦ absurd (err_ne_ok (rw (mint_token, f, used) at h))
      | inl unused ↦
          let s1 =
            set_issued token.id (some (new_secret t.api token (t.api.now + k0s_join_token_ttl)))
              s in
          let (encoded, encodes, at, left) =
            store-ok token.id (encode t.codec server ca token) s1 i
              (rw (mint_token, f, unused) at h) in
          rw (mint_token, f, unused)
            (record {
              token = token;
              generated = g;
              named = sym at;
              unused = ap s.issued at ∙ unused;
              present = ap (λ r. r.issued i) left ∙ ap s1.issued at ∙ set_issued-here token.id _ s;
              encoded = encoded;
              encodes = encodes;
              kept =
                  ap (λ r. r.stored) left
                  ∙ ap (λ j. some (record { token = encoded; annotated_id = j })) (sym at);
            })
    ]
  ]

  pub mint-Fresh :
      (server ca : Text) (s : TokenState) (i : Text)
      → (mint_k0s_controller_join_token t server ca s).0 ≡ ok i
      → Fresh t server ca s i (mint_k0s_controller_join_token t server ca s).1
  unfolding mint_k0s_controller_join_token
  mint-Fresh server ca s i h = elim (Result-cases (generate t.draw)) [
    | inl (token, e) ↦
        rw (mint_k0s_controller_join_token, e)
          (mint_token-Fresh server ca token s i e (rw (mint_k0s_controller_join_token, e) at h))
    | inr (x, e) ↦ absurd (err_ne_ok (rw (mint_k0s_controller_join_token, e) at h))
  ]
