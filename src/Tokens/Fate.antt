-- ===== src/Tokens/Fate.antt =====
-- What one pass of the lifetime rule of ha_k0s_jointoken.go does to each token of the workload cluster.
use cluster_api_provider_kai.Prelude.{
  some_inj, ℕ, ◌+◌, ◌<◌, Bool, ◌&&◌, true, false, not, fun_ext, Option, none, some, List, [], ◌∷◌,
  Text, codes, leb, ◌≡◌, refl, sym, ap, subst, ◌∙◌, arith, ◌⊎◌, inl, inr, Bool-cases, Option-cases,
  Result, ok, err, ◌==◌, ==_iff, if◌then◌else◌, if_elim, member_of,
}
use cluster_api_provider_kai.Model.{Machine}
use cluster_api_provider_kai.Session.{lifetime}
use cluster_api_provider_kai.Identity.{frozen, via_endpoint, verify_workload_identity}
use cluster_api_provider_kai.Token.{
  TokenSecret, valid_id, is_controller_join_only, expiry, set_expiry,
}
use cluster_api_provider_kai.Servers.{JoinServers, live_k0s_join_servers}
use cluster_api_provider_kai.Tokens.{
  TokenState, TokenApi, Warning, JoinMember, pending, legacy_token, members_of, set_issued, warn,
  set_world, token_missing, extension_capped, read_pending, patch_pending, reach_workload,
  k0s_join_token_ttl, k0s_join_token_renew_within, k0s_join_token_extend_cap, server_unavailable,
}
use cluster_api_provider_kai.Tokens.Ids.{tokens, pending_ids-member}
use cluster_api_provider_kai.Tokens.Lifetime.{
  joiners_of, extendable, finished, pending_ids, newest, warn_all, warn_legacy, remove_finished,
  extend_read, extend_k0s_join_token, server_gone, extend_all, read_server, maintain,
  maintain_verified, keep_tokens, any_of, renew_due, reconcile_k0s_join_token_lifetime,
}
use cluster_api_provider_kai.Tokens.Deletes.{
  Same, Deleted, Removed, set_issued-other, remove_finished-Removed,
}

-- The Secret of a token of these joiners, due for renewal and within the cap, has a new expiry and is else what it was.
pub record Extended (t : TokenApi) (joiners : List Machine) (id : Text) (s s' : TokenState)
    : Type 0 where
  pub secret : TokenSecret
  pub was : s.issued id ≡ some secret
  pub only : is_controller_join_only secret ≡ true
  pub expires : ℕ
  pub expired_at : expiry t.api secret ≡ some expires
  pub due : expires < t.api.now + k0s_join_token_renew_within
  pub within_cap : t.api.now < newest joiners + k0s_join_token_extend_cap
  pub extended : s'.issued id ≡ some (set_expiry t.api (t.api.now + k0s_join_token_ttl) secret)

warn_all-issued :
    (w : Text → Warning) (ms : List Machine) (s : TokenState) → (warn_all w ms s).issued ≡ s.issued
unfolding warn_all
warn_all-issued w [] s = refl
warn_all-issued w (m ∷ ms) s = warn_all-issued w ms (warn (w m.name) s)

warn_legacy-issued : (ms : List JoinMember) (s : TokenState) → (warn_legacy ms s).issued ≡ s.issued
unfolding warn_legacy
warn_legacy-issued [] s = refl
warn_legacy-issued (m ∷ ms) s =
    if_elim (λ (r : TokenState). (warn_legacy ms r).issued ≡ s.issued)
      (pending m && m.token_id == codes "") _ _
      (λ h. warn_legacy-issued ms (warn (legacy_token m.machine.name) s))
      (λ h. warn_legacy-issued ms s)

module _ (t : TokenApi) where
  -- Only the Secret of `id` is extended, if any.
  abbrev Touched : List Machine → Text → Text → TokenState → TokenState → Type 0
  Touched joiners id j s s' = Same j s s' ⊎ ((j ≡ id) × Extended t joiners j s s')

  renew_due-lt :
      (o : Option ℕ)
      → renew_due t o ≡ true
      → (at : ℕ) × (o ≡ some at) × (at < t.api.now + k0s_join_token_renew_within)
  renew_due-lt none h = absurd (ground arith)
  renew_due-lt (some at) h = (at, refl, ground arith)

  patched-Touched :
      (id : Text) (joiners : List Machine) (ws : TokenSecret) (s : TokenState) (j : Text)
      → s.issued id ≡ some ws
      → is_controller_join_only ws ≡ true
      → t.api.now < newest joiners + k0s_join_token_extend_cap
      → renew_due t (expiry t.api ws) ≡ true
      → Touched joiners id j s
          (set_issued id (some (set_expiry t.api (t.api.now + k0s_join_token_ttl) ws)) s)
  patched-Touched id joiners ws s j was only within due = elim (Bool-cases (j == id)) [
    | inr other ↦ inl (set_issued-other id j _ s other)
    | inl hit ↦
        let at = (==_iff j id).0 hit in
        let (expires, expired_at, before) = renew_due-lt (expiry t.api ws) due in
        inr (
          at,
          record {
            secret = ws;
            was = ap s.issued at ∙ was;
            only = only;
            expires = expires;
            expired_at = expired_at;
            due = before;
            within_cap = within;
            extended = rw hit refl;
          },
        )
  ]

  extend_read-Touched :
      (id : Text) (joiners : List Machine) (o : Option TokenSecret) (s : TokenState) (j : Text)
      → s.issued id ≡ o
      → Touched joiners id j s (extend_read t id joiners o s)
  unfolding extend_read
  extend_read-Touched id joiners none s j e =
      inl (ap (λ f. f j) (warn_all-issued token_missing joiners s))
  extend_read-Touched id joiners (some ws) s j e =
      if_elim (Touched joiners id j s) (not (is_controller_join_only ws)) _ _ (λ h. inl refl)
        (λ only.
          if_elim (Touched joiners id j s)
            (leb (newest joiners + k0s_join_token_extend_cap) t.api.now) _ _
            (λ h. inl (ap (λ f. f j) (warn_all-issued extension_capped joiners s)))
            (λ within.
              if_elim (Touched joiners id j s) (not (renew_due t (expiry t.api ws))) _ _
                (λ h. inl refl)
                (λ due. elim (Option-cases (t.fails (patch_pending id))) [
                  | inr (x, h) ↦ rw h (inl refl)
                  | inl h ↦ rw h (
                      patched-Touched id joiners ws s j e (ground arith) (ground arith)
                        (ground arith))
                ])))

  extend-Touched :
      (id : Text) (joiners : List Machine) (s : TokenState) (j : Text)
      → Touched joiners id j s (extend_k0s_join_token t id joiners s)
  unfolding extend_k0s_join_token
  extend-Touched id joiners s j =
      if_elim (Touched joiners id j s) (not (valid_id id)) _ _ (λ h. inl refl)
        (λ valid. elim (Option-cases (t.fails (read_pending id))) [
          | inr (x, h) ↦ rw h (inl refl)
          | inl h ↦ rw h (extend_read-Touched id joiners (s.issued id) s j refl)
        ])

  if_same :
      {A : Type 0} (b : Bool) (x y : A)
      → (if b then x else if b then x else y) ≡ (if b then x else y)
  if_same true x y = refl
  if_same false x y = refl

  set_expiry-set_expiry :
      (at : ℕ) (ws : TokenSecret)
      → set_expiry t.api at (set_expiry t.api at ws) ≡ set_expiry t.api at ws
  unfolding set_expiry
  set_expiry-set_expiry at ws =
      ap (λ vs. record ws { values = vs })
        (fun_ext (λ k. if_same _ (some (t.api.format_time at)) (ws.values k)))

  -- The token is one of these, and extended, or its Secret is what it was.
  abbrev Extension : List JoinMember → List Text → Text → TokenState → TokenState → Type 0
  Extension members ids j s s' =
      Same j s s' ⊎ ((member_of j ids ≡ true) × Extended t (joiners_of j members) j s s')

  Extended-Same :
      (joiners : List Machine) (j : Text) (a b c : TokenState)
      → Extended t joiners j a b
      → Same j b c
      → Extended t joiners j a c
  Extended-Same joiners j a b c e same = record {
    secret = e.secret;
    was = e.was;
    only = e.only;
    expires = e.expires;
    expired_at = e.expired_at;
    due = e.due;
    within_cap = e.within_cap;
    extended = same ∙ e.extended;
  }

  Same-Extended :
      (joiners : List Machine) (j : Text) (a b c : TokenState)
      → Same j a b
      → Extended t joiners j b c
      → Extended t joiners j a c
  Same-Extended joiners j a b c same e = record {
    secret = e.secret;
    was = sym same ∙ e.was;
    only = e.only;
    expires = e.expires;
    expired_at = e.expired_at;
    due = e.due;
    within_cap = e.within_cap;
    extended = e.extended;
  }

  -- The second extension writes the expiry of the first.
  Extended-Extended :
      (joiners : List Machine) (j : Text) (a b c : TokenState)
      → Extended t joiners j a b
      → Extended t joiners j b c
      → Extended t joiners j a c
  Extended-Extended joiners j a b c e f =
      let at = t.api.now + k0s_join_token_ttl in
      let again = some_inj (sym f.was ∙ e.extended) in
      record {
        secret = e.secret;
        was = e.was;
        only = e.only;
        expires = e.expires;
        expired_at = e.expired_at;
        due = e.due;
        within_cap = e.within_cap;
        extended =
            f.extended
            ∙ ap (λ ws. some (set_expiry t.api at ws)) again
            ∙ ap some (set_expiry-set_expiry at e.secret);
      }

  Extension-trans :
      (members : List JoinMember) (ids : List Text) (j : Text) (a b c : TokenState)
      → Extension members ids j a b
      → Extension members ids j b c
      → Extension members ids j a c
  Extension-trans members ids j a b c (inl h) (inl k) = inl (k ∙ h)
  Extension-trans members ids j a b c (inl h) (inr (at, e)) =
      inr (at, Same-Extended (joiners_of j members) j a b c h e)
  Extension-trans members ids j a b c (inr (at, e)) (inl k) =
      inr (at, Extended-Same (joiners_of j members) j a b c e k)
  Extension-trans members ids j a b c (inr (at, e)) (inr (at', f)) =
      inr (at, Extended-Extended (joiners_of j members) j a b c e f)

  -- A token that is one of the later ones is one of all.
  Extension-later :
      (members : List JoinMember) (id : Text) (ids : List Text) (j : Text) (s s' : TokenState)
      → Extension members ids j s s'
      → Extension members (id ∷ ids) j s s'
  Extension-later members id ids j s s' (inl h) = inl h
  Extension-later members id ids j s s' (inr (at, e)) =
      inr (unfold member_of in ground (arith, at), e)

  Touched-Extension :
      (members : List JoinMember) (id : Text) (ids : List Text) (j : Text) (s s' : TokenState)
      → Touched (joiners_of id members) id j s s'
      → Extension members (id ∷ ids) j s s'
  Touched-Extension members id ids j s s' (inl h) = inl h
  Touched-Extension members id ids j s s' (inr (at, e)) = inr (
    unfold member_of in ground (arith, ==_iff id j, at),
    subst (λ i. Extended t (joiners_of i members) j s s') (sym at) e,
  )

  extend_all-Extension :
      (server : Option (Text × Text)) (live : Result JoinServers) (members : List JoinMember)
      (ids : List Text) (s : TokenState) (j : Text)
      → Extension members ids j s (extend_all t server live members ids s)
  unfolding extend_all
  extend_all-Extension server live members [] s j = inl refl
  extend_all-Extension server live members (id ∷ ids) s j =
      let joiners = joiners_of id members in
      let s' = extend_k0s_join_token t id joiners s in
      let s'' =
        if server_gone t id server live then warn_all server_unavailable joiners s' else s' in
      let quiet : Same j s' s'' =
        if_elim (λ (r : TokenState). Same j s' r) (server_gone t id server live) _ _
          (λ h. ap (λ f. f j) (warn_all-issued server_unavailable joiners s')) (λ h. refl) in
      Extension-trans members (id ∷ ids) j s s'' _
        (Extension-trans members (id ∷ ids) j s s' s''
          (Touched-Extension members id ids j s s' (extend-Touched id joiners s j)) (inl quiet))
        (Extension-later members id ids j s'' _
          (extend_all-Extension server live members ids s'' j))

-- The Secret of this token is what it was; or it is a controller-join-only bootstrap token of a joiner that is done,
-- of no pending one, and is gone; or it is the due token of a pending joiner, within the cap, and is extended.
abbrev pub Fate : TokenApi → List JoinMember → Text → TokenState → TokenState → Type 0
Fate t members j s s' =
    Same j s s'
    ⊎ (((member_of j (tokens (extendable members)) ≡ false)
          × (member_of j (tokens (finished members)) ≡ true)
          × Deleted j s s')
        ⊎ ((member_of j (tokens (extendable members)) ≡ true)
            × Extended t (joiners_of j (extendable members)) j s s'))

Fate-parts :
    (t : TokenApi) (members : List JoinMember) (j : Text) (a b c : TokenState)
    → Removed t (pending_ids members) (finished members) j a b
    → Extension t (extendable members) (pending_ids members) j b c
    → Fate t members j a c
Fate-parts t members j a b c (inl h) (inl k) = inl (k ∙ h)
Fate-parts t members j a b c (inl h) (inr (at, e)) = inr (
    inr (
      sym (pending_ids-member members j) ∙ at,
      Same-Extended t (joiners_of j (extendable members)) j a b c h e,
    ))
Fate-parts t members j a b c (inr (free, its, (gone, rest))) (inl k) =
    inr (inl (sym (pending_ids-member members j) ∙ free, its, (k ∙ gone, rest)))
Fate-parts t members j a b c (inr (free, its, (gone, rest))) (inr (at, e)) =
    absurd (ground (arith, free, at))

module _ (t : TokenApi) (machines : List Machine) (members : List JoinMember) (j : Text) where
  maintain-Fate : (s : TokenState) → Fate t members j s (maintain t machines members s)
  unfolding maintain
  maintain-Fate s =
      let ids = pending_ids members in
      let s' = remove_finished t ids (finished members) s in
      Fate-parts t members j s s' _ (remove_finished-Removed t ids (finished members) s j) (
        extend_all-Extension t (read_server t s')
          (live_k0s_join_servers t.api t.ip_text t.parse_url machines (t.endpoint_slice lifetime))
          (extendable members) ids s' j)

  verified-Fate :
      (r : Result (Unit {0})) (s : TokenState)
      → Fate t members j s (maintain_verified t machines members r s)
  unfolding maintain_verified
  verified-Fate (err e) s = inl refl
  verified-Fate (ok x) s = maintain-Fate s

  Fate-from :
      (s s' s'' : TokenState)
      → s'.issued ≡ s.issued
      → Fate t members j s' s''
      → Fate t members j s s''
  Fate-from s s' s'' same (inl h) = inl (h ∙ ap (λ f. f j) same)
  Fate-from s s' s'' same (inr (inl (free, its, (gone, (ws, was, only))))) =
      inr (inl (free, its, (gone, (ws, sym (ap (λ f. f j) same) ∙ was, only))))
  Fate-from s s' s'' same (inr (inr (at, e))) = inr (
      inr
        (at, Same-Extended t (joiners_of j (extendable members)) j s s' s'' (ap (λ f. f j) same) e))

  keep_tokens-Fate : (s : TokenState) → Fate t members j s (keep_tokens t machines (ok members) s).1
  unfolding keep_tokens
  keep_tokens-Fate s =
      let s' = warn_legacy members s in
      Fate-from s s' _ (warn_legacy-issued members s) (
        if_elim (λ (r : Bool × TokenState). Fate t members j s' r.1)
          (not (any_of t (extendable members)) && not (any_of t (finished members))) _ _
          (λ h. inl refl)
          (λ h. elim (Option-cases (t.fails (reach_workload lifetime))) [
            | inr (x, k) ↦ rw k (inl refl)
            | inl k ↦
                let (r, w) = verify_workload_identity t.api lifetime via_endpoint s'.world in
                rw k (Fate-from s' (set_world w s') _ refl (verified-Fate r (set_world w s')))
          ]))

-- A pass of the lifetime rule leaves the Secret of each token ID as it is, but for two changes: a controller-join-only
-- token of a joiner that is done, and of no pending one, may be deleted; and the one of pending joiners that expires
-- within half an hour, the newest of them created less than a day ago, may get an expiry of an hour from now.
pub reconcile_k0s_join_token_lifetime-Fate :
    (t : TokenApi) (machines : List Machine) (members : List JoinMember) (s : TokenState) (j : Text)
    → members_of t t.etcd_status machines ≡ ok members
    → Fate t members j s (reconcile_k0s_join_token_lifetime t machines s).1
unfolding reconcile_k0s_join_token_lifetime
reconcile_k0s_join_token_lifetime-Fate t machines members s j read =
    if_elim (λ (r : Bool × TokenState). Fate t members j s r.1) (frozen s.world.kcp) _ _
      (λ h. inl refl)
      (λ h.
        subst (λ r. Fate t members j s (keep_tokens t machines r s).1) (sym read)
          (keep_tokens-Fate t machines members j s))
