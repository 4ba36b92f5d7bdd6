-- ===== src/Tokens/Deletes.antt =====
-- What the deletes of ha_k0s_jointoken.go do to the bootstrap-token Secrets of the workload cluster.
use cluster_api_provider_kai.Prelude.{
  Bool, true, false, not, Option, none, some, List, [], ◌∷◌, Text, ◌≡◌, refl, sym, ap, ◌∙◌, arith,
  ◌⊎◌, inl, inr, Bool-cases, Option-cases, ◌==◌, ==_iff, ==_refl, if_elim, member_of,
}
use cluster_api_provider_kai.Token.{TokenSecret, valid_id, is_controller_join_only}
use cluster_api_provider_kai.Tokens.{
  StoredSecret, TokenState, TokenApi, TokenCall, JoinMember, set_issued,
  delete_k0s_join_token_secret_best_effort, delete_read, delete_k0s_join_token, delete_done,
  read_done, read_to_clear,
}
use cluster_api_provider_kai.Tokens.Ids.{tokens}
use cluster_api_provider_kai.Tokens.Lifetime.{
  mark_removed, clear_then_mark, remove_k0s_join_token, remove_finished,
}

-- The Secret of a token ID is what it was.
abbrev pub Same : Text → TokenState → TokenState → Type 0
Same id s s' = s'.issued id ≡ s.issued id

-- It was a controller-join-only bootstrap token, and is gone.
abbrev pub Deleted : Text → TokenState → TokenState → Type 0
Deleted id s s' =
    (s'.issued id ≡ none)
    × ((ws : TokenSecret) × (s.issued id ≡ some ws) × (is_controller_join_only ws ≡ true))

pub set_issued-here :
    (id : Text) (v : Option TokenSecret) (s : TokenState) → (set_issued id v s).issued id ≡ v
set_issued-here id v s = rw (==_refl id) refl

pub set_issued-other :
    (id j : Text) (v : Option TokenSecret) (s : TokenState)
    → (j == id) ≡ false
    → Same j s (set_issued id v s)
set_issued-other id j v s h = rw h refl

-- Only the Secret of `id` is deleted, if any.
abbrev pub Gone : Text → Text → TokenState → TokenState → Type 0
Gone id j s s' = Same j s s' ⊎ ((j ≡ id) × Deleted j s s')

module _ (t : TokenApi) where
  best_effort-Gone :
      (call : TokenCall) (id : Text) (ws : TokenSecret) (s : TokenState) (j : Text)
      → s.issued id ≡ some ws
      → is_controller_join_only ws ≡ true
      → Gone id j s (delete_k0s_join_token_secret_best_effort t call id s).1
  unfolding delete_k0s_join_token_secret_best_effort
  best_effort-Gone call id ws s j e only = elim (Option-cases (t.fails call)) [
    | inr (x, h) ↦ rw (delete_k0s_join_token_secret_best_effort, h) (inl refl)
    | inl h ↦ elim (Bool-cases (j == id)) [
      | inr other ↦
          rw (delete_k0s_join_token_secret_best_effort, h)
            (inl (set_issued-other id j none s other))
      | inl hit ↦
          let at = (==_iff j id).0 hit in
          rw (delete_k0s_join_token_secret_best_effort, h)
            (inr (at, (rw hit refl, (ws, ap s.issued at ∙ e, only))))
    ]
  ]

  delete_read-Gone :
      (id : Text) (o : Option TokenSecret) (s : TokenState) (j : Text)
      → s.issued id ≡ o
      → Gone id j s (delete_read t id o s).1
  unfolding delete_read
  delete_read-Gone id none s j e = inl refl
  delete_read-Gone id (some ws) s j e = elim (Bool-cases (is_controller_join_only ws)) [
    | inl only ↦ rw only (best_effort-Gone (delete_done id) id ws s j e only)
    | inr other ↦ rw other (inl refl)
  ]

  pub delete_k0s_join_token-Gone :
      (id : Text) (s : TokenState) (j : Text) → Gone id j s (delete_k0s_join_token t id s).1
  unfolding delete_k0s_join_token
  delete_k0s_join_token-Gone id s j =
      if_elim (λ (r : Bool × TokenState). Gone id j s r.1) (not (valid_id id)) _ _ (λ e. inl refl)
        (λ e. elim (Option-cases (t.fails (read_done id))) [
          | inr (x, h) ↦ rw h (inl refl)
          | inl h ↦ rw h (delete_read-Gone id (s.issued id) s j refl)
        ])

  mark_removed-issued : (m : JoinMember) (s : TokenState) → (mark_removed t m s).issued ≡ s.issued
  unfolding mark_removed
  mark_removed-issued m s = ground arith

  clear_then_mark-issued :
      (m : JoinMember) (o : Option StoredSecret) (s : TokenState)
      → (clear_then_mark t m o s).issued ≡ s.issued
  unfolding clear_then_mark mark_removed
  clear_then_mark-issued m none s = mark_removed-issued m s
  clear_then_mark-issued m (some stored) s = ground arith

  remove-issued :
      (m : JoinMember) (s : TokenState)
      → (remove_k0s_join_token t m s).issued ≡ (delete_k0s_join_token t m.token_id s).1.issued
  unfolding remove_k0s_join_token
  remove-issued m s =
      let (gone, s') = delete_k0s_join_token t m.token_id s in
      if_elim (λ (r : TokenState). r.issued ≡ s'.issued) (not gone) _ _ (λ e. refl)
        (λ e. elim (Option-cases (t.fails (read_to_clear m.token_id))) [
          | inr (x, h) ↦ rw h refl
          | inl h ↦ rw h (clear_then_mark-issued m s'.stored s')
        ])

  -- The token of one of these, not in use, is deleted, or the Secret is what it was.
  abbrev pub Removed : List Text → List JoinMember → Text → TokenState → TokenState → Type 0
  Removed in_use members j s s' =
      Same j s s'
      ⊎ ((member_of j in_use ≡ false) × (member_of j (tokens members) ≡ true) × Deleted j s s')

  Removed-trans :
      (in_use : List Text) (members : List JoinMember) (j : Text) (a b c : TokenState)
      → Removed in_use members j a b
      → Removed in_use members j b c
      → Removed in_use members j a c
  Removed-trans in_use members j a b c (inl h) (inl k) = inl (k ∙ h)
  Removed-trans in_use members j a b c (inl h) (inr (free, its, (gone, (ws, was, only)))) =
      inr (free, its, (gone, (ws, sym h ∙ was, only)))
  Removed-trans in_use members j a b c (inr (free, its, (gone, rest))) (inl k) =
      inr (free, its, (k ∙ gone, rest))
  Removed-trans in_use members j a b c (inr (free, its, (gone, rest))) (inr (f, i, (g, more))) =
      inr (free, its, (g, rest))

  Removed-later :
      (in_use : List Text) (m : JoinMember) (ms : List JoinMember) (j : Text) (s s' : TokenState)
      → Removed in_use ms j s s'
      → Removed in_use (m ∷ ms) j s s'
  Removed-later in_use m ms j s s' (inl h) = inl h
  Removed-later in_use m ms j s s' (inr (free, its, gone)) =
      inr (free, unfold member_of in ground (arith, its), gone)

  remove-Removed :
      (in_use : List Text) (m : JoinMember) (ms : List JoinMember) (s : TokenState) (j : Text)
      → member_of m.token_id in_use ≡ false
      → Removed in_use (m ∷ ms) j s (remove_k0s_join_token t m s)
  remove-Removed in_use m ms s j free = elim (delete_k0s_join_token-Gone m.token_id s j) [
    | inl same ↦ inl (ap (λ f. f j) (remove-issued m s) ∙ same)
    | inr (at, (gone, rest)) ↦ inr (
      ap (λ x. member_of x in_use) at ∙ free,
      unfold member_of in ground (arith, ==_iff m.token_id j, at),
      (ap (λ f. f j) (remove-issued m s) ∙ gone, rest),
    )
  ]

  pub remove_finished-Removed :
      (in_use : List Text) (members : List JoinMember) (s : TokenState) (j : Text)
      → Removed in_use members j s (remove_finished t in_use members s)
  unfolding remove_finished
  remove_finished-Removed in_use [] s j = inl refl
  remove_finished-Removed in_use (m ∷ ms) s j = elim (Bool-cases (member_of m.token_id in_use)) [
    | inl used ↦
        rw (remove_finished, used)
          (Removed-later in_use m ms j s (remove_finished t in_use ms s)
            (remove_finished-Removed in_use ms s j))
    | inr free ↦
        let s' = remove_k0s_join_token t m s in
        rw (remove_finished, free)
          (Removed-trans in_use (m ∷ ms) j s s' (remove_finished t in_use ms s')
            (remove-Removed in_use m ms s j free)
            (Removed-later in_use m ms j s' (remove_finished t in_use ms s')
              (remove_finished-Removed in_use ms s' j)))
  ]
