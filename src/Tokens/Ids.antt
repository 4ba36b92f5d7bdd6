-- ===== src/Tokens/Ids.antt =====
-- Which token IDs the lifetime rule of ha_k0s_jointoken.go goes through: those of the pending joiners.
use cluster_api_provider_kai.Prelude.{
  Bool, ◌||◌, true, not, List, [], ◌∷◌, map, Text, ◌≡◌, refl, ap, ◌∙◌, arith, inl, inr, Bool-cases,
  ◌==◌, ==_iff, member_of, keep, insert_by, sort_by,
}
use cluster_api_provider_kai.Candidates.{dedupe}
use cluster_api_provider_kai.Tokens.{JoinMember}
use cluster_api_provider_kai.Tokens.Lifetime.{extendable, pending_ids}

abbrev pub tokens : List JoinMember → List Text
tokens members = map (λ m. m.token_id) members

insert_by-member :
    (less : Text → Text → Bool) (j x : Text) (xs : List Text)
    → member_of j (insert_by less x xs) ≡ ((x == j) || member_of j xs)
unfolding insert_by member_of
insert_by-member less j x [] = refl
insert_by-member less j x (y ∷ ys) = ground (arith, insert_by-member less j x ys)

sort_by-member :
    (less : Text → Text → Bool) (j : Text) (xs : List Text)
    → member_of j (sort_by less xs) ≡ member_of j xs
unfolding sort_by member_of
sort_by-member less j [] = refl
sort_by-member less j (x ∷ xs) =
    insert_by-member less j x (sort_by less xs) ∙ ap (λ b. (x == j) || b) (sort_by-member less j xs)

keep-member :
    (p : Text → Bool) (j : Text) (xs : List Text)
    → p j ≡ true
    → member_of j (keep p xs) ≡ member_of j xs
unfolding keep member_of
keep-member p j [] h = refl
keep-member p j (x ∷ xs) h = elim (Bool-cases (x == j)) [
  | inl hit ↦
      let e = (==_iff x j).0 hit in let px : p x ≡ true = ap p e ∙ h in ground (arith, px, hit)
  | inr miss ↦ ground (arith, miss, keep-member p j xs h)
]

dedupe-member : (j : Text) (xs : List Text) → member_of j (dedupe xs) ≡ member_of j xs
unfolding dedupe member_of
dedupe-member j [] = refl
dedupe-member j (x ∷ xs) = elim (Bool-cases (x == j)) [
  | inl hit ↦ ground (arith, hit)
  | inr miss ↦
      let other : (not (j == x)) ≡ true = ground (arith, ==_iff x j, ==_iff j x, miss) in
      ap (λ b. (x == j) || b)
        (keep-member (λ y. not (y == x)) j (dedupe xs) other ∙ dedupe-member j xs)
]

pub pending_ids-member :
    (members : List JoinMember) (j : Text)
    → member_of j (pending_ids members) ≡ member_of j (tokens (extendable members))
unfolding pending_ids
pending_ids-member members j =
    sort_by-member _ j (dedupe (tokens (extendable members)))
    ∙ dedupe-member j (tokens (extendable members))
