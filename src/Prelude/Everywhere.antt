-- ===== src/Prelude/Everywhere.antt =====
-- What holds of every element of a list that is filtered, sorted, mapped or appended to.
use mathlib.Core.Path.{◌≡◌, refl}
use mathlib.Core.Bool.{Bool, true}
use mathlib.Core.List.{Memᴰ, List, [], ◌∷◌, ◌++◌, map}
use cluster_api_provider_kai.Prelude.Tests.{if_elim}
use cluster_api_provider_kai.Prelude.Lists.{All}
use cluster_api_provider_kai.Prelude.Sorting.{keep, insert_by, sort_by}

module _ {ℓ κ} {A : Type ℓ} (P : A → Type κ) where
  pub keep-All : (p : A → Bool) (xs : List A) → All P xs → All P (keep p xs)
  unfolding keep
  keep-All p [] h = tt
  keep-All p (x ∷ xs) h =
      if_elim (All P) (p x) _ _ (λ e. (h.0, keep-All p xs h.1)) (λ e. keep-All p xs h.1)

  insert_by-All :
      (less : A → A → Bool) (x : A) (xs : List A) → P x → All P xs → All P (insert_by less x xs)
  unfolding insert_by
  insert_by-All less x [] px h = (px, tt)
  insert_by-All less x (y ∷ xs) px h =
      if_elim (All P) (less y x) _ _ (λ e. (h.0, insert_by-All less x xs px h.1)) (λ e. (px, h))

  pub sort_by-All : (less : A → A → Bool) (xs : List A) → All P xs → All P (sort_by less xs)
  unfolding sort_by
  sort_by-All less [] h = tt
  sort_by-All less (x ∷ xs) h = insert_by-All less x (sort_by less xs) h.0 (sort_by-All less xs h.1)

  pub append-All : (xs ys : List A) → All P xs → All P ys → All P (xs ++ ys)
  append-All [] ys h k = k
  append-All (x ∷ xs) ys h k = (h.0, append-All xs ys h.1 k)

-- Every element that a filter keeps passes it.
pub keep-All_pass {ℓ} :
    {A : Type ℓ} (p : A → Bool) (xs : List A) → All (λ x. p x ≡ true) (keep p xs)
unfolding keep
keep-All_pass p [] = tt
keep-All_pass p (x ∷ xs) =
    if_elim (All (λ x. p x ≡ true)) (p x) _ _ (λ e. (e, keep-All_pass p xs))
      (λ e. keep-All_pass p xs)

pub map-All {ℓ κ μ} :
    {A : Type ℓ} {B : Type κ} (P : B → Type μ) (f : A → B) (xs : List A)
    → All (λ x. P (f x)) xs
    → All P (map f xs)
map-All P f [] h = tt
map-All P f (x ∷ xs) h = (h.0, map-All P f xs h.1)

pub zip-All {ℓ κ μ} :
    {A : Type ℓ} (P : A → Type κ) (Q : A → Type μ) (xs : List A)
    → All P xs
    → All Q xs
    → All (λ x. P x × Q x) xs
zip-All P Q [] h k = tt
zip-All P Q (x ∷ xs) h k = ((h.0, k.0), zip-All P Q xs h.1 k.1)

-- the elements of a longer list
All-later {ℓ} :
    {A : Type ℓ} (x : A) (items xs : List A)
    → All (λ y. Memᴰ y items) xs
    → All (λ y. Memᴰ y (x ∷ items)) xs
All-later x items [] h = tt
All-later x items (y ∷ xs) h = (Memᴰ.tail h.0, All-later x items xs h.1)

pub All-Memᴰ {ℓ} : {A : Type ℓ} (items : List A) → All (λ y. Memᴰ y items) items
All-Memᴰ [] = tt
All-Memᴰ (x ∷ items) = (Memᴰ.head refl, All-later x items items (All-Memᴰ items))
