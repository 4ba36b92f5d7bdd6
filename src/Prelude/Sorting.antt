-- ===== src/Prelude/Sorting.antt =====
-- The stable sort of sort.SliceStable, and lists of texts used as sets.
use mathlib.Core.Path.{◌≡◌, refl}
use mathlib.Core.Bool.{Bool, true, false, ◌||◌}
use mathlib.Core.Logic.{inl, inr}
use mathlib.Core.List.{List, [], ◌∷◌, ◌++◌, Perm}
use mathlib.Core.List.Perm
use Prim.Native.Nat.{ℕ, suc}
use native.Mathlib.Omega.{arith}
use cluster_api_provider_kai.Prelude.Tests.{if◌then◌else◌, Bool-cases, ltb, eqb}
use cluster_api_provider_kai.Prelude.Texts.{Text, ◌==◌}

module _ {ℓ} {A : Type ℓ} (less : A → A → Bool) where
  unfoldable pub insert_by : A → List A → List A
  insert_by x [] = x ∷ []
  insert_by x (y ∷ ys) = if less y x then y ∷ insert_by x ys else x ∷ y ∷ ys

  unfoldable pub sort_by : List A → List A
  sort_by [] = []
  sort_by (x ∷ xs) = insert_by x (sort_by xs)

  insert_by-perm : (x : A) (xs : List A) → Perm (insert_by x xs) (x ∷ xs)
  unfolding insert_by
  insert_by-perm x [] = Perm.refl (x ∷ [])
  insert_by-perm x (y ∷ ys) = elim (Bool-cases (less y x)) [
    | inl e ↦ rw e (Perm.trans (Perm.cons y (insert_by-perm x ys)) (Perm.swap x y ys))
    | inr e ↦ rw e (Perm.refl (x ∷ y ∷ ys))
  ]

  pub sort_by-perm : (xs : List A) → Perm (sort_by xs) xs
  unfolding sort_by
  sort_by-perm [] = Perm.refl []
  sort_by-perm (x ∷ xs) = Perm.trans (insert_by-perm x (sort_by xs)) (Perm.cons x (sort_by-perm xs))

  -- Nothing stands before something less than it.
  abbrev pub Least : A → List A → Type 0
  Least x [] = Unit
  Least x (y ∷ ys) = (less y x ≡ false) × Least x ys

  abbrev pub InOrder : List A → Type 0
  InOrder [] = Unit
  InOrder (x ∷ xs) = Least x xs × InOrder xs

module _ {ℓ} {A : Type ℓ} (less : A → A → Bool)
    (asym : (x y : A) → less x y ≡ true → less y x ≡ false)
    (trans : (x y z : A) → less y x ≡ false → less z y ≡ false → less z x ≡ false) where
  Least-insert_by :
      (x y : A) (ys : List A)
      → less x y ≡ false
      → Least less y ys
      → Least less y (insert_by less x ys)
  unfolding insert_by
  Least-insert_by x y [] h l = (h, tt)
  Least-insert_by x y (z ∷ zs) h l = ground (arith, Least-insert_by x y zs h)

  Least-trans : (x y : A) (ys : List A) → less y x ≡ false → Least less y ys → Least less x ys
  Least-trans x y [] h l = tt
  Least-trans x y (z ∷ zs) h l = (trans x y z h l.0, Least-trans x y zs h l.1)

  insert_by-InOrder : (x : A) (xs : List A) → InOrder less xs → InOrder less (insert_by less x xs)
  unfolding insert_by
  insert_by-InOrder x [] h = (tt, tt)
  insert_by-InOrder x (y ∷ ys) h = elim (Bool-cases (less y x)) [
    | inl e ↦ rw e (Least-insert_by x y ys (asym y x e) h.0, insert_by-InOrder x ys h.1)
    | inr e ↦ rw e ((e, Least-trans x y ys e h.0), h)
  ]

  pub sort_by-InOrder : (xs : List A) → InOrder less (sort_by less xs)
  unfolding sort_by
  sort_by-InOrder [] = tt
  sort_by-InOrder (x ∷ xs) = insert_by-InOrder x (sort_by less xs) (sort_by-InOrder xs)

-- Go compares strings, and bytes.Compare byte slices, lexicographically.
unfoldable pub text_less : Text → Text → Bool
text_less [] [] = false
text_less [] (y ∷ ys) = true
text_less (x ∷ xs) [] = false
text_less (x ∷ xs) (y ∷ ys) = if eqb x y then text_less xs ys else ltb x y

unfoldable pub member_of : Text → List Text → Bool
member_of k [] = false
member_of k (x ∷ xs) = x == k || member_of k xs

pub member_of-append :
    (k : Text) (xs ys : List Text) → member_of k (xs ++ ys) ≡ (member_of k xs || member_of k ys)
unfolding member_of
member_of-append k [] ys = refl
member_of-append k (x ∷ xs) ys = ground (arith, member_of-append k xs ys)

unfoldable pub occurrences : Text → List Text → ℕ
occurrences k [] = 0
occurrences k (x ∷ xs) = let n = occurrences k xs in if x == k then suc n else n

module _ {ℓ} {A : Type ℓ} where
  unfoldable pub keep : (A → Bool) → List A → List A
  keep p [] = []
  keep p (x ∷ xs) = let rest = keep p xs in if p x then x ∷ rest else rest
