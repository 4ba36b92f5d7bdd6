-- ===== src/Prelude/Maps.antt =====
-- Go maps with string keys: an association list without duplicates where the code ranges over the
-- map, a function where it only looks keys up (annotations, ConfigMap data).
use Prim.Native.Nat.{ℕ, suc, ◌+◌}
use Prim.Native.String.{String}
use mathlib.Core.Path.{◌≡◌, refl}
use mathlib.Core.Logic.{inl, inr}
use mathlib.Core.Bool.{Bool}
use mathlib.Core.Option.{Option, none, some}
use mathlib.Core.List.{List, [], ◌∷◌}
use native.Mathlib.Omega.{arith}
use text.Mathlib.Text.{◌==◌ as str_eq}
use cluster_api_provider_kai.Prelude.Tests.{if◌then◌else◌, Bool-cases}
use cluster_api_provider_kai.Prelude.Texts.{Text, ◌==◌, ==_iff}

-- Keys are literals of the source, so a read after a write computes.
abbrev pub Annotations : Type 0
Annotations = String → Option Text

abbrev pub put : String → Text → Annotations → Annotations
put k v m = λ j. if str_eq k j then some v else m j

abbrev pub remove : String → Annotations → Annotations
remove k m = λ j. if str_eq k j then none else m j

module _ {ℓ} {V : Type ℓ} where
  unfoldable pub lookup : Text → List (Text × V) → Option V
  lookup k [] = none
  lookup k ((j, v) ∷ m) = if j == k then some v else lookup k m

  unfoldable pub without : Text → List (Text × V) → List (Text × V)
  without k [] = []
  without k ((j, v) ∷ m) = let rest = without k m in if j == k then rest else (j, v) ∷ rest

  -- No key stands twice.
  abbrev pub DistinctKeys : List (Text × V) → Type ℓ
  DistinctKeys [] = Unit
  DistinctKeys ((j, v) ∷ m) = (lookup j m ≡ none) × DistinctKeys m

  pub without_absent : (k : Text) (m : List (Text × V)) → lookup k m ≡ none → without k m ≡ m
  unfolding lookup without
  without_absent k [] h = refl
  without_absent k ((j, v) ∷ m) h = ground (arith, without_absent k m)

  unfoldable pub count_values : (V → Bool) → List (Text × V) → ℕ
  count_values p [] = 0
  count_values p ((j, v) ∷ m) = let n = count_values p m in if p v then suc n else n

  abbrev pub tally : (V → Bool) → Option V → ℕ
  tally p none = 0
  tally p (some v) = if p v then 1 else 0

  -- Taking one key out lowers the count by what its value counted for.
  pub count_values-without :
      (p : V → Bool) (k : Text) (m : List (Text × V))
      → DistinctKeys m
      → count_values p m ≡ count_values p (without k m) + tally p (lookup k m)
  unfolding lookup without count_values
  count_values-without p k [] d = omega arith
  count_values-without p k ((j, v) ∷ m) d = elim (Bool-cases (j == k)) [
    | inl hit ↦
        let same : without k m ≡ m = without_absent k m (ground (arith, ==_iff j k, hit, d.0)) in
        rw (hit, same) (ground arith)
    | inr miss ↦ rw miss (ground (arith, count_values-without p k m d.1))
  ]
