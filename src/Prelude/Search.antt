-- ===== src/Prelude/Search.antt =====
-- Substring search as strings.LastIndex makes it, and concatenation of texts.
use Prim.Native.Nat.{ℕ}
use mathlib.Core.Path.{◌≡◌, refl}
use mathlib.Core.Bool.{Bool, false, ◌||◌}
use mathlib.Core.Option.{Option, none, some}
use mathlib.Core.List.{[], ◌∷◌, ◌++◌}
use native.Mathlib.Omega.{arith}
use cluster_api_provider_kai.Prelude.Tests.{eqb, if◌then◌else◌}
use cluster_api_provider_kai.Prelude.Texts.{Text}

unfoldable pub strip_prefix : Text → Text → Option Text
strip_prefix [] s = some s
strip_prefix (c ∷ p) [] = none
strip_prefix (c ∷ p) (x ∷ s) = if eqb c x then strip_prefix p s else none

abbrev first_some : Option Text → Option Text → Option Text
first_some (some r) o = some r
first_some none o = o

-- What follows the last occurrence of `sep`: s[strings.LastIndex(s, sep)+len(sep):].
unfoldable pub after_last : Text → Text → Option Text
after_last sep [] = strip_prefix sep []
after_last sep (x ∷ s) = first_some (after_last sep s) (strip_prefix sep (x ∷ s))

unfoldable pub has_char : ℕ → Text → Bool
has_char c [] = false
has_char c (x ∷ s) = eqb c x || has_char c s

pub strip_prefix-append : (p s : Text) → strip_prefix p (p ++ s) ≡ some s
unfolding strip_prefix
strip_prefix-append [] s = refl
strip_prefix-append (c ∷ p) s = ground (arith, strip_prefix-append p s)

pub has_char-append :
    (c : ℕ) (s t : Text) → has_char c s ≡ false → has_char c t ≡ false → has_char c (s ++ t) ≡ false
unfolding has_char
has_char-append c [] t h k = k
has_char-append c (x ∷ s) t h k = ground (arith, has_char-append c s t)

after_last_absent : (c : ℕ) (p s : Text) → has_char c s ≡ false → after_last (c ∷ p) s ≡ none
unfolding after_last strip_prefix has_char
after_last_absent c p [] h = refl
after_last_absent c p (x ∷ s) h = ground (arith, after_last_absent c p s)

after_last_found :
    (sep pre s r : Text) → after_last sep s ≡ some r → after_last sep (pre ++ s) ≡ some r
unfolding after_last
after_last_found sep [] s r h = h
after_last_found sep (x ∷ pre) s r h = rw (after_last_found sep pre s r h)

-- A separator whose first character stands nowhere behind it is found where it was written.
pub after_last-append :
    (c : ℕ) (p pre s : Text)
    → has_char c p ≡ false
    → has_char c s ≡ false
    → after_last (c ∷ p) (pre ++ ((c ∷ p) ++ s)) ≡ some s
after_last-append c p pre s hp hs = after_last_found (c ∷ p) pre ((c ∷ p) ++ s) s (
    unfold after_last in
    rw (after_last_absent c p (p ++ s) (has_char-append c p s hp hs))
      (strip_prefix-append (c ∷ p) s))
