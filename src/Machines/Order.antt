-- ===== src/Machines/Order.antt =====
-- sortMachinesOldestFirst of machine_names.go: which Machine the join gate takes for the first one, and
-- which one a scale-down removes.
use mathlib.Core.Path.{subst}
use mathlib.Core.List.{Perm}
use cluster_api_provider_kai.Prelude.{
  true, false, some, List, [], ◌∷◌, Text, ◌≡◌, refl, arith, All, InOrder, Least, sort_by-InOrder,
  sort_by-perm, text_less, inl, inr, Bool-cases,
}
use cluster_api_provider_kai.Model.{Machine}
use cluster_api_provider_kai.Machines.{
  older, sort_machines_oldest_first, select_machine_for_deletion, last_of,
}

text_less-asym : (a b : Text) → text_less a b ≡ true → text_less b a ≡ false
unfolding text_less
text_less-asym [] [] h = refl
text_less-asym [] (y ∷ b) h = refl
text_less-asym (x ∷ a) [] h = ground arith
text_less-asym (x ∷ a) (y ∷ b) h = ground (arith, text_less-asym a b)

text_less_trans :
    (a b c : Text) → text_less b a ≡ false → text_less c b ≡ false → text_less c a ≡ false
unfolding text_less
text_less_trans [] [] [] h k = refl
text_less_trans (x ∷ a) [] [] h k = ground arith
text_less_trans [] [] (z ∷ c) h k = refl
text_less_trans (x ∷ a) [] (z ∷ c) h k = ground arith
text_less_trans [] (y ∷ b) [] h k = ground arith
text_less_trans (x ∷ a) (y ∷ b) [] h k = ground arith
text_less_trans [] (y ∷ b) (z ∷ c) h k = refl
text_less_trans (x ∷ a) (y ∷ b) (z ∷ c) h k = ground (arith, text_less_trans a b c)

older-asym : (x y : Machine) → older x y ≡ true → older y x ≡ false
unfolding older
older-asym x y h = ground (arith, text_less-asym x.name y.name)

older_trans : (x y z : Machine) → older y x ≡ false → older z y ≡ false → older z x ≡ false
unfolding older
older_trans x y z h k = ground (arith, text_less_trans x.name y.name z.name)

older_irrefl : (x : Machine) → older x x ≡ false
older_irrefl x = elim (Bool-cases (older x x)) [ inl e ↦ older-asym x x e | inr e ↦ e ]

-- the last Machine of an ordered list, seen from one before all of it
last-Least :
    (x m : Machine) (ms : List Machine) → Least older x (m ∷ ms) → older (last_of m ms) x ≡ false
last-Least x m [] h = h.0
last-Least x m (y ∷ ys) h = last-Least x y ys h.1

last-newest :
    (m : Machine) (ms : List Machine)
    → InOrder older (m ∷ ms)
    → All (λ x. older (last_of m ms) x ≡ false) (m ∷ ms)
last-newest m [] h = (older_irrefl m, tt)
last-newest m (y ∷ ys) h = (last-Least m y ys h.0, last-newest y ys h.1)

deleted-newest :
    (sorted : List Machine)
    → InOrder older sorted
    → (target : Machine) → select_machine_for_deletion sorted [] ≡ some target
    → All (λ m. older target m ≡ false) sorted
unfolding select_machine_for_deletion
deleted-newest [] h target e = tt
deleted-newest (m ∷ ms) h target e =
    subst (λ t. All (λ m. older t m ≡ false) (m ∷ ms)) (cc) (last-newest m ms h)

-- The Machines are the ones that were read, ordered by creation and then by name, oldest first; the one
-- that a scale-down takes when no Machine is outdated is older than no other.
pub sort_machines_oldest_first-InOrder :
    (machines : List Machine) (target : Machine)
    → select_machine_for_deletion (sort_machines_oldest_first machines) [] ≡ some target
    → let sorted = sort_machines_oldest_first machines in
      InOrder older sorted × Perm sorted machines × All (λ m. older target m ≡ false) sorted
unfolding sort_machines_oldest_first
sort_machines_oldest_first-InOrder machines target e =
    let order = sort_by-InOrder older older-asym older_trans machines in
    (
      order,
      sort_by-perm older machines,
      deleted-newest (sort_machines_oldest_first machines) order target e,
    )
