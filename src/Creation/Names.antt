-- ===== src/Creation/Names.antt =====
-- The names that newControlPlaneMachineName gives are node hostnames.
use cluster_api_provider_kai.Prelude.{
  ℕ, zero, suc, ◌≤◌, Bool, ◌&&◌, ◌||◌, true, false, [], ◌∷◌, ◌++◌, Text, ◌≡◌, refl, ◌∙◌, arith,
  length, take, leb, ltb, eqb, if◌then◌else◌, if_elim, length-append, length-take,
}
use cluster_api_provider_kai.Creation.{
  name_prefix_max, dots_to_dashes, trimmed_before, trim_dashes, name_prefix,
  new_control_plane_machine_name,
}

-- [a-z0-9]
unfoldable pub is_alphanumeric : ℕ → Bool
is_alphanumeric ch = leb b'a' ch && leb ch b'z' || leb b'0' ch && leb ch b'9'

abbrev pub is_label_char : ℕ → Bool
is_label_char ch = is_alphanumeric ch || eqb ch b'-'

-- a character of a DNS-1123 subdomain
abbrev pub is_subdomain_char : ℕ → Bool
is_subdomain_char ch = is_label_char ch || eqb ch b'.'

unfoldable pub all_chars : (ℕ → Bool) → Text → Bool
all_chars p [] = true
all_chars p (x ∷ xs) = p x && all_chars p xs

unfoldable pub first_is : (ℕ → Bool) → Text → Bool
first_is p [] = false
first_is p (x ∷ xs) = p x

unfoldable pub last_is : (ℕ → Bool) → Text → Bool
last_is p [] = false
last_is p (x ∷ []) = p x
last_is p (x ∷ y ∷ xs) = last_is p (y ∷ xs)

-- A DNS-1123 label: 63 characters at most of [a-z0-9-], the first and the last alphanumeric.
pub record IsLabel (s : Text) : Type 0 where
  pub short : length s ≤ 63
  pub chars : all_chars is_label_char s ≡ true
  pub first : first_is is_alphanumeric s ≡ true
  pub last : last_is is_alphanumeric s ≡ true

all_chars-append :
    (p : ℕ → Bool) (s t : Text)
    → all_chars p s ≡ true
    → all_chars p t ≡ true
    → all_chars p (s ++ t) ≡ true
unfolding all_chars
all_chars-append p [] t h k = k
all_chars-append p (x ∷ s) t h k = ground (arith, all_chars-append p s t)

all_chars-take :
    (p : ℕ → Bool) (n : ℕ) (s : Text) → all_chars p s ≡ true → all_chars p (take n s) ≡ true
unfolding all_chars
all_chars-take p zero s h = refl
all_chars-take p (suc n) [] h = refl
all_chars-take p (suc n) (x ∷ s) h = ground (arith, all_chars-take p n s)

trimmed-chars :
    (p : ℕ → Bool) (x : ℕ) (s : Text)
    → p x ≡ true
    → all_chars p s ≡ true
    → all_chars p (trimmed_before x s) ≡ true
unfolding all_chars
trimmed-chars p x [] h k = ground arith
trimmed-chars p x (y ∷ s) h k = ground arith

all_chars-trim_dashes :
    (p : ℕ → Bool) (s : Text) → all_chars p s ≡ true → all_chars p (trim_dashes s) ≡ true
unfolding all_chars trim_dashes
all_chars-trim_dashes p [] h = refl
all_chars-trim_dashes p (x ∷ s) h =
    trimmed-chars p x (trim_dashes s) (ground arith) (all_chars-trim_dashes p s (ground arith))

all_chars-dots_to_dashes :
    (s : Text)
    → all_chars is_subdomain_char s ≡ true
    → all_chars is_label_char (dots_to_dashes s) ≡ true
unfolding all_chars dots_to_dashes is_alphanumeric
all_chars-dots_to_dashes [] h = refl
all_chars-dots_to_dashes (x ∷ s) h = ground (arith, all_chars-dots_to_dashes s)

trimmed-length : (x : ℕ) (s : Text) → length (trimmed_before x s) ≤ suc (length s)
trimmed-length x [] = ground arith
trimmed-length x (y ∷ s) = omega arith

length-trim_dashes : (s : Text) → length (trim_dashes s) ≤ length s
unfolding trim_dashes
length-trim_dashes [] = omega arith
length-trim_dashes (x ∷ s) = omega (arith, trimmed-length x (trim_dashes s), length-trim_dashes s)

trimmed-first :
    (x : ℕ) (s : Text)
    → is_alphanumeric x ≡ true
    → first_is is_alphanumeric (trimmed_before x s) ≡ true
unfolding first_is is_alphanumeric
trimmed-first x [] h = ground arith
trimmed-first x (y ∷ s) h = h

first-append : (p : ℕ → Bool) (s t : Text) → first_is p s ≡ true → first_is p (s ++ t) ≡ true
unfolding first_is
first-append p [] t h = absurd (ground (arith, h))
first-append p (x ∷ s) t h = h

last-append :
    (p : ℕ → Bool) (s : Text) (x y : ℕ) (t : Text)
    → last_is p (s ++ (x ∷ y ∷ t)) ≡ last_is p (y ∷ t)
unfolding last_is
last-append p [] x y t = refl
last-append p (z ∷ []) x y t = refl
last-append p (z ∷ u ∷ s) x y t = last-append p (u ∷ s) x y t

prefix-first :
    (s : Text)
    → first_is is_alphanumeric s ≡ true
    → first_is is_alphanumeric (name_prefix (dots_to_dashes s)) ≡ true
unfolding name_prefix dots_to_dashes first_is trim_dashes is_alphanumeric
prefix-first [] h = absurd (ground (arith, h))
prefix-first (x ∷ s) h =
    let c = if eqb x b'.' then b'-' else x in
    let alnum : is_alphanumeric c ≡ true = ground arith in
    if_elim (λ (t : Text). first_is is_alphanumeric t ≡ true)
      (ltb name_prefix_max (length (dots_to_dashes (x ∷ s)))) _ _
      (λ e. trimmed-first c (trim_dashes (take 56 (dots_to_dashes s))) alnum) (λ e. alnum)

prefix-chars :
    (s : Text) → all_chars is_label_char s ≡ true → all_chars is_label_char (name_prefix s) ≡ true
unfolding name_prefix
prefix-chars s h =
    if_elim (λ (t : Text). all_chars is_label_char t ≡ true) (ltb name_prefix_max (length s)) _ _
      (λ e.
        all_chars-trim_dashes is_label_char (take name_prefix_max s)
          (all_chars-take is_label_char name_prefix_max s h))
      (λ e. h)

prefix-length : (s : Text) → length (name_prefix s) ≤ name_prefix_max
unfolding name_prefix
prefix-length s =
    if_elim (λ (t : Text). length t ≤ name_prefix_max) (ltb name_prefix_max (length s)) _ _
      (λ e.
        omega (arith, length-trim_dashes (take name_prefix_max s), length-take name_prefix_max s))
      (λ e. ground (arith, e))

label_of_alphanumeric :
    (s : Text) → all_chars is_alphanumeric s ≡ true → all_chars is_label_char s ≡ true
unfolding all_chars
label_of_alphanumeric [] h = refl
label_of_alphanumeric (x ∷ s) h = ground (arith, label_of_alphanumeric s)

last_of_all :
    (p : ℕ → Bool) (x : ℕ) (s : Text) → all_chars p (x ∷ s) ≡ true → last_is p (x ∷ s) ≡ true
unfolding all_chars last_is
last_of_all p x [] h = ground arith
last_of_all p x (y ∷ s) h = last_of_all p y s (ground arith)

-- Of a control plane whose name has the characters of a DNS-1123 subdomain and starts with an alphanumeric one, and
-- five alphanumeric characters, the name of a new Machine is a DNS-1123 label, whatever the length.
pub new_control_plane_machine_name-IsLabel :
    (kcp_name : Text) (x : ℕ) (suffix : Text)
    → all_chars is_subdomain_char kcp_name ≡ true
    → first_is is_alphanumeric kcp_name ≡ true
    → length (x ∷ suffix) ≡ 5
    → all_chars is_alphanumeric (x ∷ suffix) ≡ true
    → IsLabel (new_control_plane_machine_name kcp_name (x ∷ suffix))
unfolding new_control_plane_machine_name
new_control_plane_machine_name-IsLabel kcp_name x suffix chars first five alnum =
    let prefix = name_prefix (dots_to_dashes kcp_name) in
    let tail_chars : all_chars is_label_char (b'-' ∷ x ∷ suffix) ≡ true =
      unfold all_chars is_alphanumeric in label_of_alphanumeric (x ∷ suffix) alnum in
    record {
      short = omega (
        arith,
        prefix-length (dots_to_dashes kcp_name),
        length-append prefix (b'-' ∷ x ∷ suffix),
        five,
      );
      chars =
          all_chars-append is_label_char prefix (b'-' ∷ x ∷ suffix)
            (prefix-chars (dots_to_dashes kcp_name) (all_chars-dots_to_dashes kcp_name chars))
            tail_chars;
      first = first-append is_alphanumeric prefix (b'-' ∷ x ∷ suffix) (prefix-first kcp_name first);
      last =
          last-append is_alphanumeric prefix b'-' x suffix
          ∙ last_of_all is_alphanumeric x suffix alnum;
    }
