-- ===== src/Sanitize/Bundle.antt =====
-- The CA bundle of a kubeconfig: the loop over its PEM blocks ends, and what it gives is accepted as it is.
use cluster_api_provider_kai.Prelude.{
  ℕ, zero, suc, ◌+◌, ◌≤◌, ◌<◌, Bool, ◌||◌, true, false, none, some, List, [], ◌∷◌, ◌++◌, Text,
  codes, length, eqb, ◌==◌, ◌≡◌, ◌≢◌, refl, sym, ap, subst, ◌∙◌, arith, inl, inr, Bool-cases,
  Option-cases, ==_refl,
}
use cluster_api_provider_kai.Sanitize.{
  Libraries, CaScan, scanned, bad_block, out_of_fuel, scan_blocks, judge_scan, validate_ca_bundle,
  accepted, is_set,
}

-- What is documented of encoding/pem: a decoded block takes a character at least, an encoded certificate is decoded
-- as such with what follows it, and the empty text has no block and nothing to trim.
pub record PemLaws (lib : Libraries) : Type 0 where
  pub shrinks :
      (s kind bytes rest : Text)
      → lib.pem_decode s ≡ some ((kind, bytes), rest)
      → length rest < length s
  pub decodes :
      (bytes rest : Text)
      → lib.pem_decode (lib.pem_encode bytes ++ rest) ≡ some ((codes "CERTIFICATE", bytes), rest)
  pub at_end : lib.pem_decode [] ≡ none
  pub no_space : lib.trim_space [] ≡ []

-- the text of these certificates
unfoldable pub encode_all : Libraries → List Text → Text
encode_all lib [] = []
encode_all lib (b ∷ bs) = lib.pem_encode b ++ encode_all lib bs

-- how the flag and the certificates of a scan go together
abbrev pub Parsed : Libraries → List Text → Bool → Type 0
Parsed lib [] saw = saw ≡ false
Parsed lib (b ∷ bs) saw =
    (is_ca : Bool) × (later : Bool) × (lib.certificate b ≡ some is_ca)
    × Parsed lib bs later
    × (saw ≡ is_ca || later)

append_assoc : (xs ys zs : Text) → (xs ++ ys) ++ zs ≡ xs ++ (ys ++ zs)
append_assoc [] ys zs = refl
append_assoc (x ∷ xs) ys zs = ap (λ r. x ∷ r) (append_assoc xs ys zs)

append_nil : (xs : Text) → xs ++ [] ≡ xs
append_nil [] = refl
append_nil (x ∷ xs) = ap (λ r. x ∷ r) (append_nil xs)

or_assoc : (a b c : Bool) → ((a || b) || c) ≡ (a || (b || c))
or_assoc true b c = refl
or_assoc false b c = refl

module _ (lib : Libraries) (laws : PemLaws lib) where
  -- With more fuel than characters, the loop ends.
  scan_blocks-ends :
      (fuel : ℕ) (rest canonical : Text) (blocks : ℕ) (saw : Bool)
      → length rest < fuel
      → scan_blocks lib fuel rest canonical blocks saw ≢ out_of_fuel
  unfolding scan_blocks
  scan_blocks-ends zero rest canonical blocks saw h e = absurd (omega (arith, h))
  scan_blocks-ends (suc fuel) rest canonical blocks saw h e =
      elim (Option-cases (lib.pem_decode rest)) [
        | inl end ↦ absurd (ground (arith, rw (scan_blocks, end) at e))
        | inr (((kind, bytes), rest'), block) ↦ elim (Bool-cases (kind == codes "CERTIFICATE")) [
          | inr other ↦ absurd (ground (arith, rw (scan_blocks, block, other) at e))
          | inl cert ↦ elim (Option-cases (lib.certificate bytes)) [
            | inl none_ ↦ absurd (ground (arith, rw (scan_blocks, block, cert, none_) at e))
            | inr (is_ca, parsed) ↦
                scan_blocks-ends fuel rest' (canonical ++ lib.pem_encode bytes) (suc blocks)
                  (saw || is_ca) (omega (arith, laws.shrinks rest kind bytes rest' block, h))
                  (rw (scan_blocks, block, cert, parsed) at e)
          ]
        ]
      ]

  -- The loop of a bundle never runs out of fuel.
  pub validate_ca_bundle-ends :
      (bundle : Text) → scan_blocks lib (suc (length bundle)) bundle [] 0 false ≢ out_of_fuel
  validate_ca_bundle-ends bundle =
      scan_blocks-ends (suc (length bundle)) bundle [] 0 false (omega arith)

  -- What a scan has found, from these starting values on.
  record Found (canonical : Text) (n : ℕ) (saw : Bool) (canonical' : Text) (n' : ℕ) (saw' : Bool)
      : Type 0 where
    blocks : List Text
    later : Bool
    parsed : Parsed lib blocks later
    text_is : canonical' ≡ canonical ++ encode_all lib blocks
    count_is : n' ≡ n + length blocks
    saw_is : saw' ≡ (saw || later)

  -- the parts of a scan's result
  parts_same :
      {c c' r r' : Text} {n n' : ℕ} {b b' : Bool}
      → scanned c n b r ≡ scanned c' n' b' r'
      → (c ≡ c') × (n ≡ n') × (b ≡ b')
  parts_same {c = c} {n = n} {b = b} e = (ap text_of e, ap count_of e, ap saw_of e)
    where
      text_of : CaScan → Text
      text_of (scanned c n b r) = c
      text_of bad_block = []
      text_of out_of_fuel = []

      count_of : CaScan → ℕ
      count_of (scanned c n b r) = n
      count_of bad_block = 0
      count_of out_of_fuel = 0

      saw_of : CaScan → Bool
      saw_of (scanned c n b r) = b
      saw_of bad_block = false
      saw_of out_of_fuel = false

  or_false : (b : Bool) → b ≡ (b || false)
  or_false true = refl
  or_false false = refl

  scan_blocks-Found :
      (fuel : ℕ) (rest canonical : Text) (n : ℕ) (saw : Bool) (canonical' : Text) (n' : ℕ)
      (saw' : Bool) (rest' : Text)
      → scan_blocks lib fuel rest canonical n saw ≡ scanned canonical' n' saw' rest'
      → Found canonical n saw canonical' n' saw'
  unfolding scan_blocks encode_all
  scan_blocks-Found zero rest canonical n saw canonical' n' saw' rest' h =
      absurd (ground (arith, h))
  scan_blocks-Found (suc fuel) rest canonical n saw canonical' n' saw' rest' h =
      elim (Option-cases (lib.pem_decode rest)) [
        | inl end ↦
            let (c, k, b) = parts_same (rw (scan_blocks, end) at h) in
            record {
              blocks = [];
              later = false;
              parsed = refl;
              text_is = sym c ∙ sym (append_nil canonical);
              count_is = omega (arith, k);
              saw_is = sym b ∙ or_false saw;
            }
        | inr (((kind, bytes), more), block) ↦ elim (Bool-cases (kind == codes "CERTIFICATE")) [
          | inr other ↦ absurd (ground (arith, rw (scan_blocks, block, other) at h))
          | inl cert ↦ elim (Option-cases (lib.certificate bytes)) [
            | inl none_ ↦ absurd (ground (arith, rw (scan_blocks, block, cert, none_) at h))
            | inr (is_ca, parsed) ↦
                let f =
                  scan_blocks-Found fuel more (canonical ++ lib.pem_encode bytes) (suc n)
                    (saw || is_ca) canonical' n' saw' rest'
                    (rw (scan_blocks, block, cert, parsed) at h) in
                record {
                  blocks = bytes ∷ f.blocks;
                  later = is_ca || f.later;
                  parsed = (is_ca, f.later, parsed, f.parsed, refl);
                  text_is =
                      f.text_is
                      ∙ append_assoc canonical (lib.pem_encode bytes) (encode_all lib f.blocks);
                  count_is = omega (arith, f.count_is);
                  saw_is = f.saw_is ∙ or_assoc saw is_ca f.later;
                }
          ]
        ]
      ]

  result_is :
      {c c' : Text} {n n' : ℕ} {b b' : Bool}
      → c ≡ c'
      → n ≡ n'
      → b ≡ b'
      → scanned c n b [] ≡ scanned c' n' b' []
  result_is e f g = rw (e, f, g) refl

  -- The certificates that were found are found again in their own text.
  scan_blocks-encoded :
      (bs : List Text) (later : Bool) (fuel : ℕ) (canonical : Text) (n : ℕ) (saw : Bool)
      → Parsed lib bs later
      → length bs < fuel
      → scan_blocks lib fuel (encode_all lib bs) canonical n saw
        ≡ scanned (canonical ++ encode_all lib bs) (n + length bs) (saw || later) []
  unfolding scan_blocks encode_all
  scan_blocks-encoded bs later zero canonical n saw p h = absurd (omega (arith, h))
  scan_blocks-encoded [] later (suc fuel) canonical n saw p h =
      rw (scan_blocks, laws.at_end)
        (result_is (sym (append_nil canonical)) (omega arith)
          (or_false saw ∙ ap (λ b. saw || b) (sym p)))
  scan_blocks-encoded (b ∷ bs) later (suc fuel) canonical n saw (is_ca, more, parsed, p, at) h =
      let ih =
        scan_blocks-encoded bs more fuel (canonical ++ lib.pem_encode b) (suc n) (saw || is_ca) p
          (omega (arith, h)) in
      rw (scan_blocks, laws.decodes b (encode_all lib bs), ==_refl (codes "CERTIFICATE"), parsed)
        (ih
          ∙ result_is (append_assoc canonical (lib.pem_encode b) (encode_all lib bs)) (omega arith)
              (or_assoc saw is_ca more ∙ ap (λ x. saw || x) (sym at)))

  nothing_set : is_set [] ≡ false
  unfolding ◌==◌
  nothing_set = refl

  encoded-length : (bs : List Text) → length bs ≤ length (encode_all lib bs)
  unfolding encode_all
  encoded-length [] = omega arith
  encoded-length (b ∷ bs) = omega (
    arith,
    encoded-length bs,
    laws.shrinks (lib.pem_encode b ++ encode_all lib bs) (codes "CERTIFICATE") b (encode_all lib bs)
        (laws.decodes b (encode_all lib bs)),
  )

  judged :
      (scan : CaScan) (ca : Text)
      → judge_scan lib scan ≡ accepted ca
      → (n : ℕ) × (rest : Text) × (scan ≡ scanned ca n true rest) × (eqb n 0 ≡ false)
  unfolding judge_scan
  judged bad_block ca h = absurd (ground (arith, h))
  judged out_of_fuel ca h = absurd (ground (arith, h))
  judged (scanned canonical n saw rest) ca h = (n, rest, ground (arith, h), ground (arith, h))

  again :
      (bs : List Text) (ca : Text) (n : ℕ) (saw : Bool)
      → Parsed lib bs saw
      → ca ≡ encode_all lib bs
      → n ≡ length bs
      → saw ≡ true
      → eqb n 0 ≡ false
      → validate_ca_bundle lib ca ≡ accepted ca
  unfolding validate_ca_bundle judge_scan
  again bs ca n saw p text count seen some_ =
      let scan =
        scan_blocks-encoded bs saw (suc (length (encode_all lib bs))) [] 0 false p
          (omega (arith, encoded-length bs)) in
      subst (λ c. judge_scan lib (scan_blocks lib (suc (length c)) c [] 0 false) ≡ accepted c)
        (sym text)
        (ap (judge_scan lib) scan
          ∙ ground (arith, ap is_set laws.no_space ∙ nothing_set, count, seen, some_))

  -- The canonical text of a bundle that is accepted is accepted, and canonical.
  pub validate_ca_bundle-canonical :
      (bundle ca : Text)
      → validate_ca_bundle lib bundle ≡ accepted ca
      → validate_ca_bundle lib ca ≡ accepted ca
  unfolding validate_ca_bundle
  validate_ca_bundle-canonical bundle ca h =
      let (n, rest, scan, some_) =
        judged (scan_blocks lib (suc (length bundle)) bundle [] 0 false) ca h in
      let f = scan_blocks-Found (suc (length bundle)) bundle [] 0 false ca n true rest scan in
      again f.blocks ca n f.later f.parsed f.text_is (omega (arith, f.count_is)) (sym f.saw_is)
        some_
