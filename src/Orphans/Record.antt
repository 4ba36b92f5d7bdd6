-- ===== src/Orphans/Record.antt =====
-- The orphan-removal record of ha_etcd_orphans.go (orphanLeave.String and parseOrphanLeave):
-- "<EtcdMember name> <member ID> <RFC3339 time>".
use cluster_api_provider_kai.Prelude.{
  ℕ, ◌+◌, Bool, ◌&&◌, ◌||◌, true, not, Option, none, some, List, [], ◌∷◌, ◌++◌, Text, ltb, leb, eqb,
  ◌==◌, ==_refl, if◌then◌else◌, ◌≡◌, ◌≢◌, refl, arith,
}
use cluster_api_provider_kai.Session.{Api}
use cluster_api_provider_kai.Member.{canonical_member_id}
use cluster_api_provider_kai.Orphans.{orphan_leave_clock_skew}

pub record OrphanLeave : Type 0 where
  pub name : Text
  pub member_id : Text
  pub at : ℕ

-- unicode.IsSpace, up to U+00FF
unfoldable pub is_space : ℕ → Bool
is_space c = leb 9 c && leb c 13 || eqb c 32 || eqb c 0x85 || eqb c 0xa0

unfoldable pub no_space : Text → Bool
no_space [] = true
no_space (c ∷ s) = not (is_space c) && no_space s

abbrev pub push_word : Text → List Text → List Text
push_word [] ws = ws
push_word (c ∷ w) ws = (c ∷ w) ∷ ws

-- strings.Fields: the word that is being read, and those behind it
unfoldable pub split_words : Text → Text × List Text
split_words [] = ([], [])
split_words (c ∷ s) =
    let (w, ws) = split_words s in if is_space c then ([], push_word w ws) else (c ∷ w, ws)

unfoldable pub fields : Text → List Text
unfolding split_words
fields s = let (w, ws) = split_words s in push_word w ws

-- `valid_name` is validEtcdMemberName: a DNS-1123 subdomain.
module _ (api : Api) (valid_name : Text → Bool) where
  open api use {now, format_time, parse_time}

  unfoldable pub format_orphan_leave : OrphanLeave → Text
  format_orphan_leave o = o.name ++ (b' ' ∷ (o.member_id ++ (b' ' ∷ format_time o.at)))

  parse_at : Text → Text → Option ℕ → Option OrphanLeave
  parse_at name id none = none
  parse_at name id (some at) =
      if ltb (now + orphan_leave_clock_skew) at
      then none
      else some (record { name = name; member_id = id; at = at })

  parse_parts : List Text → Option OrphanLeave
  unfolding parse_at
  parse_parts (name ∷ raw_id ∷ at ∷ []) =
      if not (valid_name name) then none else elim (canonical_member_id raw_id) [
        | none ↦ none
        | some id ↦ if id == raw_id then parse_at name id (parse_time at) else none
      ]
  parse_parts _ = none

  unfoldable pub parse_orphan_leave : Text → Option OrphanLeave
  unfolding parse_parts
  parse_orphan_leave v = parse_parts (fields v)

split_words-word : (w s : Text) → no_space w ≡ true → split_words (w ++ (b' ' ∷ s)) ≡ (w, fields s)
unfolding split_words fields no_space is_space
split_words-word [] s h = ground arith
split_words-word (c ∷ w) s h = ground (arith, split_words-word w s)

split_words-last : (w : Text) → no_space w ≡ true → split_words w ≡ (w, [])
unfolding split_words no_space
split_words-last [] h = refl
split_words-last (c ∷ w) h = ground (arith, split_words-last w)

fields_of_three :
    (a b c : Text)
    → no_space a ≡ true
    → no_space b ≡ true
    → no_space c ≡ true
    → a ≢ []
    → b ≢ []
    → c ≢ []
    → fields (a ++ (b' ' ∷ (b ++ (b' ' ∷ c)))) ≡ a ∷ b ∷ c ∷ []
unfolding fields
fields_of_three a b c ha hb hc na nb nc =
    ground (arith, split_words-word a (b ++ (b' ' ∷ c)), split_words-word b c, split_words-last c)

-- What the record's parts satisfy when the KCP writes it, and what is documented of the texts of
-- instants and of object names.
pub record Recordable (api : Api) (valid_name : Text → Bool) (o : OrphanLeave) : Type 0 where
  pub valid : valid_name o.name ≡ true
  pub name_words : (no_space o.name ≡ true) × (o.name ≢ [])
  pub canonical : canonical_member_id o.member_id ≡ some o.member_id
  pub id_words : (no_space o.member_id ≡ true) × (o.member_id ≢ [])
  pub time_words : (no_space (api.format_time o.at) ≡ true) × (api.format_time o.at ≢ [])
  pub time_parses : api.parse_time (api.format_time o.at) ≡ some o.at

-- A record with a valid name, a canonical member ID and an instant that is at most the clock skew in
-- the future is read back from the annotation as it was written; one further in the future is refused.
pub parse-format_orphan_leave :
    (api : Api) (valid_name : Text → Bool) (o : OrphanLeave)
    → Recordable api valid_name o
    → parse_orphan_leave api valid_name (format_orphan_leave api valid_name o)
      ≡ (if ltb (api.now + orphan_leave_clock_skew) o.at then none else some o)
unfolding parse_orphan_leave format_orphan_leave
parse-format_orphan_leave api valid_name o r =
    rw
      (fields_of_three o.name o.member_id (api.format_time o.at) r.name_words.0 r.id_words.0
        r.time_words.0 r.name_words.1 r.id_words.1 r.time_words.1)
      (ground (arith, ==_refl o.member_id))
