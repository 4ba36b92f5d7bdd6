-- ===== src/Examples/Sanitized.antt =====
-- A kubeconfig that names another server is rebuilt, with concrete functions for clientcmd, PEM and X.509.
use cluster_api_provider_kai.Prelude.{
  ℕ, zero, suc, ◌≤◌, ◌<◌, true, false, Option, none, some, List, [], ◌∷◌, ◌++◌, Text, codes, length,
  take, ◌==◌, ◌≡◌, ◌↔◌, refl, sym, ap, ◌∙◌, arith,
}
use cluster_api_provider_kai.Sanitize.{
  expired, SourceConfig, SourceUser, accepted, Libraries, Credentials, rebuilt, sanitize,
  is_fixed_point, sanitize_loaded, sanitize_config, validate_all, validate_cluster_entry,
  unsafe_cluster_fields, validate_ca_bundle, judge_scan, scan_blocks, validate_user_entry,
  unsafe_user_fields, credentials_of, validate_context_entry, the_only, write_out,
}
use cluster_api_provider_kai.Sanitize.Bundle.{PemLaws}
use cluster_api_provider_kai.Sanitize.Sound.{Rebuilt, sanitize-Rebuilt}
use cluster_api_provider_kai.Sanitize.Expiry.{
  check_client_certificate_expiry, check_loaded, check_users, check_user, check_block, check_window,
  Valid, sanitize-expiry,
}
use cluster_api_provider_kai.Sanitize.Fixed.{sanitize-is_fixed_point}

abbrev drop : ℕ → Text → Text
drop zero s = s
drop (suc n) [] = []
drop (suc n) (x ∷ s) = drop n s

-- a text behind its length
abbrev field : Text → Text → Text
field b rest = length b ∷ (b ++ rest)

take-length : (b rest : Text) → take (length b) (b ++ rest) ≡ b
take-length [] rest = take_zero rest
  where
    take_zero : (s : Text) → take 0 s ≡ []
    take_zero s = refl
take-length (x ∷ b) rest = ap (λ s. x ∷ s) (take-length b rest)

drop-length : (b rest : Text) → drop (length b) (b ++ rest) ≡ rest
drop-length [] rest = refl
drop-length (x ∷ b) rest = drop-length b rest

drop-shorter : (n : ℕ) (s : Text) → length (drop n s) ≤ length s
drop-shorter zero s = omega arith
drop-shorter (suc n) [] = omega arith
drop-shorter (suc n) (x ∷ s) = omega (arith, drop-shorter n s)

-- A block is a mark, a length and the bytes.
unfoldable decode_block : Text → Option ((Text × Text) × Text)
decode_block [] = none
decode_block (x ∷ []) = none
decode_block (x ∷ n ∷ s) = some ((codes "CERTIFICATE", take n s), drop n s)

abbrev config_of : Text → Text → Text → Credentials → SourceConfig
config_of name server ca creds = record {
  extended = false;
  preferences_extended = false;
  clusters =
      (
        name,
        some (record {
          server = server;
          ca_file = codes "";
          insecure = false;
          proxy_url = codes "";
          tls_server_name = codes "";
          extended = false;
          ca_data = ca;
        }),
      )
      ∷ [];
  users =
      (
        name ++ codes "-admin",
        some (record {
          token_file = codes "";
          cert_file = codes "";
          key_file = codes "";
          exec = false;
          auth_provider = false;
          username = codes "";
          password = codes "";
          impersonates = false;
          extended = false;
          cert_data = creds.cert_data;
          key_data = creds.key_data;
          token = creds.token;
        }),
      )
      ∷ [];
  contexts =
      (
        (name ++ codes "-admin") ++ codes "@" ++ name,
        some (record { cluster = name; user = name ++ codes "-admin"; extended = false }),
      )
      ∷ [];
  current_context = (name ++ codes "-admin") ++ codes "@" ++ name;
}

abbrev bundle : Text
bundle = 45 ∷ field (codes "z") []

abbrev certificate_text : Text
certificate_text = 45 ∷ field (codes "y") []

abbrev pair_creds : Credentials
pair_creds = record { cert_data = certificate_text; key_data = codes "k"; token = codes "" }

abbrev read_key : Text → Text → Text → Option SourceConfig
read_key ca cert [] = none
read_key ca cert (n ∷ s) = some (
    config_of (codes "c") (codes "s") ca
      (record { cert_data = cert; key_data = take n s; token = drop n s }))

abbrev read_cert : Text → Text → Option SourceConfig
read_cert ca [] = none
read_cert ca (n ∷ s) = read_key ca (take n s) (drop n s)

-- the kubeconfig of another server, or the one of the cluster "c" with these parts
unfoldable load_text : Text → Option SourceConfig
load_text [] = none
load_text (zero ∷ s) = some (config_of (codes "k") (codes "evil") bundle pair_creds)
load_text (suc m ∷ []) = none
load_text (suc m ∷ n ∷ s) = read_cert (take n s) (drop n s)

abbrev write_user : Text → List (Text × Option SourceUser) → Option Text
write_user ca ((name, some u) ∷ []) =
    some (1 ∷ field ca (field u.cert_data (field u.key_data u.token)))
write_user ca other = none

abbrev write_text : SourceConfig → Option Text
write_text cfg = elim cfg.clusters [
  | [] ↦ none
  | (name, none) ∷ rest ↦ none
  | (name, some c) ∷ rest ↦ write_user c.ca_data cfg.users
]

unfoldable libraries : Libraries
libraries = record {
  load = load_text;
  write = write_text;
  valid_url = λ u. true;
  pem_decode = decode_block;
  pem_encode = λ b. 45 ∷ field b [];
  certificate = λ b. some true;
  trim_space = λ s. s;
  key_pair = λ cert key. true;
}

abbrev out : Text
out = 1 ∷ field bundle (field certificate_text (field (codes "k") []))

sanitized : sanitize libraries (0 ∷ []) (codes "c") (codes "s") ≡ accepted out
unfolding libraries sanitize sanitize_loaded load_text sanitize_config validate_all
    validate_cluster_entry unsafe_cluster_fields validate_ca_bundle judge_scan scan_blocks
    decode_block validate_user_entry unsafe_user_fields credentials_of validate_context_entry
    the_only write_out rebuilt ◌==◌
sanitized = refl

sanitize-Rebuilt_example : Rebuilt libraries (0 ∷ []) (codes "c") (codes "s") out
sanitize-Rebuilt_example = sanitize-Rebuilt libraries (0 ∷ []) (codes "c") (codes "s") out sanitized

rest_of : Option ((Text × Text) × Text) → Text
rest_of none = []
rest_of (some (b, rest)) = rest

block_shorter :
    (s kind bytes rest : Text)
    → decode_block s ≡ some ((kind, bytes), rest)
    → length rest < length s
unfolding decode_block rest_of
block_shorter [] kind bytes rest e = absurd (ground (arith, e))
block_shorter (x ∷ []) kind bytes rest e = absurd (ground (arith, e))
block_shorter (x ∷ n ∷ s) kind bytes rest e =
    let same : length (drop n s) ≡ length rest = ap (λ o. length (rest_of o)) e in
    omega (arith, drop-shorter n s, same)

append_nil_then : (b rest : Text) → (b ++ []) ++ rest ≡ b ++ rest
append_nil_then [] rest = refl
append_nil_then (x ∷ b) rest = ap (λ s. x ∷ s) (append_nil_then b rest)

block_read :
    (b rest : Text)
    → decode_block ((45 ∷ field b []) ++ rest) ≡ some ((codes "CERTIFICATE", b), rest)
unfolding decode_block
block_read b rest =
    rw (decode_block, append_nil_then b rest, take-length b rest, drop-length b rest) refl

laws : PemLaws libraries
unfolding libraries decode_block
laws = record { shrinks = block_shorter; decodes = block_read; at_end = refl; no_space = refl }

taken_apart :
    {A : Type 0} (f : Text → Text → A) (b rest : Text)
    → f (take (length b) (b ++ rest)) (drop (length b) (b ++ rest)) ≡ f b rest
taken_apart f b rest = λ i. f (take-length b rest i) (drop-length b rest i)

load-written :
    (ca cert key token : Text)
    → load_text (1 ∷ field ca (field cert (field key token)))
      ≡ some (
          config_of
            (codes "c")
            (codes "s")
            ca
            (record { cert_data = cert; key_data = key; token = token }))
unfolding load_text
load-written ca cert key token =
    taken_apart read_cert ca (field cert (field key token))
    ∙ taken_apart (read_key ca) cert (field key token)
    ∙ taken_apart
        (λ k t. some (
          config_of (codes "c") (codes "s") ca
            (record { cert_data = cert; key_data = k; token = t })))
        key token

text_of : Text → Option Text → Text
text_of d none = d
text_of d (some a) = a

reads_back :
    (ca : Text) (creds : Credentials)
    → libraries.write (rebuilt libraries (codes "c") (codes "s") ca creds) ≡ some out
    → libraries.load out ≡ some (rebuilt libraries (codes "c") (codes "s") ca creds)
unfolding libraries rebuilt text_of
reads_back ca creds h =
    ap load_text (sym (ap (text_of []) h))
    ∙ load-written ca creds.cert_data creds.key_data creds.token

sanitize-is_fixed_point_example :
    (sanitize libraries out (codes "c") (codes "s") ≡ accepted out)
    × (is_fixed_point libraries out (codes "c") (codes "s") ≡ accepted true)
sanitize-is_fixed_point_example =
    sanitize-is_fixed_point libraries laws (0 ∷ []) (codes "c") (codes "s") out reads_back
      (ground arith) sanitized

-- every certificate is valid from 10 to 20
abbrev window : Text → Option (ℕ × ℕ)
window bytes = some (10, 20)

sanitize-expiry_example :
    (ca : Text) × (creds : Credentials) × (libraries.write
        (rebuilt libraries (codes "c") (codes "s") ca creds)
      ≡ some out)
    × ((check_client_certificate_expiry libraries window 15 out ≡ none)
        ↔ Valid libraries window 15 creds.cert_data)
sanitize-expiry_example =
    sanitize-expiry libraries window 15 (0 ∷ []) (codes "c") (codes "s") out reads_back
      (ground arith) sanitized

in_time : check_client_certificate_expiry libraries window 15 out ≡ none
unfolding libraries check_client_certificate_expiry check_loaded check_users check_user check_block
    check_window load_text decode_block ◌==◌
in_time = refl

too_late : check_client_certificate_expiry libraries window 21 out ≡ some expired
unfolding libraries check_client_certificate_expiry check_loaded check_users check_user check_block
    check_window load_text decode_block ◌==◌
too_late = refl
