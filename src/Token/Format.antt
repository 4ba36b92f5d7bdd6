-- ===== src/Token/Format.antt =====
-- The texts of a join token: what is written is read back, and what is generated has the format.
use cluster_api_provider_kai.Prelude.{
  ℕ, zero, suc, ◌+◌, ◌≤◌, ◌<◌, true, false, Option, some, List, [], ◌∷◌, ◌++◌, Text, codes, ◌==◌,
  ==_refl, ◌≡◌, refl, arith, length, take, Option-cases, inl, inr, ok, lookup, ap, ◌∙◌,
}
use cluster_api_provider_kai.Session.{Api}
use cluster_api_provider_kai.Token.{
  BootstrapToken, is_token_char, all_token_chars, valid_id, valid_secret, cut_at_dot, of_parts,
  match_token, bearer, charset_at, random_string, generate, id_length, secret_length, Kubeconfig,
  Codec, join_kubeconfig, encode, decode, decode_bytes, decode_stream, decode_config,
  max_kubeconfig_bytes, controller_bootstrap_user, kubeconfig_name, new_secret,
  is_controller_join_only, expiry,
}

-- six and sixteen characters of [a-z0-9]
pub record IsToken (t : BootstrapToken) : Type 0 where
  pub id : valid_id t.id ≡ true
  pub secret : valid_secret t.secret ≡ true

cut_at_dot-append :
    (a b : Text) → all_token_chars a ≡ true → cut_at_dot (a ++ (b'.' ∷ b)) ≡ some (a, b)
unfolding cut_at_dot all_token_chars is_token_char
cut_at_dot-append [] b h = refl
cut_at_dot-append (c ∷ a) b h = ground (arith, cut_at_dot-append a b)

of_parts-valid : (t : BootstrapToken) → IsToken t → of_parts (some (t.id, t.secret)) ≡ some t
unfolding of_parts
of_parts-valid t h = ground (arith, h.id, h.secret)

valid_id-all_token_chars : (s : Text) → valid_id s ≡ true → all_token_chars s ≡ true
unfolding valid_id
valid_id-all_token_chars s h = ground arith

match_token-bearer : (t : BootstrapToken) → IsToken t → match_token (bearer t) ≡ some t
unfolding match_token bearer
match_token-bearer t h =
    ap of_parts (cut_at_dot-append t.id t.secret (valid_id-all_token_chars t.id h.id))
    ∙ of_parts-valid t h

charset_at-is_token_char : (i : ℕ) → i < 36 → is_token_char (charset_at i) ≡ true
unfolding charset_at is_token_char
charset_at-is_token_char i h = ground arith

random_string-format :
    (draw : ℕ → Option ℕ) (i n : ℕ) (s : Text)
    → ((j v : ℕ) → draw j ≡ some v → v < 36)
    → random_string draw i n ≡ some s
    → (length s ≡ n) × (all_token_chars s ≡ true)
unfolding random_string all_token_chars
random_string-format draw i zero s below e = ground arith
random_string-format draw i (suc n) s below e = elim (Option-cases (draw i)) [
  | inl none_ ↦ absurd (ground (arith, none_, e))
  | inr (v, drawn) ↦ elim (Option-cases (random_string draw (suc i) n)) [
    | inl none_ ↦ absurd (ground (arith, none_, drawn, e))
    | inr (r, rest) ↦ ground (
      arith,
      drawn,
      rest,
      charset_at-is_token_char v (below i v drawn),
      random_string-format draw (suc i) n r below rest,
    )
  ]
]

-- A token that is generated from draws below the size of the alphabet has the format, and its bearer
-- text is read back as this token.
generate-IsToken :
    (draw : ℕ → Option ℕ) (t : BootstrapToken)
    → ((j v : ℕ) → draw j ≡ some v → v < 36)
    → generate draw ≡ ok t
    → IsToken t × (match_token (bearer t) ≡ some t)
unfolding generate
generate-IsToken draw t below e = elim (Option-cases (random_string draw 0 id_length)) [
  | inl none_ ↦ absurd (ground (arith, none_, e))
  | inr (id, drawn) ↦ elim (Option-cases (random_string draw id_length secret_length)) [
    | inl none_ ↦ absurd (ground (arith, none_, drawn, e))
    | inr (secret, rest) ↦
        let h : IsToken t =
          unfold valid_id valid_secret in
          record {
            id = ground (arith, drawn, rest, random_string-format draw 0 id_length id below drawn);
            secret = ground (
              arith,
              drawn,
              rest,
              random_string-format draw id_length secret_length secret below rest,
            );
          } in
        (h, match_token-bearer t h)
  ]
]

-- What is documented of base64, gzip and clientcmd, on the kubeconfig of this token: each reads back
-- what it wrote, a limited read gives the front of it, and base64 writes no space.
pub record Faithful (codec : Codec) (cfg : Kubeconfig) (config z : Text) : Type 0 where
  pub written : codec.write_config cfg ≡ some config
  pub loaded : codec.load_config config ≡ some cfg
  pub zipped : codec.gzip config ≡ some z
  pub unzipped : (n : ℕ) → codec.gunzip n z ≡ some (take n config)
  pub trimmed : codec.trim_space (codec.base64_encode z) ≡ codec.base64_encode z
  pub read_back : codec.base64_decode (codec.base64_encode z) ≡ some z

take_all : {A : Type 0} (n : ℕ) (xs : List A) → length xs ≤ n → take n xs ≡ xs
take_all zero [] h = refl
take_all (suc n) [] h = refl
take_all zero (x ∷ xs) h = absurd (omega arith)
take_all (suc n) (x ∷ xs) h = ground (arith, take_all n xs)

decode_config-join :
    (codec : Codec) (server ca : Text) (t : BootstrapToken)
    → IsToken t
    → decode_config codec (join_kubeconfig server ca t)
      ≡ some (record { server = server; ca_data = ca; user = controller_bootstrap_user; token = t })
unfolding decode_config join_kubeconfig lookup
decode_config-join codec server ca t h =
    ground
      (arith, ==_refl kubeconfig_name, ==_refl controller_bootstrap_user, match_token-bearer t h)

decode_bytes-loaded :
    (codec : Codec) (config : Text) (cfg : Kubeconfig)
    → codec.load_config config ≡ some cfg
    → length config ≤ max_kubeconfig_bytes
    → decode_bytes codec config ≡ decode_config codec cfg
unfolding decode_bytes
decode_bytes-loaded codec config cfg loaded small = ground (arith, loaded, small)

decode-stream :
    (codec : Codec) (encoded raw config : Text)
    → codec.trim_space encoded ≡ encoded
    → codec.base64_decode encoded ≡ some raw
    → codec.gunzip (max_kubeconfig_bytes + 1) raw ≡ some config
    → decode codec encoded ≡ decode_bytes codec config
unfolding decode decode_stream
decode-stream codec encoded raw config trimmed read_back unzipped =
    rw (decode, trimmed, read_back, unzipped) refl

-- A join token of the format whose kubeconfig has at most 64 KiB is read back from its encoded form,
-- with its server, its CA and the user that k0s wants.
pub decode-encode :
    (codec : Codec) (server ca config z : Text) (t : BootstrapToken)
    → Faithful codec (join_kubeconfig server ca t) config z
    → length config ≤ max_kubeconfig_bytes
    → IsToken t
    → (encode codec server ca t ≡ ok (codec.base64_encode z))
      × (decode codec (codec.base64_encode z)
          ≡ some (record {
            server = server;
            ca_data = ca;
            user = controller_bootstrap_user;
            token = t;
          }))
unfolding encode
decode-encode codec server ca config z t f small h =
    let front =
      f.unzipped (max_kubeconfig_bytes + 1)
      ∙ ap some (take_all (max_kubeconfig_bytes + 1) config (omega arith)) in
    (
      rw (encode, f.written, f.zipped) refl,
      decode-stream codec (codec.base64_encode z) z config f.trimmed f.read_back front
          ∙ decode_bytes-loaded codec config (join_kubeconfig server ca t) f.loaded small
          ∙ decode_config-join codec server ca t h,
    )

-- The Secret of a new token is a controller-join-only bootstrap token with this expiry, where the text
-- of the instant is not empty and reads back.
pub new_secret-is_controller_join_only :
    (api : Api) (t : BootstrapToken) (expires : ℕ)
    → (api.format_time expires == codes "") ≡ false
    → api.parse_time (api.format_time expires) ≡ some expires
    → (is_controller_join_only (new_secret api t expires) ≡ true)
      × (expiry api (new_secret api t expires) ≡ some expires)
unfolding is_controller_join_only new_secret expiry ◌==◌
new_secret-is_controller_join_only api t expires shown parsed = (refl, ground arith)
