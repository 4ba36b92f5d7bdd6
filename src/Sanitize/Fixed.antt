-- ===== src/Sanitize/Fixed.antt =====
-- What Sanitize has written is a fixed point of it.
use cluster_api_provider_kai.Prelude.{
  ◌≤◌, ◌||◌, true, false, not, Option, some, [], ◌∷◌, ◌++◌, Text, codes, length, ◌==◌, ◌≡◌, refl,
  sym, ap, ◌∙◌, arith, inl, inr, Bool-cases, ==_refl,
}
use cluster_api_provider_kai.Sanitize.{
  SourceUser, SourceConfig, Checked, accepted, Libraries, max_size, Credentials, is_set, then_check,
  validate_ca_bundle, judge_scan, scan_blocks, unsafe_cluster_fields, validate_cluster_entry,
  unsafe_user_fields, credentials_of, validate_user_entry, validate_context_entry, validate_all,
  the_only, rebuilt, write_out, sanitize_config, sanitize_loaded, sanitize, is_fixed_point,
}
use cluster_api_provider_kai.Sanitize.Bundle.{PemLaws, validate_ca_bundle-canonical}
use cluster_api_provider_kai.Sanitize.Sound.{sanitize-Rebuilt}
use cluster_api_provider_kai.Sanitize.Fields.{OneKind}

-- the user that is written
abbrev pub rebuilt_user : Credentials → SourceUser
rebuilt_user creds = record {
  token_file = codes "";
  cert_file = codes "";
  key_file = codes "";
  exec = false;
  auth_provider = false;
  username = codes "";
  password = codes "";
  impersonates = false;
  extended = false;
  cert_data = creds.cert_data;
  key_data = creds.key_data;
  token = creds.token;
}

module _ (lib : Libraries) (laws : PemLaws lib) where
  nothing_accepted : (ca : Text) → ¬ (validate_ca_bundle lib [] ≡ accepted ca)
  unfolding validate_ca_bundle scan_blocks judge_scan
  nothing_accepted ca h = ground (arith, rw (scan_blocks, laws.at_end) at h)

  set_of_accepted : (ca out : Text) → validate_ca_bundle lib ca ≡ accepted out → is_set ca ≡ true
  unfolding ◌==◌
  set_of_accepted [] out h = absurd (nothing_accepted out h)
  set_of_accepted (x ∷ ca) out h = refl

  cluster-rebuilt :
      (server ca : Text)
      → validate_ca_bundle lib ca ≡ accepted ca
      → validate_cluster_entry lib (
          some (record {
            server = server;
            ca_file = codes "";
            insecure = false;
            proxy_url = codes "";
            tls_server_name = codes "";
            extended = false;
            ca_data = ca;
          }))
        ≡ accepted ca
  unfolding validate_cluster_entry unsafe_cluster_fields ◌==◌
  cluster-rebuilt server ca h = ground (arith, h, set_of_accepted ca ca h)

  pair-taken :
      (u : SourceUser)
      → is_set u.cert_data ≡ true
      → is_set u.key_data ≡ true
      → is_set u.token ≡ false
      → lib.key_pair u.cert_data u.key_data ≡ true
      → credentials_of lib u
        ≡ accepted (record { cert_data = u.cert_data; key_data = u.key_data; token = codes "" })
  unfolding credentials_of
  pair-taken u c k t pair = ground (arith, c, k, t, pair)

  token-taken :
      (u : SourceUser)
      → is_set u.cert_data ≡ false
      → is_set u.key_data ≡ false
      → is_set u.token ≡ true
      → credentials_of lib u
        ≡ accepted (record { cert_data = codes ""; key_data = codes ""; token = u.token })
  unfolding credentials_of
  token-taken u c k t = ground (arith, c, k, t)

  not_set : {s : Text} → s ≡ codes "" → is_set s ≡ false
  unfolding ◌==◌
  not_set e = rw e refl

  credentials-rebuilt :
      (creds : Credentials)
      → OneKind lib creds
      → credentials_of lib (rebuilt_user creds) ≡ accepted creds
  credentials-rebuilt creds (inl (t, pair, c, k)) =
      pair-taken (rebuilt_user creds) c k (not_set t) pair
      ∙ ap
          (λ x.
            accepted (record { cert_data = creds.cert_data; key_data = creds.key_data; token = x }))
          (sym t)
  credentials-rebuilt creds (inr (c, k, t)) =
      token-taken (rebuilt_user creds) (not_set c) (not_set k) t
      ∙ ap
          (λ (p : Text × Text).
            accepted (record { cert_data = p.0; key_data = p.1; token = creds.token }))
          (λ i. (sym c i, sym k i))

  user-rebuilt :
      (creds : Credentials)
      → OneKind lib creds
      → validate_user_entry lib (some (rebuilt_user creds)) ≡ accepted creds
  unfolding validate_user_entry unsafe_user_fields ◌==◌
  user-rebuilt creds kind = credentials-rebuilt creds kind

  one-validated :
      {A B : Type 0} (check : Option A → Checked B) (name : Text) (entry : Option A) (b : B)
      → check entry ≡ accepted b
      → validate_all lib check ((name, entry) ∷ []) ≡ accepted ((name, b) ∷ [])
  unfolding validate_all
  one-validated check name entry b h = ap (λ c. then_check c (λ x. accepted ((name, x) ∷ []))) h

  then_check-to :
      {A B : Type 0} {c : Checked A} {a : A} {r : Checked B} (f : A → Checked B)
      → c ≡ accepted a
      → f a ≡ r
      → then_check c f ≡ r
  then_check-to f h k = ap (λ x. then_check x f) h ∙ k

  context-rebuilt :
      (name user : Text)
      → validate_context_entry lib (some (record { cluster = name; user = user; extended = false }))
        ≡ accepted (record { cluster = name; user = user; extended = false })
  unfolding validate_context_entry
  context-rebuilt name user = refl

  only-rebuilt :
      (name user context ca : Text) (creds : Credentials)
      → the_only lib context
          ((name, ca) ∷ [])
          ((user, creds) ∷ [])
          ((context, record { cluster = name; user = user; extended = false }) ∷ [])
        ≡ accepted (ca, creds)
  unfolding the_only
  only-rebuilt name user context ca creds =
      ground (arith, ==_refl name, ==_refl user, ==_refl context)

  written-rebuilt :
      (name server ca out : Text) (creds : Credentials)
      → lib.write (rebuilt lib name server ca creds) ≡ some out
      → write_out lib name server (ca, creds) ≡ accepted out
  unfolding write_out
  written-rebuilt name server ca out creds h = rw (write_out, h) refl

  config-rebuilt :
      (name server ca out : Text) (creds : Credentials)
      → validate_ca_bundle lib ca ≡ accepted ca
      → OneKind lib creds
      → lib.write (rebuilt lib name server ca creds) ≡ some out
      → sanitize_config lib name server (rebuilt lib name server ca creds) ≡ accepted out
  unfolding sanitize_config rebuilt
  config-rebuilt name server ca out creds canonical kind written =
      let user = name ++ codes "-admin" in
      let context = user ++ codes "@" ++ name in
      then_check-to _
        (one-validated (validate_cluster_entry lib) name _ ca (cluster-rebuilt server ca canonical))
        (then_check-to _
          (one-validated (validate_user_entry lib) user _ creds (user-rebuilt creds kind))
          (then_check-to _
            (one-validated (validate_context_entry lib) context _ _ (context-rebuilt name user))
            (then_check-to _ (only-rebuilt name user context ca creds)
              (written-rebuilt name server ca out creds written))))

  accepted-again :
      (raw name server out : Text) (cfg : SourceConfig)
      → sanitize lib raw name server ≡ accepted out
      → length out ≤ max_size
      → lib.load out ≡ some cfg
      → sanitize_config lib name server cfg ≡ accepted out
      → sanitize lib out name server ≡ accepted out
  unfolding sanitize sanitize_loaded
  accepted-again raw name server out cfg h small loaded again =
      elim (Bool-cases (not (is_set name) || not (is_set server) || not (lib.valid_url server))) [
        | inl bad ↦ absurd (ground (arith, rw (sanitize, bad) at h))
        | inr named ↦
            rw (sanitize, named)
              (ground (arith, small, ap (sanitize_loaded lib name server) loaded, again))
      ]

  -- What Sanitize has accepted it accepts again as it is, where clientcmd reads back what it wrote and that is not
  -- larger than the limit: the output is a fixed point.
  pub sanitize-is_fixed_point :
      (raw name server out : Text)
      → ((ca : Text) (creds : Credentials)
          → lib.write (rebuilt lib name server ca creds) ≡ some out
          → lib.load out ≡ some (rebuilt lib name server ca creds))
      → length out ≤ max_size
      → sanitize lib raw name server ≡ accepted out
      → (sanitize lib out name server ≡ accepted out)
        × (is_fixed_point lib out name server ≡ accepted true)
  unfolding is_fixed_point
  sanitize-is_fixed_point raw name server out reads small h =
      let r = sanitize-Rebuilt lib raw name server out h in
      let fixed =
        accepted-again raw name server out (rebuilt lib name server r.ca r.creds) h small
          (reads r.ca r.creds r.written)
          (config-rebuilt name server r.ca out r.creds
            (validate_ca_bundle-canonical lib laws r.cluster.ca_data r.ca r.canonical) r.one_kind
            r.written) in
      (fixed, then_check-to _ fixed (ap accepted (==_refl out)))
