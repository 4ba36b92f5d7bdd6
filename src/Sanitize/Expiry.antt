-- ===== src/Sanitize/Expiry.antt =====
-- internal/kubeconfig/expiry.go: whether the client certificate of a kubeconfig that Sanitize has written is valid now.
-- An instant is in whole seconds, as the validity of a certificate is.
use cluster_api_provider_kai.Prelude.{
  ℕ, ◌≤◌, true, Option, none, some, List, [], ◌∷◌, Text, codes, length, ltb, ◌==◌, if◌then◌else◌,
  ◌≡◌, ◌↔◌, refl, sym, ap, ◌∙◌, arith, inl, inr, Bool-cases, Option-cases,
}
use cluster_api_provider_kai.Sanitize.{
  SourceUser, SourceConfig, accepted, Libraries, Reason, oversized, unparseable, structure,
  credentials, expired, max_size, Credentials, is_set, rebuilt, sanitize,
}
use cluster_api_provider_kai.Sanitize.Fields.{unset}
use cluster_api_provider_kai.Sanitize.Fixed.{rebuilt_user}
use cluster_api_provider_kai.Sanitize.Sound.{sanitize-Rebuilt}

-- `window` is the NotBefore and the NotAfter of a certificate that x509 parses.
module _ (lib : Libraries) (window : Text → Option (ℕ × ℕ)) (now : ℕ) where
  unfoldable pub check_window : Option (ℕ × ℕ) → Option Reason
  check_window none = some credentials
  check_window (some (not_before, not_after)) =
      if ltb now not_before then some expired else if ltb not_after now then some expired else none

  unfoldable pub check_block : Option ((Text × Text) × Text) → Option Reason
  check_block none = some credentials
  check_block (some ((kind, bytes), rest)) = check_window (window bytes)

  unfoldable pub check_user : Option SourceUser → Option Reason
  check_user none = none
  check_user (some u) =
      if is_set u.cert_data then check_block (lib.pem_decode u.cert_data) else none

  unfoldable pub check_users : List (Text × Option SourceUser) → Option Reason
  check_users ((name, entry) ∷ []) = check_user entry
  check_users [] = some structure
  check_users (a ∷ b ∷ rest) = some structure

  unfoldable pub check_loaded : Option SourceConfig → Option Reason
  check_loaded none = some unparseable
  check_loaded (some cfg) = check_users cfg.users

  -- CheckClientCertificateExpiry; none is the code's nil.
  unfoldable pub check_client_certificate_expiry : Text → Option Reason
  check_client_certificate_expiry sanitized =
      if ltb max_size (length sanitized) then some oversized else check_loaded (lib.load sanitized)

  -- no certificate, or one whose window holds this instant
  pub data Valid (cert : Text) : Type 0 where
    no_certificate : cert ≡ codes "" → Valid cert
    in_window :
        (kind bytes rest : Text) (not_before not_after : ℕ)
        → lib.pem_decode cert ≡ some ((kind, bytes), rest)
        → window bytes ≡ some (not_before, not_after)
        → not_before ≤ now
        → now ≤ not_after
        → Valid cert

  window-none :
      (not_before not_after : ℕ)
      → check_window (some (not_before, not_after)) ≡ none
      → (not_before ≤ now) × (now ≤ not_after)
  unfolding check_window
  window-none not_before not_after h = (ground (arith, h), ground (arith, h))

  none-window :
      (not_before not_after : ℕ)
      → not_before ≤ now
      → now ≤ not_after
      → check_window (some (not_before, not_after)) ≡ none
  unfolding check_window
  none-window not_before not_after a b = ground (arith, a, b)

  block-Valid : (cert : Text) → check_block (lib.pem_decode cert) ≡ none → Valid cert
  unfolding check_block check_window
  block-Valid cert h = elim (Option-cases (lib.pem_decode cert)) [
    | inl e ↦ absurd (ground (arith, rw (check_block, e) at h))
    | inr (((kind, bytes), rest), e) ↦ elim (Option-cases (window bytes)) [
      | inl w ↦ absurd (ground (arith, rw (check_block, e, check_window, w) at h))
      | inr ((not_before, not_after), w) ↦
          let (late, early) = window-none not_before not_after (rw (check_block, e, w) at h) in
          in_window kind bytes rest not_before not_after e w late early
    ]
  ]

  Valid-block :
      (cert : Text) → is_set cert ≡ true → Valid cert → check_block (lib.pem_decode cert) ≡ none
  unfolding check_block ◌==◌
  Valid-block cert s (no_certificate e) = absurd (ground (arith, ap is_set e, s))
  Valid-block cert s (in_window kind bytes rest not_before not_after e w late early) =
      ap check_block e ∙ ap check_window w ∙ none-window not_before not_after late early

  user-Valid : (u : SourceUser) → (check_user (some u) ≡ none) ↔ Valid u.cert_data
  unfolding check_user
  user-Valid u = elim (Bool-cases (is_set u.cert_data)) [
    | inl s ↦ (
      λ h. block-Valid u.cert_data (rw (check_user, s) at h),
      λ v. rw (check_user, s) (Valid-block u.cert_data s v),
    )
    | inr s ↦ (λ h. no_certificate (unset s), λ v. rw (check_user, s) refl)
  ]

  expiry-rebuilt :
      (name server ca out : Text) (creds : Credentials)
      → length out ≤ max_size
      → lib.load out ≡ some (rebuilt lib name server ca creds)
      → (check_client_certificate_expiry out ≡ none) ↔ Valid creds.cert_data
  unfolding check_client_certificate_expiry check_loaded check_users rebuilt
  expiry-rebuilt name server ca out creds small loaded =
      let same : check_client_certificate_expiry out
          ≡ check_loaded (some (rebuilt lib name server ca creds)) =
        ground (arith, small, ap check_loaded loaded) in
      let valid = user-Valid (rebuilt_user creds) in
      (λ h. valid.0 (sym same ∙ h), λ v. same ∙ valid.1 v)

  -- Of a kubeconfig that Sanitize has written, that clientcmd reads back and that is not larger than the limit, the
  -- check of the expiry finds nothing exactly when its credentials hold no certificate, or one whose validity holds
  -- the instant.
  pub sanitize-expiry :
      (raw name server out : Text)
      → ((ca : Text) (creds : Credentials)
          → lib.write (rebuilt lib name server ca creds) ≡ some out
          → lib.load out ≡ some (rebuilt lib name server ca creds))
      → length out ≤ max_size
      → sanitize lib raw name server ≡ accepted out
      → (ca : Text) × (creds : Credentials) × (lib.write (rebuilt lib name server ca creds)
          ≡ some out)
        × ((check_client_certificate_expiry out ≡ none) ↔ Valid creds.cert_data)
  sanitize-expiry raw name server out reads small h =
      let r = sanitize-Rebuilt lib raw name server out h in
      (
        r.ca,
        r.creds,
        r.written,
        expiry-rebuilt name server r.ca out r.creds small (reads r.ca r.creds r.written),
      )
