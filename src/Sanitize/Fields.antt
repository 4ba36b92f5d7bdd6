-- ===== src/Sanitize/Fields.antt =====
-- The fields and the credentials that validateClusterEntry and validateUserEntry of internal/kubeconfig/sanitize.go
-- accept.
use cluster_api_provider_kai.Prelude.{
  Bool, ◌||◌, true, false, not, Text, codes, ◌==◌, ◌&&◌, if_elim, ◌≡◌, refl, subst, ap, arith, ◌⊎◌,
  inl, inr, Bool-cases, ==_iff,
}
use cluster_api_provider_kai.Sanitize.{
  SourceCluster, SourceUser, Libraries, Credentials, Checked, accepted, rejected, Reason,
  credentials, is_set, unsafe_cluster_fields, unsafe_user_fields, credentials_of,
}

-- An entry of a cluster without a file, a proxy, another server name or insecure TLS, and with inline CA data.
pub record SafeCluster (c : SourceCluster) : Type 0 where
  pub no_ca_file : c.ca_file ≡ codes ""
  pub verified_tls : c.insecure ≡ false
  pub no_proxy : c.proxy_url ≡ codes ""
  pub no_server_name : c.tls_server_name ≡ codes ""
  pub no_extensions : c.extended ≡ false
  pub inline_ca : ¬ (c.ca_data ≡ codes "")

-- An entry of a user without a file, a plugin, a password or an impersonation.
pub record SafeUser (u : SourceUser) : Type 0 where
  pub no_token_file : u.token_file ≡ codes ""
  pub no_cert_file : u.cert_file ≡ codes ""
  pub no_key_file : u.key_file ≡ codes ""
  pub no_exec : u.exec ≡ false
  pub no_auth_provider : u.auth_provider ≡ false
  pub no_username : u.username ≡ codes ""
  pub no_password : u.password ≡ codes ""
  pub no_impersonation : u.impersonates ≡ false
  pub no_extensions : u.extended ≡ false

-- One kind of credentials: a certificate with its key, or a token.
abbrev pub OneKind : Libraries → Credentials → Type 0
OneKind lib creds =
    ((creds.token ≡ codes "")
      × (lib.key_pair creds.cert_data creds.key_data ≡ true)
      × (is_set creds.cert_data ≡ true)
      × (is_set creds.key_data ≡ true))
    ⊎ ((creds.cert_data ≡ codes "") × (creds.key_data ≡ codes "") × (is_set creds.token ≡ true))

pub unset : {t : Text} → is_set t ≡ false → t ≡ codes ""
unset {t = t} h = elim (Bool-cases (t == codes "")) [
  | inl e ↦ (==_iff t (codes "")).0 e
  | inr e ↦ absurd (ground (arith, e, h))
]

set : {t : Text} → is_set t ≡ true → ¬ (t ≡ codes "")
set {t = t} h e = absurd (ground (arith, h, (==_iff t (codes "")).1 e))

or_false : (a b : Bool) → a || b ≡ false → (a ≡ false) × (b ≡ false)
or_false a b h = (ground (arith, h), ground (arith, h))

pub accepted_inj : {A : Type 0} {x y : A} → accepted x ≡ accepted y → x ≡ y
accepted_inj {A = A} {x = x} e = ap (from x) e
  where
    from : A → Checked A → A
    from d (accepted a) = a
    from d (rejected r) = d

module _ (lib : Libraries) where
  pub cluster-Safe : (c : SourceCluster) → unsafe_cluster_fields lib c ≡ false → SafeCluster c
  unfolding unsafe_cluster_fields
  cluster-Safe c h = record {
    no_ca_file = unset (ground (arith, h));
    verified_tls = ground (arith, h);
    no_proxy = unset (ground (arith, h));
    no_server_name = unset (ground (arith, h));
    no_extensions = ground (arith, h);
    inline_ca = set (ground (arith, h));
  }

  pub user-Safe : (u : SourceUser) → unsafe_user_fields lib u ≡ false → SafeUser u
  unfolding unsafe_user_fields
  user-Safe u h = record {
    no_token_file = unset (ground (arith, h));
    no_cert_file = unset (ground (arith, h));
    no_key_file = unset (ground (arith, h));
    no_exec = ground (arith, h);
    no_auth_provider = ground (arith, h);
    no_username = unset (ground (arith, h));
    no_password = unset (ground (arith, h));
    no_impersonation = ground (arith, h);
    no_extensions = ground (arith, h);
  }

  -- credentials that a result, if it is accepted, has of one kind
  abbrev OneKindOf : Credentials → Checked Credentials → Type 0
  OneKindOf creds c = c ≡ accepted creds → OneKind lib creds

  refused : (r : Reason) (creds : Credentials) → OneKindOf creds (rejected r)
  refused r creds h = absurd (ground (arith, h))

  pair-OneKind :
      (cert key : Text) (creds : Credentials)
      → is_set cert ≡ true
      → is_set key ≡ true
      → lib.key_pair cert key ≡ true
      → OneKindOf creds (accepted (record { cert_data = cert; key_data = key; token = codes "" }))
  pair-OneKind cert key creds c k pair h =
      subst (OneKind lib) (accepted_inj h) (inl (refl, pair, c, k))

  token-OneKind :
      (token : Text) (creds : Credentials)
      → is_set token ≡ true
      → OneKindOf creds
          (accepted (record { cert_data = codes ""; key_data = codes ""; token = token }))
  token-OneKind token creds t h = subst (OneKind lib) (accepted_inj h) (inr (refl, refl, t))

  pub credentials-OneKind :
      (u : SourceUser) (creds : Credentials) → OneKindOf creds (credentials_of lib u)
  unfolding credentials_of
  credentials-OneKind u creds =
      if_elim (OneKindOf creds) ((is_set u.cert_data || is_set u.key_data) && is_set u.token) _ _
        (λ e. refused credentials creds)
        (λ e.
          if_elim (OneKindOf creds) (is_set u.cert_data || is_set u.key_data) _ _
            (λ some_.
              if_elim (OneKindOf creds)
                (not (is_set u.cert_data)
                  || not (is_set u.key_data)
                  || not (lib.key_pair u.cert_data u.key_data))
                _ _ (λ bad. refused credentials creds)
                (λ fine.
                  pair-OneKind u.cert_data u.key_data creds (ground (arith, fine))
                    (ground (arith, fine)) (ground (arith, fine))))
            (λ none_.
              if_elim (OneKindOf creds) (is_set u.token) _ _ (λ t. token-OneKind u.token creds t)
                (λ t. refused credentials creds)))
