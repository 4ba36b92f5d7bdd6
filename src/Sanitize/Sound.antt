-- ===== src/Sanitize/Sound.antt =====
-- What a kubeconfig that Sanitize has accepted holds.
use cluster_api_provider_kai.Prelude.{
  ◌≤◌, ◌&&◌, ◌||◌, false, not, Option, none, some, List, [], ◌∷◌, Text, length, ltb, ◌==◌, ◌≡◌,
  refl, ap, ◌∙◌, arith, ◌⊎◌, inl, inr, Bool-cases, Option-cases,
}
use cluster_api_provider_kai.Sanitize.{
  SourceCluster, SourceUser, SourceContext, SourceConfig, Reason, Checked, accepted, rejected,
  Libraries, max_size, Credentials, is_set, then_check, validate_ca_bundle, unsafe_cluster_fields,
  validate_cluster_entry, unsafe_user_fields, credentials_of, validate_user_entry,
  validate_context_entry, validate_all, the_only, rebuilt, write_out, sanitize_config,
  sanitize_loaded, sanitize,
}
use cluster_api_provider_kai.Sanitize.Fields.{
  OneKind, SafeCluster, SafeUser, cluster-Safe, user-Safe, accepted_inj, credentials-OneKind,
}

-- The output is the kubeconfig of this name and server with the canonical CA bundle and the credentials of the only
-- cluster and user of the input, neither of which had a field that is not permitted.
pub record Rebuilt (lib : Libraries) (raw name server out : Text) : Type 0 where
  pub source : SourceConfig
  pub loaded : lib.load raw ≡ some source
  pub small : length raw ≤ max_size
  pub cluster_name : Text
  pub cluster : SourceCluster
  pub only_cluster : source.clusters ≡ (cluster_name, some cluster) ∷ []
  pub safe_cluster : SafeCluster cluster
  pub ca : Text
  pub canonical : validate_ca_bundle lib cluster.ca_data ≡ accepted ca
  pub user_name : Text
  pub user : SourceUser
  pub only_user : source.users ≡ (user_name, some user) ∷ []
  pub safe_user : SafeUser user
  pub creds : Credentials
  pub taken : credentials_of lib user ≡ accepted creds
  pub one_kind : OneKind lib creds
  pub written : lib.write (rebuilt lib name server ca creds) ≡ some out

Checked-cases :
    {A : Type 0} (c : Checked A) → ((a : A) × (c ≡ accepted a)) ⊎ ((r : Reason) × (c ≡ rejected r))
Checked-cases (accepted a) = inl (a, refl)
Checked-cases (rejected r) = inr (r, refl)

-- A chain is accepted only where its first step is.
then_check-accepted :
    {A B : Type 0} (c : Checked A) (f : A → Checked B) (b : B)
    → then_check c f ≡ accepted b
    → (a : A) × (c ≡ accepted a) × (f a ≡ accepted b)
then_check-accepted (accepted a) f b h = (a, refl, h)
then_check-accepted (rejected r) f b h = absurd (rejected_ne h)
  where
    rejected_ne : ¬ (rejected r ≡ accepted b)
    rejected_ne e = ground (arith, e)

-- the parts of a list that is one entry
one_parts :
    {B : Type 0} {n name : Text} {x b : B} {xs : List (Text × B)}
    → (n, x) ∷ xs ≡ (name, b) ∷ []
    → (n ≡ name) × (x ≡ b) × (xs ≡ [])
one_parts {B = B} {n = n} {x = x} e = (ap (λ l. (first l).0) e, ap (λ l. (first l).1) e, ap rest e)
  where
    first : List (Text × B) → Text × B
    first [] = (n, x)
    first (y ∷ ys) = y

    rest : List (Text × B) → List (Text × B)
    rest [] = []
    rest (y ∷ ys) = ys

validate_all-none :
    {A B : Type 0} (lib : Libraries) (check : Option A → Checked B)
    (entries : List (Text × Option A))
    → validate_all lib check entries ≡ accepted []
    → entries ≡ []
unfolding validate_all
validate_all-none lib check [] h = refl
validate_all-none lib check ((n, entry) ∷ rest) h =
    let (x, at, more) = then_check-accepted (check entry) _ _ h in
    let (xs, all, last) = then_check-accepted (validate_all lib check rest) _ _ more in
    absurd (ground (arith, accepted_inj last))

-- Validated entries are those of the map, in order.
validate_all-one :
    {A B : Type 0} (lib : Libraries) (check : Option A → Checked B)
    (entries : List (Text × Option A)) (name : Text) (b : B)
    → validate_all lib check entries ≡ accepted ((name, b) ∷ [])
    → (entry : Option A) × (entries ≡ (name, entry) ∷ []) × (check entry ≡ accepted b)
unfolding validate_all
validate_all-one lib check [] name b h = absurd (ground (arith, accepted_inj h))
validate_all-one lib check ((n, entry) ∷ rest) name b h =
    let (x, at, more) = then_check-accepted (check entry) _ _ h in
    let (xs, all, last) = then_check-accepted (validate_all lib check rest) _ _ more in
    let (same_name, same, none_left) = one_parts (accepted_inj last) in
    let empty = validate_all-none lib check rest (all ∙ ap accepted none_left) in
    (
      entry,
      ap (λ l. (n, entry) ∷ l) empty ∙ ap (λ m. (m, entry) ∷ []) same_name,
      at ∙ ap accepted same,
    )

module _ (lib : Libraries) where
  cluster-safe :
      (entry : Option SourceCluster) (ca : Text)
      → validate_cluster_entry lib entry ≡ accepted ca
      → (c : SourceCluster) × (entry ≡ some c)
        × (unsafe_cluster_fields lib c ≡ false)
        × (validate_ca_bundle lib c.ca_data ≡ accepted ca)
  unfolding validate_cluster_entry
  cluster-safe none ca h = absurd (ground (arith, h))
  cluster-safe (some c) ca h = elim (Bool-cases (unsafe_cluster_fields lib c)) [
    | inl e ↦ absurd (ground (arith, rw (validate_cluster_entry, e) at h))
    | inr e ↦ (c, refl, e, rw (validate_cluster_entry, e) at h)
  ]

  user-safe :
      (entry : Option SourceUser) (creds : Credentials)
      → validate_user_entry lib entry ≡ accepted creds
      → (u : SourceUser) × (entry ≡ some u)
        × (unsafe_user_fields lib u ≡ false)
        × (credentials_of lib u ≡ accepted creds)
  unfolding validate_user_entry
  user-safe none creds h = absurd (ground (arith, h))
  user-safe (some u) creds h = elim (Bool-cases (unsafe_user_fields lib u)) [
    | inl e ↦ absurd (ground (arith, rw (validate_user_entry, e) at h))
    | inr e ↦ (u, refl, e, rw (validate_user_entry, e) at h)
  ]

  -- The only cluster and user are what is taken, and the lists have one entry each.
  the_only-parts :
      (current : Text) (cas : List (Text × Text)) (users : List (Text × Credentials))
      (contexts : List (Text × SourceContext)) (ca : Text) (creds : Credentials)
      → the_only lib current cas users contexts ≡ accepted (ca, creds)
      → (cluster_name : Text) × (user_name : Text) × (cas ≡ (cluster_name, ca) ∷ [])
        × (users ≡ (user_name, creds) ∷ [])
  unfolding the_only
  the_only-parts current ((cluster, x) ∷ []) ((user, y) ∷ []) ((context, c) ∷ []) ca creds h =
      elim (Bool-cases (c.cluster == cluster && c.user == user && current == context)) [
        | inr differ ↦ absurd (ground (arith, rw (the_only, differ) at h))
        | inl match_ ↦
            let same = accepted_inj (rw (the_only, match_) at h) in
            (
              cluster,
              user,
              ap (λ (p : Text × Credentials). (cluster, p.0) ∷ []) same,
              ap (λ (p : Text × Credentials). (user, p.1) ∷ []) same,
            )
      ]
  the_only-parts current [] users contexts ca creds h = absurd (ground (arith, h))
  the_only-parts current (a ∷ b ∷ cas) users contexts ca creds h = absurd (ground (arith, h))
  the_only-parts current (a ∷ []) [] contexts ca creds h = absurd (ground (arith, h))
  the_only-parts current (a ∷ []) (b ∷ c ∷ users) contexts ca creds h = absurd (ground (arith, h))
  the_only-parts current (a ∷ []) (b ∷ []) [] ca creds h = absurd (ground (arith, h))
  the_only-parts current (a ∷ []) (b ∷ []) (c ∷ d ∷ contexts) ca creds h =
      absurd (ground (arith, h))

  written-out :
      (name server ca : Text) (creds : Credentials) (out : Text)
      → write_out lib name server (ca, creds) ≡ accepted out
      → lib.write (rebuilt lib name server ca creds) ≡ some out
  unfolding write_out
  written-out name server ca creds out h =
      elim (Option-cases (lib.write (rebuilt lib name server ca creds))) [
        | inl e ↦ absurd (ground (arith, rw (write_out, e) at h))
        | inr (x, e) ↦ e ∙ ap some (accepted_inj (rw (write_out, e) at h))
      ]

  cluster_of :
      (entries : List (Text × Option SourceCluster)) (name ca : Text)
      → validate_all lib (validate_cluster_entry lib) entries ≡ accepted ((name, ca) ∷ [])
      → (c : SourceCluster) × (entries ≡ (name, some c) ∷ [])
        × (unsafe_cluster_fields lib c ≡ false)
        × (validate_ca_bundle lib c.ca_data ≡ accepted ca)
  cluster_of entries name ca h =
      let (entry, only, validated) =
        validate_all-one lib (validate_cluster_entry lib) entries name ca h in
      let (c, is_c, safe, canonical) = cluster-safe entry ca validated in
      (c, only ∙ ap (λ x. (name, x) ∷ []) is_c, safe, canonical)

  user_of :
      (entries : List (Text × Option SourceUser)) (name : Text) (creds : Credentials)
      → validate_all lib (validate_user_entry lib) entries ≡ accepted ((name, creds) ∷ [])
      → (u : SourceUser) × (entries ≡ (name, some u) ∷ [])
        × (unsafe_user_fields lib u ≡ false)
        × (credentials_of lib u ≡ accepted creds)
  user_of entries name creds h =
      let (entry, only, validated) =
        validate_all-one lib (validate_user_entry lib) entries name creds h in
      let (u, is_u, safe, taken) = user-safe entry creds validated in
      (u, only ∙ ap (λ x. (name, x) ∷ []) is_u, safe, taken)

  parts-Rebuilt :
      (raw name server out : Text) (cfg : SourceConfig) (cas : List (Text × Text))
      (users : List (Text × Credentials)) (contexts : List (Text × SourceContext)) (ca : Text)
      (creds : Credentials)
      → lib.load raw ≡ some cfg
      → length raw ≤ max_size
      → validate_all lib (validate_cluster_entry lib) cfg.clusters ≡ accepted cas
      → validate_all lib (validate_user_entry lib) cfg.users ≡ accepted users
      → the_only lib cfg.current_context cas users contexts ≡ accepted (ca, creds)
      → write_out lib name server (ca, creds) ≡ accepted out
      → Rebuilt lib raw name server out
  parts-Rebuilt raw name server out cfg cas users contexts ca creds loaded small clusters identities
        only wrote =
      let (cluster_name, user_name, one_cluster, one_user) =
        the_only-parts cfg.current_context cas users contexts ca creds only in
      let (c, only_cluster, safe_c, canonical) =
        cluster_of cfg.clusters cluster_name ca (clusters ∙ ap accepted one_cluster) in
      let (u, only_user, safe_u, taken) =
        user_of cfg.users user_name creds (identities ∙ ap accepted one_user) in
      record {
        source = cfg;
        loaded = loaded;
        small = small;
        cluster_name = cluster_name;
        cluster = c;
        only_cluster = only_cluster;
        safe_cluster = cluster-Safe lib c safe_c;
        ca = ca;
        canonical = canonical;
        user_name = user_name;
        user = u;
        only_user = only_user;
        safe_user = user-Safe lib u safe_u;
        creds = creds;
        taken = taken;
        one_kind = credentials-OneKind lib u creds taken;
        written = written-out name server ca creds out wrote;
      }

  config-Rebuilt :
      (raw name server out : Text) (cfg : SourceConfig)
      → lib.load raw ≡ some cfg
      → length raw ≤ max_size
      → sanitize_config lib name server cfg ≡ accepted out
      → Rebuilt lib raw name server out
  unfolding sanitize_config
  config-Rebuilt raw name server out cfg loaded small h =
      elim (Bool-cases (cfg.extended || cfg.preferences_extended)) [
        | inl e ↦ absurd (ground (arith, rw (sanitize_config, e) at h))
        | inr e ↦
            let (cas, clusters, h1) =
              then_check-accepted (validate_all lib (validate_cluster_entry lib) cfg.clusters) _ _
                (rw (sanitize_config, e) at h) in
            let (users, identities, h2) =
              then_check-accepted (validate_all lib (validate_user_entry lib) cfg.users) _ _ h1 in
            let (contexts, checked, h3) =
              then_check-accepted (validate_all lib (validate_context_entry lib) cfg.contexts) _ _
                h2 in
            let ((ca, creds), only, h4) =
              then_check-accepted (the_only lib cfg.current_context cas users contexts) _ _ h3 in
            parts-Rebuilt raw name server out cfg cas users contexts ca creds loaded small clusters
              identities only h4
      ]

  -- A kubeconfig that is accepted had one cluster and one user, without a field that is not permitted, and the output
  -- is rebuilt from the expected server, the canonical CA bundle and the credentials, which are of one kind.
  pub sanitize-Rebuilt :
      (raw name server out : Text)
      → sanitize lib raw name server ≡ accepted out
      → Rebuilt lib raw name server out
  unfolding sanitize sanitize_loaded
  sanitize-Rebuilt raw name server out h =
      elim (Bool-cases (not (is_set name) || not (is_set server) || not (lib.valid_url server))) [
        | inl bad ↦ absurd (ground (arith, rw (sanitize, bad) at h))
        | inr named ↦ elim (Bool-cases (ltb max_size (length raw))) [
          | inl big ↦ absurd (ground (arith, rw (sanitize, named, big) at h))
          | inr small ↦ elim (Option-cases (lib.load raw)) [
            | inl none_ ↦ absurd (ground (arith, rw (sanitize, named, small, none_) at h))
            | inr (cfg, loaded) ↦
                config-Rebuilt raw name server out cfg loaded (ground (arith, small))
                  (rw (sanitize, named, small, loaded) at h)
          ]
        ]
      ]
