-- ===== src/Sanitize.antt =====
-- internal/kubeconfig/sanitize.go: a kubeconfig that a node pushed is checked and rebuilt, so that it names one
-- cluster, one user and the expected server, and nothing else.
pub mod Bundle
pub mod Fields
pub mod Sound
pub mod Fixed
pub mod Expiry
use cluster_api_provider_kai.Prelude.{
  ℕ, zero, suc, ◌+◌, Bool, ◌&&◌, ◌||◌, true, false, not, Option, none, some, List, [], ◌∷◌, ◌++◌,
  Text, codes, length, ltb, eqb, ◌==◌, if◌then◌else◌,
}

-- clientcmdapi.Cluster, AuthInfo and Context, as far as they are read; `extended` says that there are extensions.
pub record SourceCluster : Type 0 where
  pub server : Text
  pub ca_file : Text
  pub insecure : Bool
  pub proxy_url : Text
  pub tls_server_name : Text
  pub extended : Bool
  pub ca_data : Text

pub record SourceUser : Type 0 where
  pub token_file : Text
  pub cert_file : Text
  pub key_file : Text
  pub exec : Bool
  pub auth_provider : Bool
  pub username : Text
  pub password : Text
  pub impersonates : Bool
  pub extended : Bool
  pub cert_data : Text
  pub key_data : Text
  pub token : Text

pub record SourceContext : Type 0 where
  pub cluster : Text
  pub user : Text
  pub extended : Bool

-- clientcmdapi.Config; each map is listed by its keys in order, and an entry may be empty.
pub record SourceConfig : Type 0 where
  pub extended : Bool
  pub preferences_extended : Bool
  pub clusters : List (Text × Option SourceCluster)
  pub users : List (Text × Option SourceUser)
  pub contexts : List (Text × Option SourceContext)
  pub current_context : Text

-- RejectionReason, and the internal error of a failing write
pub data Reason : Type 0 where
  structure oversized unparseable unsafe_identity unsafe_cluster credentials expired internal :
      Reason

pub data Checked (A : Type 0) : Type 0 where
  accepted : A → Checked A
  rejected : Reason → Checked A

-- clientcmd, url.Parse, pem, x509 and tls. `pem_decode` gives the type and the bytes of the first block, and what
-- follows it; `certificate` says whether the bytes are a certificate, and one of a CA.
pub record Libraries : Type 0 where
  pub load : Text → Option SourceConfig
  pub write : SourceConfig → Option Text
  pub valid_url : Text → Bool
  pub pem_decode : Text → Option ((Text × Text) × Text)
  pub pem_encode : Text → Text
  pub certificate : Text → Option Bool
  pub trim_space : Text → Text
  pub key_pair : Text → Text → Bool

-- MaxSize
abbrev pub max_size : ℕ
max_size = 65536

-- What the loop over the PEM blocks has found: the canonical text, the number of blocks, whether one is a CA, and
-- the rest of the input; or a block that is not accepted.
pub data CaScan : Type 0 where
  scanned : Text → ℕ → Bool → Text → CaScan
  bad_block out_of_fuel : CaScan

-- the credentials of the only user: certificate, key and token
pub record Credentials : Type 0 where
  pub cert_data : Text
  pub key_data : Text
  pub token : Text

abbrev pub is_set : Text → Bool
is_set t = not (t == codes "")

abbrev pub then_check : {A B : Type 0} → Checked A → (A → Checked B) → Checked B
then_check (accepted a) f = f a
then_check (rejected r) f = rejected r

module _ (lib : Libraries) where
  open lib use {load, write, valid_url, pem_decode, pem_encode, certificate, trim_space, key_pair}

  unfoldable pub scan_blocks : ℕ → Text → Text → ℕ → Bool → CaScan
  scan_blocks zero rest canonical blocks saw = out_of_fuel
  scan_blocks (suc fuel) rest canonical blocks saw = elim (pem_decode rest) [
    | none ↦ scanned canonical blocks saw rest
    | some ((kind, bytes), rest') ↦
        if not (kind == codes "CERTIFICATE") then bad_block else elim (certificate bytes) [
          | none ↦ bad_block
          | some is_ca ↦
              scan_blocks fuel rest' (canonical ++ pem_encode bytes) (suc blocks) (saw || is_ca)
        ]
  ]

  unfoldable pub judge_scan : CaScan → Checked Text
  judge_scan bad_block = rejected unsafe_cluster
  judge_scan out_of_fuel = rejected unsafe_cluster
  judge_scan (scanned canonical blocks saw rest) =
      if eqb blocks 0 || is_set (trim_space rest) || not saw
      then rejected unsafe_cluster
      else accepted canonical

  -- validateCABundle; each block takes a character at least.
  unfoldable pub validate_ca_bundle : Text → Checked Text
  validate_ca_bundle bundle = judge_scan (scan_blocks (suc (length bundle)) bundle [] 0 false)

  unfoldable pub unsafe_cluster_fields : SourceCluster → Bool
  unsafe_cluster_fields c =
      is_set c.ca_file
      || c.insecure
      || is_set c.proxy_url
      || is_set c.tls_server_name
      || c.extended
      || not (is_set c.ca_data)

  -- validateClusterEntry
  unfoldable pub validate_cluster_entry : Option SourceCluster → Checked Text
  validate_cluster_entry none = rejected unsafe_cluster
  validate_cluster_entry (some c) =
      if unsafe_cluster_fields c then rejected unsafe_cluster else validate_ca_bundle c.ca_data

  unfoldable pub unsafe_user_fields : SourceUser → Bool
  unsafe_user_fields u =
      is_set u.token_file
      || is_set u.cert_file
      || is_set u.key_file
      || u.exec
      || u.auth_provider
      || is_set u.username
      || is_set u.password
      || u.impersonates
      || u.extended

  unfoldable pub credentials_of : SourceUser → Checked Credentials
  credentials_of u =
      if (is_set u.cert_data || is_set u.key_data) && is_set u.token
      then rejected credentials
      else if is_set u.cert_data || is_set u.key_data
      then (if not (is_set u.cert_data)
            || not (is_set u.key_data)
            || not (key_pair u.cert_data u.key_data)
          then rejected credentials
          else accepted
              (record { cert_data = u.cert_data; key_data = u.key_data; token = codes "" }))
      else if is_set u.token
      then accepted (record { cert_data = codes ""; key_data = codes ""; token = u.token })
      else rejected credentials

  -- validateUserEntry
  unfoldable pub validate_user_entry : Option SourceUser → Checked Credentials
  validate_user_entry none = rejected unsafe_identity
  validate_user_entry (some u) =
      if unsafe_user_fields u then rejected unsafe_identity else credentials_of u

  -- validateContextEntry
  unfoldable pub validate_context_entry : Option SourceContext → Checked SourceContext
  validate_context_entry none = rejected unsafe_identity
  validate_context_entry (some c) = if c.extended then rejected unsafe_identity else accepted c

  -- the entries of a map in order, up to the first that is not accepted
  unfoldable pub validate_all :
      {A B : Type 0} → (Option A → Checked B) → List (Text × Option A) → Checked (List (Text × B))
  validate_all check [] = accepted []
  validate_all check ((name, entry) ∷ rest) =
      then_check (check entry)
        λ b. then_check (validate_all check rest) λ bs. accepted ((name, b) ∷ bs)

  -- validateStructure: the only cluster, user and context refer to each other.
  unfoldable pub the_only :
      Text
      → List (Text × Text)
      → List (Text × Credentials)
      → List (Text × SourceContext)
      → Checked (Text × Credentials)
  the_only current ((cluster, ca) ∷ []) ((user, creds) ∷ []) ((context, c) ∷ []) =
      if c.cluster == cluster && c.user == user && current == context
      then accepted (ca, creds)
      else rejected structure
  the_only current cas users contexts = rejected structure

  unfoldable pub rebuilt : Text → Text → Text → Credentials → SourceConfig
  rebuilt name server ca creds = record {
    extended = false;
    preferences_extended = false;
    clusters =
        (
          name,
          some (record {
            server = server;
            ca_file = codes "";
            insecure = false;
            proxy_url = codes "";
            tls_server_name = codes "";
            extended = false;
            ca_data = ca;
          }),
        )
        ∷ [];
    users =
        (
          name ++ codes "-admin",
          some (record {
            token_file = codes "";
            cert_file = codes "";
            key_file = codes "";
            exec = false;
            auth_provider = false;
            username = codes "";
            password = codes "";
            impersonates = false;
            extended = false;
            cert_data = creds.cert_data;
            key_data = creds.key_data;
            token = creds.token;
          }),
        )
        ∷ [];
    contexts =
        (
          (name ++ codes "-admin") ++ codes "@" ++ name,
          some (record { cluster = name; user = name ++ codes "-admin"; extended = false }),
        )
        ∷ [];
    current_context = (name ++ codes "-admin") ++ codes "@" ++ name;
  }

  unfoldable pub write_out : Text → Text → Text × Credentials → Checked Text
  write_out name server (ca, creds) = elim (write (rebuilt name server ca creds)) [
    | none ↦ rejected internal
    | some out ↦ accepted out
  ]

  -- of the kubeconfig that was loaded
  unfoldable pub sanitize_config : Text → Text → SourceConfig → Checked Text
  sanitize_config name server cfg =
      if cfg.extended || cfg.preferences_extended
      then rejected unsafe_identity
      else then_check (validate_all validate_cluster_entry cfg.clusters) λ cas.
        then_check (validate_all validate_user_entry cfg.users) λ users.
          then_check (validate_all validate_context_entry cfg.contexts) λ contexts.
            then_check (the_only cfg.current_context cas users contexts)
              λ parts. write_out name server parts

  unfoldable pub sanitize_loaded : Text → Text → Option SourceConfig → Checked Text
  sanitize_loaded name server none = rejected unparseable
  sanitize_loaded name server (some cfg) = sanitize_config name server cfg

  -- Sanitize
  unfoldable pub sanitize : Text → Text → Text → Checked Text
  sanitize raw name server =
      if not (is_set name) || not (is_set server) || not (valid_url server)
      then rejected structure
      else if ltb max_size (length raw)
      then rejected oversized
      else sanitize_loaded name server (load raw)

  -- IsFixedPoint
  unfoldable pub is_fixed_point : Text → Text → Text → Checked Bool
  is_fixed_point raw name server =
      then_check (sanitize raw name server) λ out. accepted (raw == out)
