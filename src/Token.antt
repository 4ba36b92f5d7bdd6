-- ===== src/Token.antt =====
-- internal/k0sjointoken/k0sjointoken.go: the k0s controller-join token, its encoded form, and the
-- bootstrap-token Secret in the workload cluster that backs it.
pub mod Format
use cluster_api_provider_kai.Prelude.{
  ℕ, zero, suc, ◌+◌, ◌-◌, Bool, ◌&&◌, ◌||◌, true, false, not, Option, none, some, List, [], ◌∷◌,
  ◌++◌, Text, String, codes, leb, ltb, eqb, ◌==◌, if◌then◌else◌, length, lookup, Annotations, put,
  Result, ok, err, Error, failed,
}
use cluster_api_provider_kai.Session.{Api}

abbrev pub join_api_port : Text
join_api_port = codes "9443"

abbrev pub controller_bootstrap_user : Text
controller_bootstrap_user = codes "controller-bootstrap"

abbrev pub kubeconfig_name : Text
kubeconfig_name = codes "k0s"

-- the keys of a bootstrap-token Secret
abbrev pub token_id_key : String
token_id_key = "token-id"

abbrev pub token_secret_key : String
token_secret_key = "token-secret"

abbrev pub expiration_key : String
expiration_key = "expiration"

abbrev pub usage_controller_join_key : String
usage_controller_join_key = "usage-bootstrap-controller-join"

abbrev pub legacy_usage_controller_join_key : String
legacy_usage_controller_join_key = "usage-controller-join"

abbrev pub usage_authentication_key : String
usage_authentication_key = "usage-bootstrap-authentication"

abbrev pub usage_signing_key : String
usage_signing_key = "usage-bootstrap-signing"

abbrev pub extra_groups_key : String
extra_groups_key = "auth-extra-groups"

abbrev pub description_key : String
description_key = "description"

-- idLength, secretLength, maxKubeconfigBytes
abbrev pub id_length : ℕ
id_length = 6

abbrev pub secret_length : ℕ
secret_length = 16

abbrev pub max_kubeconfig_bytes : ℕ
max_kubeconfig_bytes = 65536

pub record BootstrapToken : Type 0 where
  pub id : Text
  pub secret : Text

-- [a-z0-9]
unfoldable pub is_token_char : ℕ → Bool
is_token_char c = leb b'a' c && leb c b'z' || leb b'0' c && leb c b'9'

unfoldable pub all_token_chars : Text → Bool
all_token_chars [] = true
all_token_chars (c ∷ s) = is_token_char c && all_token_chars s

-- idPattern
unfoldable pub valid_id : Text → Bool
valid_id id = eqb (length id) id_length && all_token_chars id

unfoldable pub valid_secret : Text → Bool
valid_secret s = eqb (length s) secret_length && all_token_chars s

-- what stands before the first dot, and what stands behind it
unfoldable pub cut_at_dot : Text → Option (Text × Text)
cut_at_dot [] = none
cut_at_dot (c ∷ s) =
    if eqb c b'.'
    then some ([], s)
    else elim (cut_at_dot s) [ none ↦ none | some (a, b) ↦ some (c ∷ a, b) ]

-- tokenPattern: six and sixteen characters of [a-z0-9] about a dot
unfoldable pub of_parts : Option (Text × Text) → Option BootstrapToken
of_parts none = none
of_parts (some (id, secret)) =
    if valid_id id && valid_secret secret then some (record { id = id; secret = secret }) else none

unfoldable pub match_token : Text → Option BootstrapToken
match_token s = of_parts (cut_at_dot s)

-- BootstrapToken.Bearer
unfoldable pub bearer : BootstrapToken → Text
bearer t = t.id ++ (b'.' ∷ t.secret)

unfoldable pub new_bootstrap_token : Text → Text → Option BootstrapToken
new_bootstrap_token id secret = match_token (id ++ (b'.' ∷ secret))

-- charset, at an index below 36
unfoldable pub charset_at : ℕ → ℕ
charset_at i = if ltb i 26 then b'a' + i else b'0' + (i - 26)

-- randomString: `draw` is the i-th call of rand.Int, whose value is below 36.
unfoldable pub random_string : (ℕ → Option ℕ) → ℕ → ℕ → Option Text
random_string draw i zero = some []
random_string draw i (suc n) = elim (draw i) [
  | none ↦ none
  | some v ↦ elim (random_string draw (suc i) n) [ none ↦ none | some s ↦ some (charset_at v ∷ s) ]
]

unfoldable pub generate : (ℕ → Option ℕ) → Result BootstrapToken
generate draw = elim (random_string draw 0 id_length) [
  | none ↦ err failed
  | some id ↦ elim (random_string draw id_length secret_length) [
    | none ↦ err failed
    | some secret ↦ ok (record { id = id; secret = secret })
  ]
]

-- clientcmdapi.Config, as far as a join token uses it; an entry that is nil is left out.
pub record ClusterEntry : Type 0 where
  pub server : Text
  pub ca_data : Text

pub record ContextEntry : Type 0 where
  pub cluster : Text
  pub auth_info : Text

pub record Kubeconfig : Type 0 where
  pub clusters : List (Text × ClusterEntry)
  pub contexts : List (Text × ContextEntry)
  pub current_context : Text
  pub auth_infos : List (Text × Text)

-- base64, gzip and clientcmd. `gunzip` reads at most so many bytes of the stream.
pub record Codec : Type 0 where
  pub base64_encode : Text → Text
  pub base64_decode : Text → Option Text
  pub trim_space : Text → Text
  pub gzip : Text → Option Text
  pub gunzip : ℕ → Text → Option Text
  pub write_config : Kubeconfig → Option Text
  pub load_config : Text → Option Kubeconfig

unfoldable pub join_kubeconfig : Text → Text → BootstrapToken → Kubeconfig
join_kubeconfig server ca t = record {
  clusters = (kubeconfig_name, record { server = server; ca_data = ca }) ∷ [];
  contexts =
      (kubeconfig_name, record { cluster = kubeconfig_name; auth_info = controller_bootstrap_user })
      ∷ [];
  current_context = kubeconfig_name;
  auth_infos = (controller_bootstrap_user, bearer t) ∷ [];
}

-- Decoded
pub record Decoded : Type 0 where
  pub server : Text
  pub ca_data : Text
  pub user : Text
  pub token : BootstrapToken

module _ (codec : Codec) where
  open codec use {base64_encode, base64_decode, trim_space, gzip, gunzip, write_config, load_config}

  unfoldable pub encode : Text → Text → BootstrapToken → Result Text
  encode server ca t = elim (write_config (join_kubeconfig server ca t)) [
    | none ↦ err failed
    | some config ↦ elim (gzip config) [ none ↦ err failed | some z ↦ ok (base64_encode z) ]
  ]

  -- from the kubeconfig on
  unfoldable pub decode_config : Kubeconfig → Option Decoded
  decode_config cfg = elim (lookup cfg.current_context cfg.contexts) [
    | none ↦ none
    | some ctx ↦ elim (lookup ctx.cluster cfg.clusters) [
      | none ↦ none
      | some cluster ↦ elim (lookup ctx.auth_info cfg.auth_infos) [
        | none ↦ none
        | some auth ↦ elim (match_token auth) [
          | none ↦ none
          | some t ↦ some (record {
            server = cluster.server;
            ca_data = cluster.ca_data;
            user = ctx.auth_info;
            token = t;
          })
        ]
      ]
    ]
  ]

  unfoldable pub decode_bytes : Text → Option Decoded
  decode_bytes config =
      if ltb max_kubeconfig_bytes (length config)
      then none
      else elim (load_config config) [ none ↦ none | some cfg ↦ decode_config cfg ]

  -- of what was read of the stream
  unfoldable pub decode_stream : Option Text → Option Decoded
  decode_stream none = none
  decode_stream (some config) = decode_bytes config

  unfoldable pub decode : Text → Option Decoded
  decode encoded = elim (base64_decode (trim_space encoded)) [
    | none ↦ none
    | some raw ↦ decode_stream (gunzip (max_kubeconfig_bytes + 1) raw)
  ]

-- A Secret of kube-system: its type, and its data ("" where a key is missing reads as absent).
pub record TokenSecret : Type 0 where
  pub kind : Text
  pub values : Annotations

abbrev pub bootstrap_token_type : Text
bootstrap_token_type = codes "bootstrap.kubernetes.io/token"

abbrev pub value_of : String → TokenSecret → Text
value_of k s = elim (s.values k) [ none ↦ codes "" | some v ↦ v ]

abbrev pub is_true : Text → Bool
is_true t = t == codes "true"

-- IsControllerJoinOnly
unfoldable pub is_controller_join_only : TokenSecret → Bool
is_controller_join_only s =
    if not (s.kind == bootstrap_token_type)
    then false
    else if not (
        is_true (value_of usage_controller_join_key s)
        || is_true (value_of legacy_usage_controller_join_key s))
    then false
    else if is_true (value_of usage_authentication_key s) || is_true (value_of usage_signing_key s)
    then false
    else value_of extra_groups_key s == codes ""

module _ (api : Api) where
  open api use {format_time, parse_time}

  -- NewSecret
  unfoldable pub new_secret : BootstrapToken → ℕ → TokenSecret
  new_secret t expires = record {
    kind = bootstrap_token_type;
    values = put token_id_key t.id (
        put token_secret_key t.secret (
          put expiration_key (format_time expires) (
            put description_key
              (codes "k0s controller-join token minted by cluster-api-provider-kairos")
              (put usage_controller_join_key (codes "true")
                (put legacy_usage_controller_join_key (codes "true") (λ k. none))))));
  }

  -- Expiry
  unfoldable pub expiry : TokenSecret → Option ℕ
  expiry s =
      if value_of expiration_key s == codes "" then none else parse_time (value_of expiration_key s)

  unfoldable pub set_expiry : ℕ → TokenSecret → TokenSecret
  set_expiry at s = record s { values = put expiration_key (format_time at) s.values }
