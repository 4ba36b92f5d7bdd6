-- ===== src/Examples/Tokened.antt =====
-- Join tokens: one that is generated, encoded and decoded, the servers of an EndpointSlice, and a token that is issued
-- and maintained for a member that has joined.
use cluster_api_provider_kai.Prelude.{
  ℕ, true, false, not, Option, none, some, List, [], ◌∷◌, Text, codes, ◌≡◌, refl, arith, ok, found,
  take, ◌==◌, if◌then◌else◌, keep, map, sort_by, insert_by, text_less, member_of, count_if,
  strip_prefix, lookup,
}
use cluster_api_provider_kai.Model.{Machine, join}
use cluster_api_provider_kai.Candidates.{own_member_address, parse_ips, ips_of}
use cluster_api_provider_kai.Token.{
  BootstrapToken, generate, random_string, charset_at, Codec, Kubeconfig, join_kubeconfig, encode,
  decode, TokenSecret, new_secret, is_controller_join_only, controller_bootstrap_user,
  all_token_chars, is_token_char, valid_id, valid_secret,
}
use cluster_api_provider_kai.Token.Format.{IsToken, Faithful, decode-encode}
use cluster_api_provider_kai.Servers.{
  EndpointSlice, Url, live_k0s_join_servers, k0s_join_server_url, servers_of, scan_endpoints,
  scan_addresses, scan_ip, not_unicast, is_loopback, is_unspecified, is_multicast, out_of_service,
}
use cluster_api_provider_kai.Servers.Reference.{live_k0s_join_servers-reference, unicast_in_service}
use cluster_api_provider_kai.Tokens.{
  TokenState, TokenApi, members_of, JoinMember, has_join_role, join_member, names_config,
  k0s_join_members, add_member, k0s_member_joined, workload_cluster_ca, decoded_of,
}
use cluster_api_provider_kai.Tokens.Issue.{
  ensure_k0s_controller_join_token, with_members, with_stored, with_ca, with_verified, with_servers,
  with_urls, choose, issue_new, mint_k0s_controller_join_token, mint_token, store, after_mint,
  confirm, delete_superseded, any_pending,
}
use cluster_api_provider_kai.Tokens.Lifetime.{reconcile_k0s_join_token_lifetime}
use cluster_api_provider_kai.Tokens.Fate.{Fate, reconcile_k0s_join_token_lifetime-Fate}
use cluster_api_provider_kai.Tokens.Spared.{join_tokens-spare}
use cluster_api_provider_kai.Tokens.Admission.{Admitted, ensure_k0s_controller_join_token-Admitted}
use cluster_api_provider_kai.Identity.{
  verify_workload_identity, read_workload_identity, via_endpoint,
}
use cluster_api_provider_kai.Examples.{
  answering, uid_a, machine_a, machine_b, three, pinned_plane, world_of, all_voting, bare,
}

abbrev draw_seven : ℕ → Option ℕ
draw_seven i = some 7

unfoldable pub token : BootstrapToken
token = record { id = codes "hhhhhh"; secret = codes "hhhhhhhhhhhhhhhh" }

-- A codec for one kubeconfig: its text is its name, and neither base64 nor gzip changes a text.
unfoldable pub codec_for : Kubeconfig → Codec
codec_for cfg = record {
  base64_encode = λ t. t;
  base64_decode = λ t. some t;
  trim_space = λ t. t;
  gzip = λ t. some t;
  gunzip = λ n t. some (take n t);
  write_config = λ c. some (codes "cfg");
  load_config = λ t. some cfg;
}

abbrev joining : Kubeconfig
joining = join_kubeconfig (codes "https://a:9443") (codes "ca") token

faithful : Faithful (codec_for joining) joining (codes "cfg") (codes "cfg")
unfolding codec_for
faithful = record {
  written = refl;
  loaded = refl;
  zipped = refl;
  unzipped = λ n. refl;
  trimmed = refl;
  read_back = refl;
}

token-IsToken : IsToken token
unfolding token valid_id valid_secret all_token_chars is_token_char
token-IsToken = record { id = refl; secret = refl }

decode-encode_example :
    (encode (codec_for joining) (codes "https://a:9443") (codes "ca") token
      ≡ ok ((codec_for joining).base64_encode (codes "cfg")))
    × (decode (codec_for joining) ((codec_for joining).base64_encode (codes "cfg"))
        ≡ some (record {
          server = codes "https://a:9443";
          ca_data = codes "ca";
          user = controller_bootstrap_user;
          token = token;
        }))
decode-encode_example =
    decode-encode (codec_for joining) (codes "https://a:9443") (codes "ca") (codes "cfg")
      (codes "cfg") token faithful (ground arith) token-IsToken

abbrev slice : EndpointSlice
slice = record {
  address_type = codes "IPv4";
  endpoints =
      record {
        ready = none;
        terminating = none;
        addresses = codes "b" ∷ codes "x" ∷ codes "a" ∷ [];
      }
      ∷ record { ready = some false; terminating = none; addresses = codes "c" ∷ [] }
      ∷ [];
}

abbrev parse_any : Text → Option Url
parse_any t = some (record { scheme = codes "https"; hostname = codes "a"; port = codes "9443" })

live_k0s_join_servers-reference_example :
    live_k0s_join_servers (answering uid_a) (λ ip. ip) parse_any three (found slice)
    ≡ ok (record {
      urls = map (k0s_join_server_url (answering uid_a) (λ ip. ip) parse_any) (
          sort_by text_less (
            keep
              (own_member_address (answering uid_a) three)
              (unicast_in_service (answering uid_a) slice.endpoints)));
      unmatched =
          count_if
            (λ ip. not (own_member_address (answering uid_a) three ip))
            (unicast_in_service (answering uid_a) slice.endpoints);
    })
unfolding ◌==◌
live_k0s_join_servers-reference_example =
    live_k0s_join_servers-reference (answering uid_a) (λ ip. ip) parse_any three slice refl

-- the second member has joined with the token "oldtok"
abbrev joined_b : Machine
joined_b = record machine_b {
  config_ref = record { name = codes "b"; kind = codes "KairosConfig"; api_group = codes "" };
}

abbrev members : List Machine
members = machine_a ∷ joined_b ∷ []

unfoldable pub token_api : TokenApi
token_api = record {
  api = answering uid_a;
  codec = codec_for joining;
  ip_text = λ ip. ip;
  parse_url = parse_any;
  draw = draw_seven;
  etcd_status = ok all_voting;
  config = λ name. found (record { role = join; token_id = codes "oldtok"; removed = false });
  cluster_ca = ok (codes "ca");
  endpoint_slice = λ site. found slice;
  fails = λ call. none;
}

abbrev foreign_secret : TokenSecret
foreign_secret = record { kind = codes "Opaque"; values = bare }

unfoldable tokens : TokenState
tokens = record {
  world = world_of pinned_plane;
  issued = λ id.
      if id == codes "oldtok"
      then some (new_secret (answering uid_a) token 9000)
      else if id == codes "others"
      then some foreign_secret
      else none;
  stored = some (record { token = codes ""; annotated_id = codes "" });
  marked = [];
  warnings = [];
}

abbrev member_b : JoinMember
member_b = record {
  machine = joined_b;
  token_id = codes "oldtok";
  removed = false;
  joined = true;
  deleting = false;
}

reconcile_k0s_join_token_lifetime-Fate_example :
    Fate token_api
      (member_b ∷ [])
      (codes "oldtok")
      tokens
      (reconcile_k0s_join_token_lifetime token_api members tokens).1
unfolding token_api members_of k0s_join_members add_member names_config has_join_role join_member
    k0s_member_joined lookup ◌==◌
reconcile_k0s_join_token_lifetime-Fate_example =
    reconcile_k0s_join_token_lifetime-Fate token_api members (member_b ∷ []) tokens (codes "oldtok")
      refl

join_tokens-spare_example :
    ((ensure_k0s_controller_join_token token_api members tokens).1.issued (codes "others")
      ≡ some foreign_secret)
    × ((reconcile_k0s_join_token_lifetime token_api members tokens).1.issued (codes "others")
        ≡ some foreign_secret)
unfolding tokens ◌==◌ is_controller_join_only
join_tokens-spare_example =
    join_tokens-spare token_api (codes "others") foreign_secret refl members tokens refl

ensure_k0s_controller_join_token-Admitted_example :
    Admitted token_api members tokens
      (codes "hhhhhh")
      (ensure_k0s_controller_join_token token_api members tokens).1
unfolding tokens token_api codec_for token ensure_k0s_controller_join_token with_members members_of
    k0s_join_members add_member names_config has_join_role join_member k0s_member_joined lookup ◌==◌
    any_pending with_stored with_ca workload_cluster_ca verify_workload_identity
    read_workload_identity via_endpoint with_verified with_servers with_urls choose decoded_of
    issue_new mint_k0s_controller_join_token generate random_string charset_at mint_token store
    encode after_mint confirm delete_superseded live_k0s_join_servers servers_of scan_endpoints
    scan_addresses scan_ip not_unicast is_loopback is_unspecified is_multicast strip_prefix
    out_of_service own_member_address parse_ips ips_of keep member_of sort_by insert_by text_less
ensure_k0s_controller_join_token-Admitted_example =
    ensure_k0s_controller_join_token-Admitted token_api members tokens (codes "hhhhhh") refl
      (λ e. cc)
