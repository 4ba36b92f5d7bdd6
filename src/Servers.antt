-- ===== src/Servers.antt =====
-- internal/controllers/controlplane/ha_k0s_jointoken.go: the join API URL of a member, and the members that
-- a join token may point at, out of the EndpointSlice that the workload apiserver keeps of itself.
pub mod Reference
use cluster_api_provider_kai.Prelude.{
  ℕ, ◌+◌, Bool, ◌||◌, ◌&&◌, true, false, not, Option, none, some, List, [], ◌∷◌, ◌++◌, map, Text,
  codes, leb, eqb, ◌==◌, if◌then◌else◌, sort_by, text_less, member_of, has_char, strip_prefix,
  Result, ok, err, failed, Get, found, not_found, no_match, unreadable,
}
use cluster_api_provider_kai.Model.{Machine}
use cluster_api_provider_kai.Session.{Api}
use cluster_api_provider_kai.Candidates.{own_member_address}
use cluster_api_provider_kai.Token.{join_api_port}

-- discoveryv1.Endpoint and EndpointSlice, as far as they are read
pub record Endpoint : Type 0 where
  pub ready : Option Bool
  pub terminating : Option Bool
  pub addresses : List Text

pub record EndpointSlice : Type 0 where
  pub address_type : Text
  pub endpoints : List Endpoint

-- url.URL: the scheme, Hostname() and Port()
pub record Url : Type 0 where
  pub scheme : Text
  pub hostname : Text
  pub port : Text

-- net.JoinHostPort, which brackets a host with a colon
unfoldable pub join_host_port : Text → Text → Text
join_host_port host port =
    if has_char b':' host
    then codes "[" ++ host ++ codes "]:" ++ port
    else host ++ codes ":" ++ port

-- net.IP's tests, on the 16-byte form; an IPv4 address stands behind ten zeros and ff ff.
abbrev ipv4_prefix : Text
ipv4_prefix = 0 ∷ 0 ∷ 0 ∷ 0 ∷ 0 ∷ 0 ∷ 0 ∷ 0 ∷ 0 ∷ 0 ∷ 255 ∷ 255 ∷ []

abbrev all_but_last_zero : Text
all_but_last_zero = 0 ∷ 0 ∷ 0 ∷ 0 ∷ 0 ∷ 0 ∷ 0 ∷ 0 ∷ 0 ∷ 0 ∷ 0 ∷ 0 ∷ 0 ∷ 0 ∷ 0 ∷ []

abbrev first_byte : (ℕ → Bool) → Text → Bool
first_byte p [] = false
first_byte p (b ∷ bs) = p b

unfoldable pub is_loopback : Text → Bool
is_loopback ip = elim (strip_prefix ipv4_prefix ip) [
  | some v4 ↦ first_byte (λ b. eqb b 127) v4
  | none ↦ ip == (all_but_last_zero ++ (1 ∷ []))
]

unfoldable pub is_unspecified : Text → Bool
is_unspecified ip =
    ip == (ipv4_prefix ++ (0 ∷ 0 ∷ 0 ∷ 0 ∷ [])) || ip == (all_but_last_zero ++ (0 ∷ []))

unfoldable pub is_multicast : Text → Bool
is_multicast ip = elim (strip_prefix ipv4_prefix ip) [
  | some v4 ↦ first_byte (λ b. leb 224 b && leb b 239) v4
  | none ↦ first_byte (λ b. eqb b 255) ip
]

-- `ip == nil ||` apart
unfoldable pub not_unicast : Text → Bool
not_unicast ip = is_loopback ip || is_unspecified ip || is_multicast ip

unfoldable pub out_of_service : Endpoint → Bool
out_of_service ep = elim ep.ready [
  | some false ↦ true
  | other ↦ elim ep.terminating [ some true ↦ true | rest ↦ false ]
]

-- k0sJoinServers
pub record JoinServers : Type 0 where
  pub urls : List Text
  pub unmatched : ℕ

-- what the loop over the endpoints has collected: `seen`, `ips`, and the addresses of none of
-- our Machines
pub record Scan : Type 0 where
  pub seen : List Text
  pub ips : List Text
  pub unmatched : ℕ

abbrev pub no_scan : Scan
no_scan = record { seen = []; ips = []; unmatched = 0 }

-- `ip_text` is net.IP.String and `parse_url` url.Parse.
module _ (api : Api) (ip_text : Text → Text) (parse_url : Text → Option Url) where
  unfoldable pub k0s_join_server_url : Text → Text
  k0s_join_server_url ip = codes "https://" ++ join_host_port (ip_text ip) join_api_port

  unfoldable pub normalize_k0s_join_server : Text → Option Text
  normalize_k0s_join_server server = elim (parse_url server) [
    | none ↦ none
    | some u ↦
        if not (u.scheme == codes "https") || not (u.port == join_api_port)
        then none
        else elim (api.parse_ip u.hostname) [
          | none ↦ none
          | some ip ↦ some (k0s_join_server_url ip)
        ]
  ]

  unfoldable pub k0s_join_server_host : Text → Text
  k0s_join_server_host server = elim (parse_url server) [ none ↦ codes "" | some u ↦ u.hostname ]

  unfoldable pub scan_ip : List Machine → Text → Scan → Scan
  scan_ip machines ip s =
      if not_unicast ip
      then s
      else if member_of ip s.seen
      then s
      else if own_member_address api machines ip
      then record { seen = ip ∷ s.seen; ips = s.ips ++ (ip ∷ []); unmatched = s.unmatched }
      else record { seen = ip ∷ s.seen; ips = s.ips; unmatched = s.unmatched + 1 }

  abbrev pub scan_parsed : List Machine → Option Text → Scan → Scan
  scan_parsed machines none s = s
  scan_parsed machines (some ip) s = scan_ip machines ip s

  unfoldable pub scan_addresses : List Machine → List Text → Scan → Scan
  scan_addresses machines [] s = s
  scan_addresses machines (a ∷ rest) s =
      scan_addresses machines rest (scan_parsed machines (api.parse_ip a) s)

  unfoldable pub scan_endpoints : List Machine → List Endpoint → Scan → Scan
  scan_endpoints machines [] s = s
  scan_endpoints machines (ep ∷ eps) s =
      scan_endpoints machines eps
        (if out_of_service ep then s else scan_addresses machines ep.addresses s)

  unfoldable pub servers_of : Scan → JoinServers
  servers_of s = record {
    urls = map k0s_join_server_url (sort_by text_less s.ips);
    unmatched = s.unmatched;
  }

  abbrev pub no_servers : JoinServers
  no_servers = record { urls = []; unmatched = 0 }

  -- liveK0sJoinServers
  unfoldable pub live_k0s_join_servers : List Machine → Get EndpointSlice → Result JoinServers
  live_k0s_join_servers machines not_found = ok no_servers
  live_k0s_join_servers machines no_match = err failed
  live_k0s_join_servers machines unreadable = err failed
  live_k0s_join_servers machines (found slice) =
      if not (slice.address_type == codes "IPv4") && not (slice.address_type == codes "IPv6")
      then ok no_servers
      else ok (servers_of (scan_endpoints machines slice.endpoints no_scan))
