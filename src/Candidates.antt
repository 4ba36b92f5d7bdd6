-- ===== src/Candidates.antt =====
-- internal/controllers/controlplane/ha_leave_member.go and ownMemberAddresses of
-- ha_k0s_jointoken.go: which member addresses the etcd-leave traffic may go to. An IP is its 16-byte
-- form, so that two texts of one address are one IP.
pub mod Sound
use cluster_api_provider_kai.Prelude.{
  Bool, ◌&&◌, not, true, false, Option, none, some, List, [], ◌∷◌, ◌++◌, map, Text, eqb, ◌==◌,
  if◌then◌else◌, sort_by, text_less, member_of, occurrences, keep,
}
use cluster_api_provider_kai.Model.{Machine, ControlPlane, registered}
use cluster_api_provider_kai.Session.{Api}

pub record Candidate : Type 0 where
  pub ip : Text
  pub registered : Bool

abbrev pub less_candidate : Candidate → Candidate → Bool
less_candidate a b =
    if a.registered
    then (if b.registered then text_less a.ip b.ip else true)
    else if b.registered
    then false
    else text_less a.ip b.ip

-- `seen`: each IP of a Machine is taken once.
unfoldable pub dedupe : List Text → List Text
dedupe [] = []
dedupe (x ∷ xs) = x ∷ keep (λ y. not (y == x)) (dedupe xs)

module _ (api : Api) where
  open api use {parse_ip, is_global_unicast}

  abbrev add_parsed : Option Text → List Text → List Text
  add_parsed none ips = ips
  add_parsed (some ip) ips = ip ∷ ips

  unfoldable pub parse_ips : List Text → List Text
  parse_ips [] = []
  parse_ips (a ∷ as_) = add_parsed (parse_ip a) (parse_ips as_)

  unfoldable pub ips_of : List Machine → List Text
  ips_of [] = []
  ips_of (m ∷ ms) = parse_ips m.addresses ++ ips_of ms

  -- ownMemberAddresses, as the set's membership test
  unfoldable pub own_member_address : List Machine → Text → Bool
  own_member_address machines ip =
      member_of ip (ips_of (keep (λ m. not m.deleting) machines))
      && not (member_of ip (ips_of (keep (λ m. m.deleting) machines)))

  unfoldable pub unicast_ips : Machine → List Text
  unicast_ips m = dedupe (keep is_global_unicast (parse_ips m.addresses))

  -- the Machines that stay, other than the one named `target`
  unfoldable pub staying : Text → List Machine → List Machine
  staying target machines = keep (λ m. not (m.name == target) && not m.deleting) machines

  unfoldable pub reported_ips : List Machine → List Text
  reported_ips [] = []
  reported_ips (m ∷ ms) = unicast_ips m ++ reported_ips ms

  unfoldable pub candidates_of : (Text → Bool) → List Machine → List Candidate
  candidates_of usable [] = []
  candidates_of usable (m ∷ ms) =
      map (λ ip. record { ip = ip; registered = registered m }) (keep usable (unicast_ips m))
      ++ candidates_of usable ms

  -- `target_name` and `target_addresses` are those of the Machine that leaves ("" and none for the
  -- orphan cleanup and the identity reads).
  unfoldable pub leave_candidate_ips : List Machine → Text → List Text → List Text → List Text
  unfolding candidates_of
  leave_candidate_ips machines target_name target_addresses exclude =
      let skip = parse_ips exclude ++ parse_ips target_addresses in
      let stay = staying target_name machines in
      let usable = λ (ip : Text). own_member_address machines ip && not (member_of ip skip) in
      let cands = sort_by less_candidate (candidates_of usable stay) in
      keep (λ ip. eqb (occurrences ip (reported_ips stay)) 1) (map (λ c. c.ip) cands)

  abbrev pub vip_hosts : Option Text → List Text
  vip_hosts none = []
  vip_hosts (some address) = address ∷ []

  -- leaveExcludedHosts
  unfoldable pub leave_excluded_hosts : ControlPlane → List Text
  leave_excluded_hosts kcp = api.endpoint_host ∷ vip_hosts kcp.vip_address
