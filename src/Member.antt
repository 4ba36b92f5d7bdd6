-- ===== src/Member.antt =====
-- internal/controllers/controlplane/ha_leave_etcdmember.go: k0s's EtcdMember objects, as far as the
-- controller reads and writes them.
use cluster_api_provider_kai.Prelude.{
  ℕ, zero, suc, ◌+◌, ◌-◌, ◌*◌, ◌/◌, ◌%◌, ◌^◌, Bool, ◌&&◌, not, Option, none, some, List, [], ◌∷◌,
  Text, codes, leb, ltb, eqb, ◌==◌, if◌then◌else◌, member_of,
}
use cluster_api_provider_kai.Model.{Machine, or_else}
use cluster_api_provider_kai.Session.{Api}
use cluster_api_provider_kai.Candidates.{parse_ips}

-- status.peerAddress and status.memberID as written, "" when absent; the status of the Joined
-- condition, when k0s reports one.
pub record EtcdMember : Type 0 where
  pub name : Text
  pub peer_address : Text
  pub member_id : Text
  pub leave : Bool
  pub joined : Option Text

unfoldable pub k0s_etcd_member_not_joined : Text
k0s_etcd_member_not_joined = codes "False"

abbrev pub not_in_etcd : EtcdMember → Bool
not_in_etcd member = or_else member.joined (codes "") == k0s_etcd_member_not_joined

-- strconv.ParseUint(s, 16, 64) and strconv.FormatUint(n, 16)
unfoldable pub hex_value : ℕ → Option ℕ
hex_value c =
    if leb b'0' c && leb c b'9'
    then some (c - b'0')
    else if leb b'a' c && leb c b'f'
    then some (c - b'a' + 10)
    else if leb b'A' c && leb c b'F'
    then some (c - b'A' + 10)
    else none

unfoldable pub parse_digits : ℕ → Text → Option ℕ
unfolding hex_value
parse_digits n [] = some n
parse_digits n (c ∷ s) = elim (hex_value c) [ none ↦ none | some d ↦ parse_digits (n * 16 + d) s ]

unfoldable pub hex_digit : ℕ → ℕ
hex_digit d = if ltb d 10 then b'0' + d else b'a' + (d - 10)

-- sixteen digits hold every 64-bit number
unfoldable pub format_digits : ℕ → ℕ → Text → Text
unfolding hex_digit
format_digits zero n out = out
format_digits (suc fuel) n out =
    let rest = format_digits fuel (n / 16) (hex_digit (n % 16) ∷ out) in
    if eqb n 0 then out else rest

abbrev in_range : ℕ → Option ℕ
in_range n = if eqb n 0 then none else if ltb n (2 ^ 64) then some n else none

abbrev pub then_some : {A B : Type 0} → Option A → (A → Option B) → Option B
then_some none f = none
then_some (some a) f = f a

-- canonicalMemberID: `none` when it is empty, zero or not hexadecimal.
unfoldable pub canonical_member_id : Text → Option Text
unfolding parse_digits format_digits
canonical_member_id [] = none
canonical_member_id (c ∷ s) =
    then_some (parse_digits 0 (c ∷ s))
      λ n. then_some (in_range n) λ id. some (format_digits 16 id [])

-- etcdMemberID
abbrev pub etcd_member_id : EtcdMember → Option Text
etcd_member_id member = canonical_member_id member.member_id

-- net.SplitHostPort keeps the text where it does not apply.
module _ (api : Api) (split_host_port : Text → Option Text) where
  abbrev pub peer_ip : EtcdMember → Option Text
  peer_ip member = api.parse_ip (or_else (split_host_port member.peer_address) member.peer_address)

  -- the first Machine other than the one named that reports the address
  unfoldable pub owner_of_ip : Text → Text → List Machine → Option Text
  owner_of_ip ip target [] = none
  owner_of_ip ip target (m ∷ ms) =
      if not (m.name == target) && member_of ip (parse_ips api m.addresses)
      then some m.name
      else owner_of_ip ip target ms

  -- etcdMemberPeerOwner
  unfoldable pub etcd_member_peer_owner : EtcdMember → List Machine → Text → Option Text
  etcd_member_peer_owner member machines target =
      then_some (peer_ip member) λ ip. owner_of_ip ip target machines
