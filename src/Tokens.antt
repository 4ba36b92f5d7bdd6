-- ===== src/Tokens.antt =====
-- internal/controllers/controlplane/ha_k0s_jointoken.go: one k0s controller-join token per joiner. It is minted
-- before the joiner's Machine is created, kept alive while the joiner is pending, and deleted when it is done.
pub mod Issue
pub mod Lifetime
pub mod Ids
pub mod Deletes
pub mod Fate
pub mod Minting
pub mod Issued
pub mod Admission
pub mod Spared
pub mod Actions
use cluster_api_provider_kai.Prelude.{
  ℕ, ◌+◌, Bool, ◌&&◌, ◌||◌, true, false, not, Option, none, some, List, [], ◌∷◌, Text, codes, ltb,
  ◌==◌, if◌then◌else◌, lookup, is_some, keep, length, leb, Result, ok, err, Error, failed, Get,
  found, not_found, no_match, unreadable,
}
use cluster_api_provider_kai.Model.{
  Machine, ConfigRef, ControlPlaneRole, join, init, single, or_else,
}
use cluster_api_provider_kai.Session.{World, Api, Site}
use cluster_api_provider_kai.Etcd.{EtcdStatus, MemberStatus, counts}
use cluster_api_provider_kai.Token.{
  BootstrapToken, Codec, Decoded, decode, TokenSecret, valid_id, is_controller_join_only,
}
use cluster_api_provider_kai.Servers.{EndpointSlice, Url}

-- k0sJoinTokenTTL, k0sJoinTokenRenewWithin and k0sJoinTokenExtendCap, in seconds
abbrev pub k0s_join_token_ttl : ℕ
k0s_join_token_ttl = 3600

abbrev pub k0s_join_token_renew_within : ℕ
k0s_join_token_renew_within = 1800

abbrev pub k0s_join_token_extend_cap : ℕ
k0s_join_token_extend_cap = 86400

-- The join-token Secret of the management cluster: the token, and the ID annotation; "" when missing.
pub record StoredSecret : Type 0 where
  pub token : Text
  pub annotated_id : Text

-- The warnings that are recorded on the control plane, each with the Machine that it names.
pub data Warning : Type 0 where
  no_live_member : Warning
  legacy_token server_unavailable token_missing extension_capped : Text → Warning

-- The state that the join-token steps change: that of the reconcile, the bootstrap-token Secrets of the workload
-- cluster by token ID, the join-token Secret, the KairosConfigs marked in this reconcile, and the warnings
-- (the latest first).
pub record TokenState : Type 0 where
  pub world : World
  pub issued : Text → Option TokenSecret
  pub stored : Option StoredSecret
  pub marked : List Text
  pub warnings : List Warning

-- The calls of an API server that can fail: those of the workload cluster for one token ID, those of the
-- join-token Secret, and the mark of a KairosConfig.
pub data TokenCall : Type 0 where
  check_token create_token undo_create read_done delete_done read_pending patch_pending :
      Text → TokenCall
  read_stored : Site → TokenCall
  read_to_clear clear_stored mark_config : Text → TokenCall
  store_token : TokenCall
  reach_workload : Site → TokenCall

-- A KairosConfig: its role, the token ID stamped on it ("" when there is none), and whether its token is
-- marked as removed.
pub record JoinConfig : Type 0 where
  pub role : ControlPlaneRole
  pub token_id : Text
  pub removed : Bool

-- What the join-token steps are told from outside: the answers of the API servers, and net.IP.String, url.Parse
-- and rand.Int.
pub record TokenApi : Type 0 where
  pub api : Api
  pub codec : Codec
  pub ip_text : Text → Text
  pub parse_url : Text → Option Url
  pub draw : ℕ → Option ℕ
  pub etcd_status : Result EtcdStatus
  pub config : Text → Get JoinConfig
  pub cluster_ca : Result Text
  pub endpoint_slice : Site → Get EndpointSlice
  pub fails : TokenCall → Option Error

-- k0sMemberJoined
unfoldable pub k0s_member_joined : EtcdStatus → Machine → Bool
k0s_member_joined status m = elim m.node_ref [
  | none ↦ false
  | some node ↦ elim (lookup node status) [ none ↦ false | some st ↦ counts st ]
]

-- k0sJoinMember
pub record JoinMember : Type 0 where
  pub machine : Machine
  pub token_id : Text
  pub removed : Bool
  pub joined : Bool
  pub deleting : Bool

abbrev pub pending : JoinMember → Bool
pending m = not m.deleting && not m.joined

-- a Machine whose KairosConfig has a given answer
unfoldable pub has_join_role : ControlPlaneRole → Bool
has_join_role single = false
has_join_role init = false
has_join_role join = true

unfoldable pub join_member : EtcdStatus → Machine → JoinConfig → JoinMember
join_member status m config = record {
  machine = m;
  token_id = config.token_id;
  removed = config.removed;
  joined = k0s_member_joined status m;
  deleting = m.deleting;
}

unfoldable pub names_config : ConfigRef → Bool
names_config ref = ref.kind == codes "KairosConfig" && not (ref.name == codes "")

module _ (t : TokenApi) where
  -- with the members of the Machines behind this one
  unfoldable pub add_member :
      EtcdStatus → Machine → Get JoinConfig → Result (List JoinMember) → Result (List JoinMember)
  add_member status m (found config) (ok rest) =
      if has_join_role config.role then ok (join_member status m config ∷ rest) else ok rest
  add_member status m (found config) (err e) = err e
  add_member status m not_found rest = rest
  add_member status m no_match rest = err failed
  add_member status m unreadable rest = err failed

  -- k0sJoinMembers
  unfoldable pub k0s_join_members : EtcdStatus → List Machine → Result (List JoinMember)
  k0s_join_members status [] = ok []
  k0s_join_members status (m ∷ ms) =
      let rest = k0s_join_members status ms in
      if names_config m.config_ref
      then add_member status m (t.config m.config_ref.name) rest
      else rest

  -- readEtcdStatus and k0sJoinMembers, as both entries call them
  unfoldable pub members_of : Result EtcdStatus → List Machine → Result (List JoinMember)
  members_of (err e) machines = err e
  members_of (ok status) machines = k0s_join_members status machines

  -- workloadClusterCA
  unfoldable pub workload_cluster_ca : Result Text
  workload_cluster_ca = elim t.cluster_ca [
    | err e ↦ err e
    | ok ca ↦ if ca == codes "" then err failed else ok ca
  ]

  -- inspectStoredK0sJoinToken: `none` when the stored text is empty or no join token
  unfoldable pub decoded_of : StoredSecret → Option Decoded
  decoded_of s = if s.token == codes "" then none else decode t.codec s.token

-- supersededIDs
unfoldable pub superseded_ids : Text → Option Decoded → List Text
superseded_ids annotated none = if annotated == codes "" then [] else annotated ∷ []
superseded_ids annotated (some d) =
    let inside = if d.token.id == annotated then [] else d.token.id ∷ [] in
    if annotated == codes "" then inside else annotated ∷ inside

-- The Secret of a token ID is written, or removed.
abbrev pub set_issued : Text → Option TokenSecret → TokenState → TokenState
set_issued id v s = record s { issued = λ j. if j == id then v else s.issued j }

abbrev pub warn : Warning → TokenState → TokenState
warn w s = record s { warnings = w ∷ s.warnings }

abbrev pub set_world : World → TokenState → TokenState
set_world w s = record s { world = w }

module _ (t : TokenApi) where
  -- deleteK0sJoinTokenSecretBestEffort: `call` is the delete.
  unfoldable pub delete_k0s_join_token_secret_best_effort :
      TokenCall → Text → TokenState → Bool × TokenState
  delete_k0s_join_token_secret_best_effort call id s = elim (t.fails call) [
    | some e ↦ (false, s)
    | none ↦ (true, set_issued id none s)
  ]

  -- of the Secret that was read
  unfoldable pub delete_read : Text → Option TokenSecret → TokenState → Bool × TokenState
  delete_read id none s = (true, s)
  delete_read id (some ws) s =
      if is_controller_join_only ws
      then delete_k0s_join_token_secret_best_effort (delete_done id) id s
      else (true, s)

  -- deleteK0sJoinToken
  unfoldable pub delete_k0s_join_token : Text → TokenState → Bool × TokenState
  delete_k0s_join_token id s =
      if not (valid_id id) then (true, s) else elim (t.fails (read_done id)) [
        | some e ↦ (false, s)
        | none ↦ delete_read id (s.issued id) s
      ]
