-- ===== src/Tokens/Lifetime.antt =====
-- reconcileK0sJoinTokenLifetimeAt of ha_k0s_jointoken.go: the tokens of pending joiners are extended, those of joiners
-- that are done are deleted. The result says whether a joiner is pending.
use cluster_api_provider_kai.Prelude.{
  ℕ, ◌+◌, Bool, ◌&&◌, true, false, not, Option, none, some, List, [], ◌∷◌, map, Text, codes, ltb,
  leb, ◌==◌, if◌then◌else◌, member_of, keep, sort_by, text_less, Result, ok, err,
}
use cluster_api_provider_kai.Model.{Machine}
use cluster_api_provider_kai.Session.{lifetime}
use cluster_api_provider_kai.Candidates.{dedupe}
use cluster_api_provider_kai.Identity.{frozen, via_endpoint, verify_workload_identity}
use cluster_api_provider_kai.Token.{
  TokenSecret, valid_id, is_controller_join_only, expiry, set_expiry,
}
use cluster_api_provider_kai.Servers.{JoinServers, live_k0s_join_servers, normalize_k0s_join_server}
use cluster_api_provider_kai.Tokens.{
  Warning, StoredSecret, TokenState, TokenApi, JoinMember, pending, members_of, decoded_of,
  set_issued, warn, set_world, legacy_token, server_unavailable, token_missing, extension_capped,
  read_pending, patch_pending, read_stored, read_to_clear, clear_stored, mark_config,
  reach_workload, k0s_join_token_ttl, k0s_join_token_renew_within, k0s_join_token_extend_cap,
  delete_k0s_join_token,
}

-- the Machines of the pending joiners with this token
unfoldable pub joiners_of : Text → List JoinMember → List Machine
joiners_of id members = map (λ m. m.machine) (keep (λ m. m.token_id == id) members)

unfoldable pub extendable : List JoinMember → List JoinMember
extendable members = keep (λ m. pending m && not (m.token_id == codes "")) members

unfoldable pub finished : List JoinMember → List JoinMember
finished members =
    keep (λ m. not (pending m) && not (m.token_id == codes "") && not m.removed) members

unfoldable pub pending_ids : List JoinMember → List Text
pending_ids members = sort_by text_less (dedupe (map (λ m. m.token_id) (extendable members)))

unfoldable pub newest : List Machine → ℕ
newest [] = 0
newest (m ∷ ms) = let n = newest ms in if ltb n m.created then m.created else n

unfoldable pub warn_all : (Text → Warning) → List Machine → TokenState → TokenState
warn_all w [] s = s
warn_all w (m ∷ ms) s = warn_all w ms (warn (w m.name) s)

unfoldable pub warn_legacy : List JoinMember → TokenState → TokenState
warn_legacy [] s = s
warn_legacy (m ∷ ms) s =
    warn_legacy ms
      (if pending m && m.token_id == codes "" then warn (legacy_token m.machine.name) s else s)

module _ (t : TokenApi) where
  -- the mark of the member's KairosConfig
  unfoldable pub mark_removed : JoinMember → TokenState → TokenState
  mark_removed m s = elim (t.fails (mark_config m.machine.config_ref.name)) [
    | some e ↦ s
    | none ↦ record s { marked = m.machine.config_ref.name ∷ s.marked }
  ]

  unfoldable pub clear_then_mark : JoinMember → Option StoredSecret → TokenState → TokenState
  clear_then_mark m none s = mark_removed m s
  clear_then_mark m (some stored) s =
      if stored.annotated_id == m.token_id
      then elim (t.fails (clear_stored m.token_id)) [
        | some e ↦ s
        | none ↦
            mark_removed m
              (record s { stored = some (record { token = codes ""; annotated_id = codes "" }) })
      ]
      else mark_removed m s

  unfoldable pub remove_k0s_join_token : JoinMember → TokenState → TokenState
  remove_k0s_join_token m s =
      let (gone, s') = delete_k0s_join_token t m.token_id s in
      if not gone then s' else elim (t.fails (read_to_clear m.token_id)) [
        | some e ↦ s'
        | none ↦ clear_then_mark m s'.stored s'
      ]

  -- The tokens of pending joiners are in use.
  unfoldable pub remove_finished : List Text → List JoinMember → TokenState → TokenState
  remove_finished in_use [] s = s
  remove_finished in_use (m ∷ ms) s =
      remove_finished in_use ms
        (if member_of m.token_id in_use then s else remove_k0s_join_token m s)

  abbrev pub renew_due : Option ℕ → Bool
  renew_due none = false
  renew_due (some at) = ltb at (t.api.now + k0s_join_token_renew_within)

  -- of the Secret that was read
  unfoldable pub extend_read : Text → List Machine → Option TokenSecret → TokenState → TokenState
  extend_read id joiners none s = warn_all token_missing joiners s
  extend_read id joiners (some ws) s =
      if not (is_controller_join_only ws)
      then s
      else if leb (newest joiners + k0s_join_token_extend_cap) t.api.now
      then warn_all extension_capped joiners s
      else if not (renew_due (expiry t.api ws))
      then s
      else elim (t.fails (patch_pending id)) [
        | some e ↦ s
        | none ↦ set_issued id (some (set_expiry t.api (t.api.now + k0s_join_token_ttl) ws)) s
      ]

  unfoldable pub extend_k0s_join_token : Text → List Machine → TokenState → TokenState
  extend_k0s_join_token id joiners s =
      if not (valid_id id) then s else elim (t.fails (read_pending id)) [
        | some e ↦ s
        | none ↦ extend_read id joiners (s.issued id) s
      ]

  -- storedID and storedServer: of a stored token that matches its annotation
  unfoldable pub stored_server : Option StoredSecret → Option (Text × Text)
  stored_server none = none
  stored_server (some stored) = elim (decoded_of t stored) [
    | none ↦ none
    | some d ↦
        if stored.annotated_id == d.token.id
        then elim (normalize_k0s_join_server t.api t.ip_text t.parse_url d.server) [
          | none ↦ none
          | some server ↦ some (stored.annotated_id, server)
        ]
        else none
  ]

  abbrev pub read_server : TokenState → Option (Text × Text)
  read_server s = elim (t.fails (read_stored lifetime)) [
    | some e ↦ none
    | none ↦ stored_server s.stored
  ]

  unfoldable pub server_gone : Text → Option (Text × Text) → Result JoinServers → Bool
  server_gone id none live = false
  server_gone id (some (stored_id, server)) (err e) = false
  server_gone id (some (stored_id, server)) (ok live) =
      id == stored_id && not (member_of server live.urls)

  unfoldable pub extend_all :
      Option (Text × Text)
      → Result JoinServers
      → List JoinMember
      → List Text
      → TokenState
      → TokenState
  extend_all server live members [] s = s
  extend_all server live members (id ∷ ids) s =
      let joiners = joiners_of id members in
      let s' = extend_k0s_join_token id joiners s in
      extend_all server live members ids
        (if server_gone id server live then warn_all server_unavailable joiners s' else s')

  unfoldable pub maintain : List Machine → List JoinMember → TokenState → TokenState
  maintain machines members s =
      let ids = pending_ids members in
      let s' = remove_finished ids (finished members) s in
      extend_all (read_server s')
        (live_k0s_join_servers t.api t.ip_text t.parse_url machines (t.endpoint_slice lifetime))
        (extendable members) ids s'

  unfoldable pub maintain_verified :
      List Machine → List JoinMember → Result (Unit {0}) → TokenState → TokenState
  maintain_verified machines members (err e) s = s
  maintain_verified machines members (ok _) s = maintain machines members s

  abbrev pub any_of {ℓ} : {A : Type ℓ} → List A → Bool
  any_of [] = false
  any_of (x ∷ xs) = true

  unfoldable pub keep_tokens :
      List Machine → Result (List JoinMember) → TokenState → Bool × TokenState
  keep_tokens machines (err e) s = (true, s)
  keep_tokens machines (ok members) s =
      let s' = warn_legacy members s in
      if not (any_of (extendable members)) && not (any_of (finished members))
      then (false, s')
      else elim (t.fails (reach_workload lifetime)) [
        | some e ↦ (any_of (extendable members), s')
        | none ↦
            let (r, w) = verify_workload_identity t.api lifetime via_endpoint s'.world in
            (any_of (extendable members), maintain_verified machines members r (set_world w s'))
      ]

  unfoldable pub reconcile_k0s_join_token_lifetime : List Machine → TokenState → Bool × TokenState
  reconcile_k0s_join_token_lifetime machines s =
      if frozen s.world.kcp
      then (false, s)
      else keep_tokens machines (members_of t t.etcd_status machines) s
