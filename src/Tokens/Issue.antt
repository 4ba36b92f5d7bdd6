-- ===== src/Tokens/Issue.antt =====
-- ensureK0sControllerJoinTokenAt of ha_k0s_jointoken.go: the token for the joiner about to be created. The result is
-- its ID; "" holds the joiner back.
use cluster_api_provider_kai.Prelude.{
  ℕ, ◌+◌, Bool, ◌&&◌, ◌||◌, true, false, not, Option, none, some, List, [], ◌∷◌, Text, codes, ltb,
  ◌==◌, if◌then◌else◌, member_of, is_some, Result, ok, err, failed, identity_changed,
  identity_not_pinned, name_taken, conflict,
}
use cluster_api_provider_kai.Model.{Machine}
use cluster_api_provider_kai.Session.{minting, minted}
use cluster_api_provider_kai.Identity.{frozen, via_endpoint, verify_workload_identity}
use cluster_api_provider_kai.Token.{
  BootstrapToken, generate, encode, Decoded, TokenSecret, new_secret, is_controller_join_only,
  value_of, token_secret_key, expiry,
}
use cluster_api_provider_kai.Servers.{JoinServers, live_k0s_join_servers, normalize_k0s_join_server}
use cluster_api_provider_kai.Tokens.{
  StoredSecret, TokenState, TokenApi, JoinMember, pending, members_of, workload_cluster_ca,
  decoded_of, superseded_ids, set_issued, warn, set_world, no_live_member, check_token,
  create_token, undo_create, store_token, read_stored, reach_workload, k0s_join_token_ttl,
  k0s_join_token_renew_within, delete_k0s_join_token, delete_k0s_join_token_secret_best_effort,
}

abbrev Answer : Type 0
Answer = Result Text × TokenState

abbrev pub hold : TokenState → Answer
hold s = (ok (codes ""), s)

unfoldable pub any_pending : List JoinMember → Bool
any_pending [] = false
any_pending (m ∷ ms) = pending m || any_pending ms

-- boundTo[id]: the name of the last Machine with this ID; "" when there is none
unfoldable pub bound_to : Text → Text → List JoinMember → Text
bound_to id name [] = name
bound_to id name (m ∷ ms) =
    bound_to id (if not (m.token_id == codes "") && m.token_id == id then m.machine.name else name)
      ms

module _ (t : TokenApi) where
  abbrev pub late_enough : Option ℕ → Bool
  late_enough none = false
  late_enough (some at) = not (ltb at (t.api.now + k0s_join_token_renew_within))

  abbrev pub is_live : List Text → Option Text → Bool
  is_live live none = false
  is_live live (some server) = member_of server live

  unfoldable pub still_good : Decoded → Text → List Text → TokenSecret → Bool
  still_good d ca live ws =
      is_controller_join_only ws
      && value_of token_secret_key ws == d.token.secret
      && late_enough (expiry t.api ws)
      && is_live live (normalize_k0s_join_server t.api t.ip_text t.parse_url d.server)
      && d.ca_data == ca

  unfoldable pub check_secret : Decoded → Text → List Text → Option TokenSecret → Bool
  check_secret d ca live none = false
  check_secret d ca live (some ws) = still_good d ca live ws

  -- checkIssuedK0sJoinToken: whether the joiner can use the token
  unfoldable pub check_issued_k0s_join_token : Decoded → Text → List Text → TokenState → Result Bool
  check_issued_k0s_join_token d ca live s = elim (t.fails (check_token d.token.id)) [
    | some e ↦ err e
    | none ↦ ok (check_secret d ca live (s.issued d.token.id))
  ]

  -- the token is taken back
  abbrev undo : Text → TokenState → TokenState
  undo id s = (delete_k0s_join_token_secret_best_effort t (undo_create id) id s).1

  unfoldable pub store : Text → Result Text → TokenState → Answer
  store id (err e) s = (err e, undo id s)
  store id (ok encoded) s = elim (t.fails store_token) [
    | some e ↦ (err e, undo id s)
    | none ↦ (ok id, record s { stored = some (record { token = encoded; annotated_id = id }) })
  ]

  -- a create of a Secret that exists fails
  unfoldable pub mint_token : Text → Text → BootstrapToken → TokenState → Answer
  mint_token server ca token s = elim (t.fails (create_token token.id)) [
    | some e ↦ (err e, s)
    | none ↦
        if is_some (s.issued token.id)
        then (err failed, s)
        else store token.id (encode t.codec server ca token)
            (set_issued token.id (some (new_secret t.api token (t.api.now + k0s_join_token_ttl))) s)
  ]

  -- mintK0sControllerJoinToken
  unfoldable pub mint_k0s_controller_join_token : Text → Text → TokenState → Answer
  mint_k0s_controller_join_token server ca s = elim (generate t.draw) [
    | err e ↦ (err e, s)
    | ok token ↦ mint_token server ca token s
  ]

  unfoldable pub delete_superseded : Text → List Text → TokenState → TokenState
  delete_superseded id [] s = s
  delete_superseded id (old ∷ olds) s =
      delete_superseded id olds (if old == id then s else (delete_k0s_join_token t old s).1)

  -- what follows the second read of the identity
  unfoldable pub confirm : Text → List Text → Result (Unit {0}) → TokenState → Answer
  confirm id olds (ok _) s = (ok id, delete_superseded id olds s)
  confirm id olds (err identity_changed) s =
      (err identity_changed, (delete_k0s_join_token t id s).1)
  confirm id olds (err identity_not_pinned) s = hold s
  confirm id olds (err name_taken) s = hold s
  confirm id olds (err conflict) s = hold s
  confirm id olds (err failed) s = hold s

  unfoldable pub after_mint : List Text → Result Text → TokenState → Answer
  after_mint olds (err e) s = hold s
  after_mint olds (ok id) s =
      let (r, w) = verify_workload_identity t.api minted via_endpoint s.world in
      confirm id olds r (set_world w s)

  unfoldable pub issue_new : Text → Text → List Text → TokenState → Answer
  issue_new server ca olds s =
      let (r, s') = mint_k0s_controller_join_token server ca s in after_mint olds r s'

  unfoldable pub reuse : Text → Text → Text → List Text → Result Bool → TokenState → Answer
  reuse id server ca olds (err e) s = hold s
  reuse id server ca olds (ok true) s = (ok id, s)
  reuse id server ca olds (ok false) s = issue_new server ca olds s

  -- the switch on the stored token
  unfoldable pub choose :
      StoredSecret
      → List JoinMember
      → Text
      → Text
      → List Text
      → Option Decoded
      → TokenState
      → Answer
  choose stored members ca server live none s =
      issue_new server ca (superseded_ids stored.annotated_id none) s
  choose stored members ca server live (some d) s =
      if stored.annotated_id == codes ""
        || not (d.token.id == stored.annotated_id)
        || not (bound_to stored.annotated_id (codes "") members == codes "")
      then issue_new server ca (superseded_ids stored.annotated_id (some d)) s
      else reuse stored.annotated_id server ca (superseded_ids stored.annotated_id (some d))
          (check_issued_k0s_join_token d ca live s) s

  unfoldable pub with_urls : StoredSecret → List JoinMember → Text → List Text → TokenState → Answer
  with_urls stored members ca [] s = hold (warn no_live_member s)
  with_urls stored members ca (server ∷ live) s =
      choose stored members ca server (server ∷ live) (decoded_of t stored) s

  unfoldable pub with_servers :
      StoredSecret → List JoinMember → Text → Result JoinServers → TokenState → Answer
  with_servers stored members ca (err e) s = hold s
  with_servers stored members ca (ok servers) s = with_urls stored members ca servers.urls s

  -- what follows the first read of the identity
  unfoldable pub with_verified :
      StoredSecret → List JoinMember → Text → List Machine → Result (Unit {0}) → TokenState → Answer
  with_verified stored members ca machines (ok _) s =
      with_servers stored members ca
        (live_k0s_join_servers t.api t.ip_text t.parse_url machines (t.endpoint_slice minting)) s
  with_verified stored members ca machines (err identity_changed) s = (err identity_changed, s)
  with_verified stored members ca machines (err identity_not_pinned) s = hold s
  with_verified stored members ca machines (err name_taken) s = hold s
  with_verified stored members ca machines (err conflict) s = hold s
  with_verified stored members ca machines (err failed) s = hold s

  unfoldable pub with_ca :
      StoredSecret → List JoinMember → List Machine → Result Text → TokenState → Answer
  with_ca stored members machines (err e) s = hold s
  with_ca stored members machines (ok ca) s = elim (t.fails (reach_workload minting)) [
    | some e ↦ hold s
    | none ↦
        let (r, w) = verify_workload_identity t.api minting via_endpoint s.world in
        with_verified stored members ca machines r (set_world w s)
  ]

  unfoldable pub with_stored :
      List JoinMember → List Machine → Option StoredSecret → TokenState → Answer
  with_stored members machines none s = hold s
  with_stored members machines (some stored) s =
      with_ca stored members machines (workload_cluster_ca t) s

  unfoldable pub with_members : List Machine → Result (List JoinMember) → TokenState → Answer
  with_members machines (err e) s = (err e, s)
  with_members machines (ok members) s =
      if any_pending members then hold s else elim (t.fails (read_stored minting)) [
        | some e ↦ (err e, s)
        | none ↦ with_stored members machines s.stored s
      ]

  unfoldable pub ensure_k0s_controller_join_token : List Machine → TokenState → Answer
  ensure_k0s_controller_join_token machines s =
      if frozen s.world.kcp
      then (err identity_changed, s)
      else with_members machines (members_of t t.etcd_status machines) s
