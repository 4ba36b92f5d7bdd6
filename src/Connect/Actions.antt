-- ===== src/Connect/Actions.antt =====
-- No search for a verified apiserver (connectVerified of ha_leave_member.go) changes the membership.
use cluster_api_provider_kai.Prelude.{
  List, [], ◌∷◌, Text, Bool, ◌≡◌, refl, ◌∙◌, arith, Result, Result-cases, ok, err, inl, inr,
  identity_changed, identity_not_pinned, name_taken, conflict, failed,
}
use cluster_api_provider_kai.Model.{Machine}
use cluster_api_provider_kai.Session.{World, Api, Site, Exec}
use cluster_api_provider_kai.Identity.{verify_pinned_workload_identity, via_endpoint}
use cluster_api_provider_kai.Identity.Actions.{verify-actions}
use cluster_api_provider_kai.Candidates.{leave_candidate_ips, leave_excluded_hosts}
use cluster_api_provider_kai.Connect.{connect_verified, verified_leave_conn, try_members, tried}

module _ (api : Api) (site : Site) (answers : Text → Bool) where
  verified-actions :
      (via : Text) (w : World)
      → (verify_pinned_workload_identity api site via w).1.actions ≡ w.actions
  unfolding verify_pinned_workload_identity
  verified-actions via w = ground (arith, verify-actions api site via w)

  conn-actions :
      (via : Text) (w : World) → (verified_leave_conn api site answers via w).1.actions ≡ w.actions
  unfolding verified_leave_conn
  conn-actions via w = elim (Result-cases (verify_pinned_workload_identity api site via w).0) [
    | inl (u, e) ↦ ground (arith, verified-actions via w)
    | inr (x, e) ↦ ground (arith, verified-actions via w)
  ]

  tried-actions :
      (r : Result Text) (rest : Exec Text) (w v : World)
      → v.actions ≡ w.actions
      → (rest v).1.actions ≡ v.actions
      → (tried api site answers r rest v).1.actions ≡ w.actions
  unfolding tried
  tried-actions (ok via) rest w v e h = e
  tried-actions (err identity_changed) rest w v e h = e
  tried-actions (err identity_not_pinned) rest w v e h = h ∙ e
  tried-actions (err name_taken) rest w v e h = h ∙ e
  tried-actions (err conflict) rest w v e h = h ∙ e
  tried-actions (err failed) rest w v e h = h ∙ e

  try_members-actions :
      (ips : List Text) (w : World) → (try_members api site answers ips w).1.actions ≡ w.actions
  unfolding try_members
  try_members-actions [] w =
      let (r, v) = verified_leave_conn api site answers via_endpoint w in
      tried-actions r (λ w. (err failed, w)) w v (conn-actions via_endpoint w) refl
  try_members-actions (ip ∷ ips) w =
      let (r, v) = verified_leave_conn api site answers ip w in
      tried-actions r (try_members api site answers ips) w v (conn-actions ip w)
        (try_members-actions ips v)

  pub connect-actions :
      (machines : List Machine) (name : Text) (addresses : List Text) (w : World)
      → (connect_verified api site answers machines name addresses w).1.actions ≡ w.actions
  unfolding connect_verified
  connect-actions machines name addresses w = ground (
    arith,
    try_members-actions
        (leave_candidate_ips api machines name addresses (leave_excluded_hosts api w.kcp)) w,
  )
