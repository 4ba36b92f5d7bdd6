-- ===== src/Identity/Actions.antt =====
-- No identity step of ha_identity.go changes the membership of the control plane.
use cluster_api_provider_kai.Prelude.{
  ℕ, List, [], ◌∷◌, Text, arith, Result, Result-cases, ok, err, inl, inr, ◌≡◌, refl, ◌∙◌,
}
use cluster_api_provider_kai.Model.{Machine}
use cluster_api_provider_kai.Session.{World, Api, Site, preflight}
use cluster_api_provider_kai.Identity.{
  pin_of, via_endpoint, trip_identity_freeze, read_workload_identity, verify_workload_identity,
  verify_identity_via_endpoint, identity_preflight, clear_repinned_identity_freeze,
}
use cluster_api_provider_kai.Identity.Reconcile.{
  pin_answers, recheck_answers, pin_workload_identity, gate_identity, after_clear, answered,
  observe_workload_identity, reconcile_workload_identity,
}

module _ (api : Api) where
  pub trip-actions :
      (site : Site) (u via pin : Text) (w : World)
      → (trip_identity_freeze api site u via pin w).actions ≡ w.actions
  unfolding trip_identity_freeze
  trip-actions site u via pin w = ground arith

  pub verify-actions :
      (site : Site) (via : Text) (w : World)
      → (verify_workload_identity api site via w).1.actions ≡ w.actions
  unfolding verify_workload_identity
  verify-actions site via w = elim (Result-cases (read_workload_identity api site via)) [
    | inl (u, e) ↦ ground (arith, trip-actions site u via (pin_of w.kcp) w)
    | inr (x, e) ↦ ground arith
  ]

  pub verify_endpoint-actions :
      (site : Site) (w : World) → (verify_identity_via_endpoint api site w).1.actions ≡ w.actions
  unfolding verify_identity_via_endpoint
  verify_endpoint-actions site w = ground (arith, verify-actions site via_endpoint w)

  pub preflight-actions : (w : World) → (identity_preflight api w).1.actions ≡ w.actions
  unfolding identity_preflight
  preflight-actions w = verify_endpoint-actions preflight w

  pin_answers-actions :
      (answers : List (Text × Text)) (w : World) → (pin_answers api answers w).1.actions ≡ w.actions
  unfolding pin_answers trip_identity_freeze
  pin_answers-actions [] w = refl
  pin_answers-actions ((from, u) ∷ rest) w = ground arith

  recheck-actions :
      (pin : Text) (answers : List (Text × Text)) (w : World)
      → (recheck_answers api pin answers w).1.actions ≡ w.actions
  unfolding recheck_answers trip_identity_freeze
  recheck-actions pin answers w = ground arith

  gate-actions :
      (machines : List Machine) (desired : ℕ) (w : World)
      → (gate_identity api machines desired w).1.actions ≡ w.actions
  unfolding gate_identity pin_workload_identity
  gate-actions machines desired w = ground (
    arith,
    pin_answers-actions (answered (observe_workload_identity api w.kcp machines)) w,
    recheck-actions (pin_of w.kcp) (answered (observe_workload_identity api w.kcp machines)) w,
  )

  after_clear-actions :
      (r : Result (Unit {0})) (machines : List Machine) (desired : ℕ) (w : World)
      → (after_clear api r machines desired w).1.actions ≡ w.actions
  unfolding after_clear
  after_clear-actions (ok x) machines desired w = gate-actions machines desired w
  after_clear-actions (err e) machines desired w = ground arith

  clear-actions : (w : World) → (clear_repinned_identity_freeze api w).1.actions ≡ w.actions
  unfolding clear_repinned_identity_freeze
  clear-actions w = ground arith

  pub identity-actions :
      (machines : List Machine) (desired : ℕ) (w : World)
      → (reconcile_workload_identity api machines desired w).1.actions ≡ w.actions
  unfolding reconcile_workload_identity
  identity-actions machines desired w =
      let (r, w') = clear_repinned_identity_freeze api w in
      after_clear-actions r machines desired w' ∙ clear-actions w
