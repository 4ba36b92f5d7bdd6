-- ===== src/Identity/Checks.antt =====
-- What the identity checks of ha_identity.go guarantee to the membership actions behind them.
use cluster_api_provider_kai.Prelude.{
  ℕ, true, false, none, List, Text, codes, ◌≡◌, ◌≢◌, ==_iff, arith, inl, inr, ◌↔◌, Result-cases, ok,
  err, identity_changed,
}
use cluster_api_provider_kai.Model.{Machine}
use cluster_api_provider_kai.Session.{World, Api, Site, trip_freeze}
use cluster_api_provider_kai.Identity.{
  pin_of, frozen, repinned, frozen_gate, read_workload_identity, verify_workload_identity,
  verify_pinned_workload_identity, trip_identity_freeze, clear_repinned_identity_freeze,
}
use cluster_api_provider_kai.Identity.Reconcile.{
  gate_identity, reconcile_workload_identity, after_clear,
}

-- A connection is verified exactly when the control plane is not frozen, a pin exists, and the
-- apiserver answered with the pin.
pub verify_pinned_workload_identity-ok_iff :
    (api : Api) (site : Site) (via : Text) (w : World)
    → ((verify_pinned_workload_identity api site via w).0 ≡ ok tt) ↔ (
        (frozen w.kcp ≡ false)
        × (pin_of w.kcp ≢ codes "")
        × (read_workload_identity api site via ≡ ok (pin_of w.kcp)))
unfolding verify_pinned_workload_identity
verify_pinned_workload_identity-ok_iff api site via w =
    elim (Result-cases (read_workload_identity api site via)) [
      | inl (u, e) ↦ (
        λ h. ground (arith, ==_iff (pin_of w.kcp) (codes ""), ==_iff u (pin_of w.kcp)),
        λ h. ground (arith, ==_iff (pin_of w.kcp) (codes ""), ==_iff u (pin_of w.kcp)),
      )
      | inr (e, r) ↦ (λ h. ground arith, λ h. cc)
    ]

-- An answer other than the pin refuses the verification as a changed identity and, the marker having
-- been written, leaves the control plane frozen; one that is frozen already is refused, too.
pub verify_workload_identity-mismatch :
    (api : Api) (site : Site) (via u : Text) (w : World)
    → read_workload_identity api site via ≡ ok u
    → pin_of w.kcp ≢ codes ""
    → u ≢ pin_of w.kcp
    → api.kcp_patch (trip_freeze site) ≡ none
    → let (r, w') = verify_workload_identity api site via w in
      (r ≡ err identity_changed) × (frozen w'.kcp ≡ true)
unfolding verify_workload_identity trip_identity_freeze
verify_workload_identity-mismatch api site via u w e pinned differs written = (
  ground (arith, ==_iff (pin_of w.kcp) (codes ""), ==_iff u (pin_of w.kcp)),
  ground (arith, ==_iff (pin_of w.kcp) (codes ""), ==_iff u (pin_of w.kcp)),
)

-- While the freeze is in place and the pin is still the one recorded with it, the gate of a reconcile
-- is frozen and the control plane is left as it is.
pub reconcile_workload_identity-frozen :
    (api : Api) (machines : List Machine) (desired : ℕ) (w : World)
    → frozen w.kcp ≡ true
    → repinned w.kcp ≡ false
    → let (r, w') = reconcile_workload_identity api machines desired w in
      (r ≡ ok frozen_gate) × (w'.kcp ≡ w.kcp) × (w'.actions ≡ w.actions)
unfolding reconcile_workload_identity clear_repinned_identity_freeze after_clear gate_identity
reconcile_workload_identity-frozen api machines desired w f p = ground arith
