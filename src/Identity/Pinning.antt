-- ===== src/Identity/Pinning.antt =====
-- How the identity of ha_identity.go gets pinned, and what an open gate has established.
use mathlib.Core.Path.{subst}
use cluster_api_provider_kai.Prelude.{
  ℕ, Bool, true, false, none, List, [], ◌∷◌, Text, codes, ◌≡◌, ◌≢◌, ◌⊎◌, refl, ◌==◌, ==_iff, sym,
  ap, ◌∙◌, inl, inr, Bool-cases, ◌&&◌, not, leb, length, if◌then◌else◌, arith, Result, ok, err,
  identity_changed, All, identity_not_pinned, name_taken, conflict, failed,
}
use cluster_api_provider_kai.Model.{Machine, ControlPlane}
use cluster_api_provider_kai.Session.{World, Api}
use cluster_api_provider_kai.Identity.{
  pin_of, frozen, uid_shape, identity_applies, any_registered, open_gate,
  clear_repinned_identity_freeze,
}
use cluster_api_provider_kai.Identity.Reconcile.{
  first_not, pin_answers, gate_identity, reconcile_workload_identity, recheck_answers,
  pin_workload_identity, answered, observe_workload_identity, after_clear,
}

uid_shape-ne-nil : (uid : Text) → uid_shape uid ≡ true → uid ≢ codes ""
unfolding uid_shape
uid_shape-ne-nil [] h e = ground arith
uid_shape-ne-nil (c ∷ s) h e = cc

first_not-none :
    (good : Text → Bool) (answers : List (Text × Text))
    → first_not good answers ≡ none
    → All (λ a. good a.1 ≡ true) answers
unfolding first_not
first_not-none good [] h = tt
first_not-none good ((via, u) ∷ rest) h = ground (arith, first_not-none good rest)

same_answers :
    (pin : Text) (answers : List (Text × Text))
    → All (λ a. (a.1 == pin) ≡ true) answers
    → All (λ a. a.1 ≡ pin) answers
same_answers pin [] h = tt
same_answers pin (a ∷ rest) h = ((==_iff a.1 pin).0 h.0, same_answers pin rest h.1)

-- Every path that answered gave this UID, and it has the shape of one.
pub record Agreed (answers : List (Text × Text)) (pin : Text) : Type 0 where
  pub shaped : uid_shape pin ≡ true
  pub same : All (λ a. a.1 ≡ pin) answers

pin_answers-cases :
    (api : Api) (from first : Text) (rest : List (Text × Text)) (w : World)
    → let (r, w') = pin_answers api ((from, first) ∷ rest) w in
      (r ≡ ok open_gate)
      → (pin_of w'.kcp ≡ first)
        × (frozen w'.kcp ≡ frozen w.kcp)
        × (first_not uid_shape ((from, first) ∷ rest) ≡ none)
        × (first_not (λ u. u == first) rest ≡ none)
        × (w'.actions ≡ w.actions)
unfolding pin_answers
pin_answers-cases api from first rest w h = ground arith

-- Pinning takes a UID only when at least one path answered, the pinned text has the shape of a UID,
-- and every path that answered gave exactly it; it changes no freeze marker.
pub pin_answers-Agreed :
    (api : Api) (answers : List (Text × Text)) (w : World)
    → (pin_answers api answers w).0 ≡ ok open_gate
    → let w' = (pin_answers api answers w).1 in
      Agreed answers (pin_of w'.kcp) × (answers ≢ []) × (frozen w'.kcp ≡ frozen w.kcp)
pin_answers-Agreed api [] w h = unfold pin_answers in ground arith
pin_answers-Agreed api ((from, first) ∷ rest) w h =
    let c = pin_answers-cases api from first rest w h in
    (
      subst (Agreed ((from, first) ∷ rest)) (sym c.0) (record {
        shaped = (first_not-none uid_shape ((from, first) ∷ rest) c.2).0;
        same = (refl, same_answers first rest (first_not-none (λ u. u == first) rest c.3));
      }),
      (λ e. cc),
      c.1,
    )

recheck_answers-open :
    (api : Api) (pin : Text) (answers : List (Text × Text)) (w : World)
    → (recheck_answers api pin answers w).0 ≡ ok open_gate
    → ((recheck_answers api pin answers w).1.kcp ≡ w.kcp) × All (λ a. a.1 ≡ pin) answers
unfolding recheck_answers
recheck_answers-open api pin [] w h = (ground arith, tt)
recheck_answers-open api pin (a ∷ rest) w h = (
  ground arith,
  same_answers pin (a ∷ rest) (first_not-none (λ u. u == pin) (a ∷ rest) (ground arith)),
)

-- What an open gate has established, from the control plane `before` the pass on: no freeze, the pin
-- that was there, and a pin wherever there is etcd membership to protect.
pub record Vouched (machines : List Machine) (desired : ℕ) (before kcp : ControlPlane)
    : Type 0 where
  pub thawed : frozen kcp ≡ false
  pub pinned : (identity_applies before machines desired ≡ false) ⊎ (pin_of kcp ≢ codes "")
  pub kept : pin_of before ≢ codes "" → pin_of kcp ≡ pin_of before

shaped_pin : (pin : Text) → uid_shape pin ≡ true → (pin == codes "") ≡ false
unfolding uid_shape ◌==◌
shaped_pin [] h = ground arith
shaped_pin (c ∷ s) h = refl

pin_workload_identity-open :
    (api : Api) (machines : List Machine) (w : World)
    → (pin_workload_identity api machines w).0 ≡ ok open_gate
    → let w' = (pin_workload_identity api machines w).1 in
      ((pin_of w'.kcp == codes "") ≡ false) × (frozen w'.kcp ≡ frozen w.kcp)
pin_workload_identity-open api machines w h =
    let a =
      pin_answers-Agreed api (answered (observe_workload_identity api w.kcp machines)) w
        (unfold pin_workload_identity in h) in
    unfold pin_workload_identity in (shaped_pin _ a.0.shaped, a.2)

gate-kept :
    (api : Api) (machines : List Machine) (desired : ℕ) (w : World)
    → (gate_identity api machines desired w).0 ≡ ok open_gate
    → (pin_of w.kcp == codes "") ≡ false
    → pin_of (gate_identity api machines desired w).1.kcp ≡ pin_of w.kcp
unfolding gate_identity
gate-kept api machines desired w h was = ground (
  arith,
  recheck_answers-open api (pin_of w.kcp) (answered (observe_workload_identity api w.kcp machines))
      w,
)

gate-pinned :
    (api : Api) (machines : List Machine) (desired : ℕ) (w : World)
    → (gate_identity api machines desired w).0 ≡ ok open_gate
    → (frozen (gate_identity api machines desired w).1.kcp ≡ false)
      × ((identity_applies w.kcp machines desired ≡ false)
          ⊎ ((pin_of (gate_identity api machines desired w).1.kcp == codes "") ≡ false))
unfolding gate_identity
gate-pinned api machines desired w h =
    let opened = pin_workload_identity-open api machines w in
    let checked =
      recheck_answers-open api (pin_of w.kcp)
        (answered (observe_workload_identity api w.kcp machines)) w in
    (ground (arith, opened, checked), ground (arith, opened, checked))

differs : (a b : Text) → (a == b) ≡ false → a ≢ b
differs a b h e = absurd (ground (arith, (==_iff a b).1 e, h))

differs_test : (a b : Text) → a ≢ b → (a == b) ≡ false
differs_test a b h = elim (Bool-cases (a == b)) [
  | inl e ↦ absurd (h ((==_iff a b).0 e))
  | inr e ↦ e
]

applies_by_pin :
    (a b : ControlPlane) (machines : List Machine) (desired : ℕ)
    → pin_of a ≡ pin_of b
    → identity_applies a machines desired ≡ identity_applies b machines desired
unfolding identity_applies
applies_by_pin a b machines desired e =
    ap
      (λ p.
        if not (p == codes "")
        then true
        else if leb desired 1 && leb (length machines) 1
        then false
        else any_registered machines)
      e

-- the gate behind a pass that left the pin as it was
gate_identity-Vouched :
    (api : Api) (machines : List Machine) (desired : ℕ) (before : ControlPlane) (w : World)
    → pin_of w.kcp ≡ pin_of before
    → (gate_identity api machines desired w).0 ≡ ok open_gate
    → Vouched machines desired before (gate_identity api machines desired w).1.kcp
gate_identity-Vouched api machines desired before w same h =
    let (thawed, pinned) = gate-pinned api machines desired w h in
    record {
      thawed = thawed;
      pinned = elim pinned [
        | inl off ↦ inl (sym (applies_by_pin w.kcp before machines desired same) ∙ off)
        | inr set ↦ inr (differs _ _ set)
      ];
      kept = λ was.
          gate-kept api machines desired w h (differs_test _ _ (λ e. was (sym same ∙ e))) ∙ same;
    }

after_clear-Vouched :
    (api : Api) (r : Result (Unit {0})) (machines : List Machine) (desired : ℕ)
    (before : ControlPlane) (w : World)
    → pin_of w.kcp ≡ pin_of before
    → (after_clear api r machines desired w).0 ≡ ok open_gate
    → Vouched machines desired before (after_clear api r machines desired w).1.kcp
unfolding after_clear
after_clear-Vouched api (ok u) machines desired before w same h =
    gate_identity-Vouched api machines desired before w same h
after_clear-Vouched api (err conflict) machines desired before w same h = absurd (ground arith)
after_clear-Vouched api (err identity_changed) machines desired before w same h =
    absurd (ground arith)
after_clear-Vouched api (err identity_not_pinned) machines desired before w same h =
    absurd (ground arith)
after_clear-Vouched api (err name_taken) machines desired before w same h = absurd (ground arith)
after_clear-Vouched api (err failed) machines desired before w same h = absurd (ground arith)

clear-pin :
    (api : Api) (w : World) → pin_of (clear_repinned_identity_freeze api w).1.kcp ≡ pin_of w.kcp
unfolding clear_repinned_identity_freeze
clear-pin api w = ground arith

-- A gate that lets membership actions through leaves a control plane that is not frozen. A pin that it
-- had before the pass it still has, unchanged; and it has one if it wants or has more than one replica
-- and a Machine of it has registered a Node.
pub reconcile_workload_identity-Vouched :
    (api : Api) (machines : List Machine) (desired : ℕ) (w : World)
    → (reconcile_workload_identity api machines desired w).0 ≡ ok open_gate
    → Vouched machines desired w.kcp (reconcile_workload_identity api machines desired w).1.kcp
unfolding reconcile_workload_identity
reconcile_workload_identity-Vouched api machines desired w h =
    after_clear-Vouched api (clear_repinned_identity_freeze api w).0 machines desired w.kcp
      (clear_repinned_identity_freeze api w).1 (clear-pin api w) h
