-- ===== src/Creation/Bounds.antt =====
-- How often createControlPlaneMachine tries, and how many Machines it makes, whatever fails.
use cluster_api_provider_kai.Prelude.{
  ℕ, zero, suc, ◌+◌, ◌≤◌, Bool, true, false, Option, none, some, List, [], ◌∷◌, Text, ◌≡◌, refl, ap,
  ◌∙◌, arith, ◌⊎◌, inl, inr, Bool-cases, Result, Result-cases, ok, err, Error, failed, name_taken,
  identity_changed, identity_not_pinned, conflict, if_elim,
}
use cluster_api_provider_kai.Model.{ControlPlane, ControlPlaneRole}
use cluster_api_provider_kai.Session.{create_machine, act}
use cluster_api_provider_kai.Identity.{frozen}
use cluster_api_provider_kai.Creation.{
  Object, config_object, infra_object, machine_object, CreationState, CreationApi, create_object,
  cleanup, finish_machine, make_machine, make_infra, make_rest, create_named, base_spec,
  apply_control_plane_ha_spec, machine_annotations, after_attempt, attempt, try_names,
  template_hostname_problem, create_checked, create_control_plane_machine, later_attempts, Creating,
  erase, new_control_plane_machine_name,
}

module _ (c : CreationApi) (kcp : ControlPlane) (role : ControlPlaneRole) (token : Text) where
  -- neither the world nor the count of names has changed
  abbrev Quiet : CreationState → CreationState → Type 0
  Quiet s s' = (s'.tried ≡ s.tried) × (s'.world ≡ s.world)

  create_object-Quiet : (o : Object) (s : CreationState) → Quiet s (create_object c kcp o s).1
  unfolding create_object
  create_object-Quiet o s = (ground arith, ground arith)

  make_infra-Quiet : (name : Text) (s : CreationState) → Quiet s (make_infra c kcp name s).1
  unfolding make_infra create_object
  make_infra-Quiet name s = elim (Result-cases c.clone) [
    | inl (x, e) ↦ (ground (arith, e), ground (arith, e))
    | inr (x, e) ↦ (ground (arith, e), ground (arith, e))
  ]

  cleanup-Quiet :
      (os : List Object) (cause : Error) (s : CreationState) → Quiet s (cleanup c kcp os cause s).1
  unfolding cleanup
  cleanup-Quiet [] cause s = (refl, refl)
  cleanup-Quiet (o ∷ os) cause s =
      if_elim (λ (r : Error × CreationState). Quiet s r.1) (c.delete_fails o) _ _
        (λ e. cleanup-Quiet os failed s)
        (λ e. cleanup-Quiet os cause (record s { objects = erase o s.objects }))

  -- A failure makes no Machine, and a success makes one.
  abbrev Counted : {A : Type 0} → CreationState → Result A × CreationState → Type 0
  Counted {A = A} s r =
      (r.1.tried ≡ s.tried)
      × (((e : Error) × (r.0 ≡ err e) × (r.1.world ≡ s.world))
          ⊎ ((a : A) × (r.0 ≡ ok a) × (r.1.world ≡ act (create_machine role token) s.world)))

  cleaned-Counted :
      (os : List Object) (cause : Error) (s s' : CreationState)
      → Quiet s s'
      → (let (e, s'') = cleanup c kcp os cause s' in Counted {A = Text} s (err e, s''))
  cleaned-Counted os cause s s' (t, w) =
      let (e, s'') = cleanup c kcp os cause s' in
      let (t', w') = cleanup-Quiet os cause s' in (t' ∙ t, inl (e, refl, w' ∙ w))

  finish-Counted :
      (name : Text) (made : List Object) (r : Result (Unit {0})) (s s' : CreationState)
      → Quiet s s'
      → Counted s (finish_machine c kcp name made role token r s')
  unfolding finish_machine
  finish-Counted name made (err e) s s' q = cleaned-Counted made e s s' q
  finish-Counted name made (ok x) s s' (t, w) =
      (t, inr (name, refl, ap (act (create_machine role token)) w))

  machine-Counted :
      (name : Text) (made : List Object) (r : Result (Unit {0})) (s s' : CreationState)
      → Quiet s s'
      → Counted s (make_machine c kcp name made role token r s')
  unfolding make_machine
  machine-Counted name made (err e) s s' q = cleaned-Counted made e s s' q
  machine-Counted name made (ok x) s s' (t, w) =
      let o = machine_object name (machine_annotations c kcp role) in
      let (r, s'') = create_object c kcp o s' in
      let (t', w') = create_object-Quiet o s' in
      finish-Counted name (infra_object name ∷ made) r s s'' (t' ∙ t, w' ∙ w)

  rest-Counted :
      (name : Text) (config : Object) (r : Result (Unit {0})) (s s' : CreationState)
      → Quiet s s'
      → Counted s (make_rest c kcp name config role token r s')
  unfolding make_rest
  rest-Counted name config (err e) s s' (t, w) = (t, inl (e, refl, w))
  rest-Counted name config (ok x) s s' (t, w) =
      let (r, s'') = make_infra c kcp name s' in
      let (t', w') = make_infra-Quiet name s' in
      machine-Counted name (config ∷ []) r s s'' (t' ∙ t, w' ∙ w)

  named-Counted :
      (name : Text) (s : CreationState) → Counted s (create_named c kcp name role token s)
  unfolding create_named
  named-Counted name s = elim (Result-cases (base_spec c kcp)) [
    | inr (e, r) ↦ rw (create_named, r) (refl, inl (e, refl, refl))
    | inl (spec, r) ↦
        let config = config_object name (apply_control_plane_ha_spec c kcp role spec) token in
        let (q, s') = create_object c kcp config s in
        rw (create_named, r) (rest-Counted name config q s s' (create_object-Quiet config s))
  ]

  -- So many names at most have been tried, and one Machine at most was made.
  abbrev Bounded : ℕ → CreationState → Creating c kcp → Type 0
  Bounded n s r =
      (r.1.tried ≤ s.tried + n)
      × ((r.1.world ≡ s.world) ⊎ (r.1.world ≡ act (create_machine role token) s.world))

  abbrev drawn : CreationState → CreationState
  drawn s = record s { tried = suc s.tried }

  abbrev GoesOn : ℕ → CreationState → Option (CreationState → Creating c kcp) → Type 0
  GoesOn n s none = Unit
  GoesOn n s (some again) = (v : CreationState) → Quiet (drawn s) v → Bounded (suc n) s (again v)

  after-Bounded :
      (n : ℕ) (again : Option (CreationState → Creating c kcp)) (s : CreationState)
      (r : Result Text) (v : CreationState)
      → GoesOn n s again
      → Counted (drawn s) (r, v)
      → Bounded (suc n) s (after_attempt c kcp again r v)
  unfolding after_attempt
  after-Bounded n again s (ok name) v h (t, inl (e, r, w)) = absurd (ground (arith, r))
  after-Bounded n again s (ok name) v h (t, inr (a, r, w)) = (omega (arith, t), inr w)
  after-Bounded n again s (err e) v h (t, inr (a, r, w)) = absurd (ground (arith, r))
  after-Bounded n none s (err e) v h (t, inl (f, r, w)) = (omega (arith, t), inl w)
  after-Bounded n (some again) s (err name_taken) v h (t, inl (f, r, w)) = h v (t, w)
  after-Bounded n (some again) s (err identity_changed) v h (t, inl (f, r, w)) =
      (omega (arith, t), inl w)
  after-Bounded n (some again) s (err identity_not_pinned) v h (t, inl (f, r, w)) =
      (omega (arith, t), inl w)
  after-Bounded n (some again) s (err conflict) v h (t, inl (f, r, w)) = (omega (arith, t), inl w)
  after-Bounded n (some again) s (err failed) v h (t, inl (f, r, w)) = (omega (arith, t), inl w)

  further :
      (n : ℕ) (u v : CreationState) (r : Creating c kcp)
      → Quiet (drawn u) v
      → Bounded (suc n) v r
      → Bounded (suc (suc n)) u r
  further n u v r (t, w) (bound, inl same) = (omega (arith, t, bound), inl (same ∙ w))
  further n u v r (t, w) (bound, inr made) =
      (omega (arith, t, bound), inr (made ∙ ap (act (create_machine role token)) w))

  try_names-Bounded :
      (left : ℕ) (s : CreationState) → Bounded (suc left) s (try_names c kcp left role token s)
  unfolding try_names
  try_names-Bounded zero s =
      let (r, v) = attempt c kcp role token s in
      after-Bounded 0 none s r v tt
        (named-Counted (new_control_plane_machine_name kcp.name (c.suffix s.tried)) (drawn s))
  try_names-Bounded (suc left) s =
      let (r, v) = attempt c kcp role token s in
      after-Bounded (suc left) (some (try_names c kcp left role token)) s r v
        (λ u q. further left s u (try_names c kcp left role token u) q (try_names-Bounded left u))
        (named-Counted (new_control_plane_machine_name kcp.name (c.suffix s.tried)) (drawn s))

  checked-Bounded :
      (r : Result Bool) (s : CreationState) → Bounded 5 s (create_checked c kcp role token r s)
  unfolding create_checked
  checked-Bounded (err e) s = (omega arith, inl refl)
  checked-Bounded (ok true) s = (omega arith, inl refl)
  checked-Bounded (ok false) s = try_names-Bounded later_attempts s

  -- The creation of a Machine ends after five names at most, and makes one Machine at most, whatever fails.
  pub create_control_plane_machine_bounded :
      (s : CreationState)
      → let r = create_control_plane_machine c kcp role token s in
        (r.1.tried ≤ s.tried + 5)
        × ((r.1.world ≡ s.world) ⊎ (r.1.world ≡ act (create_machine role token) s.world))
  unfolding create_control_plane_machine
  create_control_plane_machine_bounded s = elim (Bool-cases (frozen kcp)) [
    | inl f ↦ rw (create_control_plane_machine, f) (omega arith, inl refl)
    | inr f ↦
        rw (create_control_plane_machine, f) (checked-Bounded (template_hostname_problem c kcp) s)
  ]
