-- ===== src/Creation/Outcome.antt =====
-- What one attempt of createControlPlaneMachineNamed leaves behind.
use cluster_api_provider_kai.Prelude.{
  ◌&&◌, true, false, not, List, [], ◌∷◌, Text, codes, ◌≡◌, refl, sym, ap, subst, ◌∙◌, arith, ◌⊎◌,
  inl, inr, Bool-cases, Result, Result-cases, ok, err, Error, failed, name_taken, ◌==◌, ==_refl,
  keep,
}
use cluster_api_provider_kai.Model.{ControlPlane, ControlPlaneRole}
use cluster_api_provider_kai.Session.{create_machine, act}
use cluster_api_provider_kai.Creation.{
  Object, config_object, infra_object, machine_object, clashes, exists, erase, CreationState,
  CreationApi, create_object, cleanup, finish_machine, make_machine, make_infra, make_rest,
  create_named, base_spec, ConfigSpec, apply_control_plane_ha_spec, machine_annotations, Created,
}

clashes_refl : (o : Object) → clashes o o ≡ true
unfolding clashes
clashes_refl (config_object name spec token) = ==_refl name
clashes_refl (infra_object name) = ==_refl name
clashes_refl (machine_object name notes) = ==_refl name

erase_absent : (o : Object) (xs : List Object) → exists o xs ≡ false → erase o xs ≡ xs
unfolding exists erase keep
erase_absent o [] h = refl
erase_absent o (x ∷ xs) h = ground (arith, erase_absent o xs)

-- Erasing what was just created gives back the objects before.
erase_created : (o : Object) (xs : List Object) → exists o xs ≡ false → erase o (o ∷ xs) ≡ xs
unfolding erase keep
erase_created o xs h = ground (arith, clashes_refl o, erase_absent o xs h)

abbrev with_objects : List Object → CreationState → CreationState
with_objects os s = record s { objects = os }

-- how a failure is returned
abbrev failing : Error × CreationState → Result Text × CreationState
failing (e, s) = (err e, s)

module _ (c : CreationApi) (kcp : ControlPlane) where
  named-spec :
      (name : Text) (role : ControlPlaneRole) (token : Text) (spec : ConfigSpec) (s : CreationState)
      → base_spec c kcp ≡ ok spec
      → let config = config_object name (apply_control_plane_ha_spec c kcp role spec) token in
        let (r, s') = create_object c kcp config s in
        create_named c kcp name role token s ≡ make_rest c kcp name config role token r s'
  unfolding create_named
  named-spec name role token spec s h = rw (create_named, h) refl

  -- The object was not there and is now, or nothing has changed.
  create_object-cases :
      (o : Object) (s : CreationState)
      → ((exists o s.objects ≡ false)
          × (create_object c kcp o s ≡ (ok tt, with_objects (o ∷ s.objects) s)))
        ⊎ ((e : Error) × (create_object c kcp o s ≡ (err e, s)))
  unfolding create_object
  create_object-cases o s = elim (Bool-cases (c.create_fails o)) [
    | inl f ↦ inr (failed, rw (create_object, f) refl)
    | inr f ↦ elim (Bool-cases (exists o s.objects)) [
      | inl there ↦ inr (name_taken, rw (create_object, f, there) refl)
      | inr new ↦ inl (new, rw (create_object, f, new) refl)
    ]
  ]

  make_infra-cases :
      (name : Text) (s : CreationState)
      → ((exists (infra_object name) s.objects ≡ false)
          × (make_infra c kcp name s ≡ (ok tt, with_objects (infra_object name ∷ s.objects) s)))
        ⊎ ((e : Error) × (make_infra c kcp name s ≡ (err e, s)))
  unfolding make_infra
  make_infra-cases name s =
      elim (Bool-cases
        (not (c.infra_namespace == codes "") && not (c.infra_namespace == c.namespace))) [
          | inl other ↦ inr (failed, rw (make_infra, other) refl)
          | inr same ↦ elim (Result-cases c.clone) [
            | inr (e, f) ↦ inr (failed, rw (make_infra, same, f) refl)
            | inl (x, f) ↦ elim (create_object-cases (infra_object name) s) [
              | inl (new, made) ↦ inl (new, rw (make_infra, same, f) made)
              | inr (e, none_) ↦ inr (e, rw (make_infra, same, f) none_)
            ]
          ]
        ]

  -- The Machine, its infrastructure and its KairosConfig are made, and nothing else has changed.
  abbrev pub Made :
      Text → ControlPlaneRole → Text → ConfigSpec → CreationState → Created c kcp → Type 0
  Made name role token spec s r = r ≡ (
    ok name,
    record s {
      world = act (create_machine role token) s.world;
      objects =
          machine_object name (machine_annotations c kcp role)
          ∷ infra_object name
          ∷ config_object name (apply_control_plane_ha_spec c kcp role spec) token
          ∷ s.objects;
    },
  )

  module _ (deletes : (o : Object) → c.delete_fails o ≡ false) where
    cleanup_one :
        (o : Object) (os : List Object) (cause : Error) (s : CreationState)
        → exists o s.objects ≡ false
        → cleanup c kcp (o ∷ os) cause (with_objects (o ∷ s.objects) s) ≡ cleanup c kcp os cause s
    unfolding cleanup
    cleanup_one o os cause s new =
        rw (cleanup, deletes o)
          (ap (λ l. cleanup c kcp os cause (with_objects l s)) (erase_created o s.objects new))

    -- An attempt fails and leaves everything as it was, or it makes the three objects.
    abbrev pub Settled : Text → ControlPlaneRole → Text → CreationState → Created c kcp → Type 0
    Settled name role token s r =
        ((e : Error) × (r ≡ (err e, s)))
        ⊎ ((spec : ConfigSpec) × (base_spec c kcp ≡ ok spec) × Made name role token spec s r)

    machine-Settled :
        (name : Text) (role : ControlPlaneRole) (token : Text) (spec : ConfigSpec)
        (s : CreationState)
        → base_spec c kcp ≡ ok spec
        → let config = config_object name (apply_control_plane_ha_spec c kcp role spec) token in
          exists config s.objects ≡ false
          → let s1 = with_objects (config ∷ s.objects) s in
            exists (infra_object name) s1.objects ≡ false
            → Settled name role token s (
                make_machine c kcp name
                  (config ∷ [])
                  role
                  token
                  (ok tt)
                  (with_objects (infra_object name ∷ s1.objects) s1))
    unfolding make_machine finish_machine cleanup
    machine-Settled name role token spec s based new_config new_infra =
        let config = config_object name (apply_control_plane_ha_spec c kcp role spec) token in
        let s1 = with_objects (config ∷ s.objects) s in
        let s2 = with_objects (infra_object name ∷ s1.objects) s1 in
        elim (create_object-cases (machine_object name (machine_annotations c kcp role)) s2) [
          | inl (new, made) ↦ inr (
            spec,
            based,
            ap (λ p. finish_machine c kcp name (infra_object name ∷ config ∷ []) role token p.0 p.1)
                made,
          )
          | inr (e, none_) ↦
              let all =
                cleanup_one (infra_object name) (config ∷ []) e s1 new_infra
                ∙ cleanup_one config [] e s new_config in
              inl (
                e,
                ap
                      (λ p.
                        finish_machine c kcp name (infra_object name ∷ config ∷ []) role token p.0
                          p.1)
                      none_
                    ∙ ap (λ (p : Error × CreationState). failing p) all,
              )
        ]

    rest-Settled :
        (name : Text) (role : ControlPlaneRole) (token : Text) (spec : ConfigSpec)
        (s : CreationState)
        → base_spec c kcp ≡ ok spec
        → let config = config_object name (apply_control_plane_ha_spec c kcp role spec) token in
          exists config s.objects ≡ false
          → Settled name role token s
              (make_rest c kcp name config role token (ok tt) (with_objects (config ∷ s.objects) s))
    unfolding make_rest make_machine cleanup
    rest-Settled name role token spec s based new_config =
        let config = config_object name (apply_control_plane_ha_spec c kcp role spec) token in
        let s1 = with_objects (config ∷ s.objects) s in
        let go = λ (p : Result (Unit {0}) × CreationState).
          make_machine c kcp name (config ∷ []) role token p.0 p.1 in
        elim (make_infra-cases name s1) [
          | inl (new, made) ↦
              subst (λ p. Settled name role token s (go p)) (sym made)
                (machine-Settled name role token spec s based new_config new)
          | inr (e, none_) ↦
              subst (λ p. Settled name role token s (go p)) (sym none_)
                (inl (
                  e,
                  ap (λ (p : Error × CreationState). failing p)
                      (cleanup_one config [] e s new_config),
                ))
        ]

    -- One attempt either fails and leaves every object as it was, or makes the KairosConfig with the role and the
    -- token ID, the infrastructure machine and the Machine, as long as no delete fails.
    pub create_named-Settled :
        (name : Text) (role : ControlPlaneRole) (token : Text) (s : CreationState)
        → Settled name role token s (create_named c kcp name role token s)
    unfolding create_named make_rest
    create_named-Settled name role token s = elim (Result-cases (base_spec c kcp)) [
      | inr (e, r) ↦ inl (e, rw (create_named, r) refl)
      | inl (spec, r) ↦
          let config = config_object name (apply_control_plane_ha_spec c kcp role spec) token in
          let go = λ (p : Result (Unit {0}) × CreationState).
            make_rest c kcp name config role token p.0 p.1 in
          let settled : Settled name role token s (go (create_object c kcp config s)) =
            elim (create_object-cases config s) [
              | inl (new, made) ↦
                  subst (λ p. Settled name role token s (go p)) (sym made)
                    (rest-Settled name role token spec s r new)
              | inr (e, none_) ↦
                  subst (λ p. Settled name role token s (go p)) (sym none_) (inl (e, refl))
            ] in
          subst (λ x. Settled name role token s x) (sym (named-spec name role token spec s r))
            settled
    ]
