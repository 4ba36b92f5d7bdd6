-- ===== src/Creation/Attempts.antt =====
-- createControlPlaneMachine: the attempts under fresh names, and what is left behind them.
use cluster_api_provider_kai.Prelude.{
  ℕ, zero, suc, Bool, true, false, Option, none, some, ◌∷◌, Text, ◌≡◌, refl, sym, subst, ◌⊎◌, inl,
  inr, Bool-cases, Result, ok, err, Error, failed, name_taken, identity_changed,
  identity_not_pinned, conflict,
}
use cluster_api_provider_kai.Model.{ControlPlane, ControlPlaneRole}
use cluster_api_provider_kai.Session.{create_machine, act}
use cluster_api_provider_kai.Identity.{frozen}
use cluster_api_provider_kai.Creation.{
  Object, config_object, infra_object, machine_object, CreationState, CreationApi, ConfigSpec,
  apply_control_plane_ha_spec, machine_annotations, new_control_plane_machine_name, base_spec,
  wait_for_machine_in_cache, after_attempt, attempt, try_names, template_hostname_problem,
  create_checked, create_control_plane_machine, later_attempts, Created, Creating,
}
use cluster_api_provider_kai.Creation.Outcome.{create_named-Settled}

-- Nothing was made.
pub record Untouched (c : CreationApi) (kcp : ControlPlane) (s : CreationState) (r : Creating c kcp)
    : Type 0 where
  pub error : Error
  pub refused : r.0 ≡ err error
  pub objects : r.1.objects ≡ s.objects
  pub world : r.1.world ≡ s.world

-- One Machine was made under a fresh name, with its infrastructure and a KairosConfig of this role and token ID, and
-- the result is that of the wait for the cache.
pub record Added (c : CreationApi) (kcp : ControlPlane) (role : ControlPlaneRole) (token : Text)
    (s : CreationState) (r : Creating c kcp) : Type 0 where
  pub draw : ℕ
  pub name : Text
  pub named : name ≡ new_control_plane_machine_name kcp.name (c.suffix draw)
  pub spec : ConfigSpec
  pub based : base_spec c kcp ≡ ok spec
  pub objects :
      r.1.objects
      ≡ machine_object name (machine_annotations c kcp role)
        ∷ infra_object name
        ∷ config_object name (apply_control_plane_ha_spec c kcp role spec) token
        ∷ s.objects
  pub world : r.1.world ≡ act (create_machine role token) s.world
  pub waited : r.0 ≡ wait_for_machine_in_cache c kcp (c.cache_reads name)

module _ (c : CreationApi) (kcp : ControlPlane) (role : ControlPlaneRole) (token : Text)
    (deletes : (o : Object) → c.delete_fails o ≡ false) where
  abbrev Ended : CreationState → Creating c kcp → Type 0
  Ended s r = Untouched c kcp s r ⊎ Added c kcp role token s r

  -- the state behind the draw of a suffix
  abbrev drawn : CreationState → CreationState
  drawn s = record s { tried = suc s.tried }

  refused-Ended : (e : Error) (s : CreationState) → Ended s (err e, drawn s)
  refused-Ended e s = inl (record { error = e; refused = refl; objects = refl; world = refl })

  -- The next attempt starts where nothing was made.
  again-Ended : (s : CreationState) (r : Creating c kcp) → Ended (drawn s) r → Ended s r
  again-Ended s r (inl u) =
      inl (record { error = u.error; refused = u.refused; objects = u.objects; world = u.world })
  again-Ended s r (inr a) = inr (record {
    draw = a.draw;
    name = a.name;
    named = a.named;
    spec = a.spec;
    based = a.based;
    objects = a.objects;
    world = a.world;
    waited = a.waited;
  })

  -- what the next attempt does, if there is one
  abbrev GoesOn : CreationState → Option (CreationState → Creating c kcp) → Type 0
  GoesOn s none = Unit
  GoesOn s (some again) = Ended s (again (drawn s))

  failed-Ended :
      (again : Option (CreationState → Creating c kcp)) (e : Error) (s : CreationState)
      → GoesOn s again
      → Ended s (after_attempt c kcp again (err e) (drawn s))
  unfolding after_attempt
  failed-Ended none e s h = refused-Ended e s
  failed-Ended (some again) name_taken s h = h
  failed-Ended (some again) identity_changed s h = refused-Ended identity_changed s
  failed-Ended (some again) identity_not_pinned s h = refused-Ended identity_not_pinned s
  failed-Ended (some again) conflict s h = refused-Ended conflict s
  failed-Ended (some again) failed s h = refused-Ended failed s

  after-Ended :
      (again : Option (CreationState → Creating c kcp)) (s : CreationState)
      → GoesOn s again
      → (let (r, s') = attempt c kcp role token s in Ended s (after_attempt c kcp again r s'))
  unfolding after_attempt
  after-Ended again s h =
      let name = new_control_plane_machine_name kcp.name (c.suffix s.tried) in
      let go = λ (p : Created c kcp). after_attempt c kcp again p.0 p.1 in
      elim (create_named-Settled c kcp deletes name role token (drawn s)) [
        | inl (e, at) ↦ subst (λ p. Ended s (go p)) (sym at) (failed-Ended again e s h)
        | inr (spec, based, made) ↦
            subst (λ p. Ended s (go p)) (sym made)
              (inr (record {
                draw = s.tried;
                name = name;
                named = refl;
                spec = spec;
                based = based;
                objects = refl;
                world = refl;
                waited = refl;
              }))
      ]

  try_names-Ended : (left : ℕ) (s : CreationState) → Ended s (try_names c kcp left role token s)
  unfolding try_names
  try_names-Ended zero s = after-Ended none s tt
  try_names-Ended (suc left) s =
      after-Ended (some (try_names c kcp left role token)) s
        (again-Ended s (try_names c kcp left role token (drawn s)) (try_names-Ended left (drawn s)))

  checked-Ended :
      (r : Result Bool) (s : CreationState) → Ended s (create_checked c kcp role token r s)
  unfolding create_checked
  checked-Ended (err e) s = inl (record { error = e; refused = refl; objects = refl; world = refl })
  checked-Ended (ok true) s =
      inl (record { error = failed; refused = refl; objects = refl; world = refl })
  checked-Ended (ok false) s = try_names-Ended later_attempts s

  -- As long as no delete fails, the creation of a Machine either fails and leaves every object as it was, or makes
  -- one Machine under a fresh name, with its infrastructure and a KairosConfig that has the role and the token ID.
  pub create_control_plane_machine-Ended :
      (s : CreationState)
      → Untouched c kcp s (create_control_plane_machine c kcp role token s)
        ⊎ Added c kcp role token s (create_control_plane_machine c kcp role token s)
  unfolding create_control_plane_machine
  create_control_plane_machine-Ended s = elim (Bool-cases (frozen kcp)) [
    | inl f ↦
        rw (create_control_plane_machine, f)
          (inl (record { error = identity_changed; refused = refl; objects = refl; world = refl }))
    | inr f ↦
        rw (create_control_plane_machine, f) (checked-Ended (template_hostname_problem c kcp) s)
  ]
