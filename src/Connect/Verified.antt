-- ===== src/Connect/Verified.antt =====
-- A connection of connectForLeave and connectForOrphans comes from the pinned cluster.
use cluster_api_provider_kai.Prelude.{
  Bool, true, false, List, [], ◌∷◌, Text, codes, ◌≡◌, ◌≢◌, ◌⊎◌, Result, Result-cases, ok, err, ◌∙◌,
  sym, ap, Error, identity_changed, identity_not_pinned, name_taken, conflict, failed, arith, inl,
  inr, refl, if_elim, ◌==◌,
}
use mathlib.Core.Path.{subst}
use cluster_api_provider_kai.Model.{Machine, ControlPlane}
use cluster_api_provider_kai.Session.{World, Api, Site, Exec}
use cluster_api_provider_kai.Candidates.{leave_candidate_ips, leave_excluded_hosts}
use cluster_api_provider_kai.Identity.{
  frozen, pin_of, via_endpoint, verify_pinned_workload_identity, verify_workload_identity,
  read_workload_identity,
}
use cluster_api_provider_kai.Identity.Checks.{verify_pinned_workload_identity-ok_iff}
use cluster_api_provider_kai.Connect.{verified_leave_conn, tried, try_members, connect_verified}

Unit-prop : (x y : Unit {0}) → x ≡ y
Unit-prop x y = refl

module _ (api : Api) (site : Site) (answers : Text → Bool) where
  -- Through `via` the pinned cluster answered, on a control plane that is not frozen.
  pub record Serves (via : Text) (kcp : ControlPlane) : Type 0 where
    pub thawed : frozen kcp ≡ false
    pub pinned : pin_of kcp ≢ codes ""
    pub same : read_workload_identity api site via ≡ ok (pin_of kcp)
    pub reached : answers via ≡ true

  verify-world :
      (via : Text) (w : World)
      → ((verify_pinned_workload_identity api site via w).0 ≡ err identity_changed)
        ⊎ ((verify_pinned_workload_identity api site via w).1 ≡ w)
  unfolding verify_pinned_workload_identity verify_workload_identity
  verify-world via w = elim (Result-cases (read_workload_identity api site via)) [
    | inl (u, e) ↦ ground arith
    | inr (x, e) ↦ ground arith
  ]

  still :
      (via : Text) (w : World)
      → ((verify_pinned_workload_identity api site via w).0 ≢ err identity_changed)
      → (verify_pinned_workload_identity api site via w).1 ≡ w
  still via w h = elim (verify-world via w) [ inl e ↦ absurd (h e) | inr e ↦ e ]

  -- What one attempt comes to: a verified connection, a changed identity, or no answer; but for a
  -- changed identity the world is as it was.
  data Attempt (via : Text) (w : World) (r : Result Text) (v : World) : Type 0 where
    connected : r ≡ ok via → v ≡ w → Serves via w.kcp → Attempt via w r v
    changed : r ≡ err identity_changed → Attempt via w r v
    silent : (e : Error) → r ≡ err e → v ≡ w → Attempt via w r v

  verified_answer : Result (Unit {0}) → World → Text → Result Text × World
  verified_answer r v via = elim r [ ok _ ↦ (ok via, v) | err e ↦ (err e, v) ]

  attempt_verified :
      (via : Text) (w : World) (r : Result (Unit {0}))
      → (verify_pinned_workload_identity api site via w).0 ≡ r
      → answers via ≡ true
      → let v = (verify_pinned_workload_identity api site via w).1 in
        Attempt via w (verified_answer r v via).0 (verified_answer r v via).1
  unfolding verified_answer
  attempt_verified via w (ok x) e reached =
      let s =
        (verify_pinned_workload_identity-ok_iff api site via w).0 (e ∙ ap ok (Unit-prop x tt)) in
      connected refl (still via w (λ k. cc))
        (record { thawed = s.0; pinned = s.1; same = s.2; reached = reached })
  attempt_verified via w (err identity_changed) e reached = changed refl
  attempt_verified via w (err identity_not_pinned) e reached =
      silent identity_not_pinned refl (still via w (λ k. cc))
  attempt_verified via w (err name_taken) e reached = silent name_taken refl (still via w (λ k. cc))
  attempt_verified via w (err conflict) e reached = silent conflict refl (still via w (λ k. cc))
  attempt_verified via w (err failed) e reached = silent failed refl (still via w (λ k. cc))

  attempt :
      (via : Text) (w : World)
      → Attempt via w
          (verified_leave_conn api site answers via w).0
          (verified_leave_conn api site answers via w).1
  unfolding verified_leave_conn verified_answer
  attempt via w =
      if_elim (λ (p : Result Text × World). Attempt via w p.0 p.1) (answers via) _ _
        (λ reached.
          attempt_verified via w (verify_pinned_workload_identity api site via w).0 refl reached)
        (λ unreached. silent failed refl refl)

  -- What a search comes to when it returns a connection.
  abbrev Found : World → Result Text × World → Type 0
  Found w p = (via : Text) → p.0 ≡ ok via → Serves via w.kcp × (p.1 ≡ w)

  silent-Found :
      (x : Error) (w v : World) (rest : Exec Text)
      → v ≡ w
      → Found w (rest w)
      → Found w (tried api site answers (err x) rest v)
  unfolding tried
  silent-Found identity_changed w v rest e h = λ u k. absurd (cc)
  silent-Found identity_not_pinned w v rest e h = rw e h
  silent-Found name_taken w v rest e h = rw e h
  silent-Found conflict w v rest e h = rw e h
  silent-Found failed w v rest e h = rw e h

  tried-Found :
      (via : Text) (w : World) (r : Result Text) (v : World) (rest : Exec Text)
      → Attempt via w r v
      → Found w (rest w)
      → Found w (tried api site answers r rest v)
  tried-Found via w r v rest (connected e same s) h =
      subst (λ (r : Result Text). Found w (tried api site answers r rest v)) (sym e)
        (unfold tried in λ u k. (subst (λ (x : Text). Serves x w.kcp) (cc) s, same))
  tried-Found via w r v rest (changed e) h =
      subst (λ (r : Result Text). Found w (tried api site answers r rest v)) (sym e)
        (unfold tried in λ u k. absurd (cc))
  tried-Found via w r v rest (silent x e same) h =
      subst (λ (r : Result Text). Found w (tried api site answers r rest v)) (sym e)
        (silent-Found x w v rest same h)

  try_members-Found : (ips : List Text) (w : World) → Found w (try_members api site answers ips w)
  unfolding try_members
  try_members-Found [] w =
      let (r, v) = verified_leave_conn api site answers via_endpoint w in
      tried-Found via_endpoint w r v (λ w. (err failed, w)) (attempt via_endpoint w)
        (λ u k. absurd (cc))
  try_members-Found (ip ∷ ips) w =
      let (r, v) = verified_leave_conn api site answers ip w in
      tried-Found ip w r v (try_members api site answers ips) (attempt ip w)
        (try_members-Found ips w)

  -- A connection for the etcd leave or the orphan cleanup is returned only on a control plane that is
  -- not frozen and has a pin, from an apiserver that was reached and answered with exactly that pin,
  -- and finding it changes nothing.
  pub connect_verified-Serves :
      (machines : List Machine) (name : Text) (addresses : List Text) (w : World) (via : Text)
      → (connect_verified api site answers machines name addresses w).0 ≡ ok via
      → Serves via w.kcp × ((connect_verified api site answers machines name addresses w).1 ≡ w)
  unfolding connect_verified
  connect_verified-Serves machines name addresses w =
      if_elim (Found w) (frozen w.kcp) _ _ (λ f u k. absurd (cc))
        λ thawed.
          if_elim (Found w) (pin_of w.kcp == codes "") _ _ (λ f u k. absurd (cc))
            λ pinned.
              try_members-Found
                (leave_candidate_ips api machines name addresses (leave_excluded_hosts api w.kcp)) w

  -- Unless a changed identity was met, the search left the world as it was.
  abbrev Quiet : World → Result Text × World → Type 0
  Quiet w p = p.0 ≢ err identity_changed → p.1 ≡ w

  silent-Quiet :
      (x : Error) (w v : World) (rest : Exec Text)
      → v ≡ w
      → Quiet w (rest w)
      → Quiet w (tried api site answers (err x) rest v)
  unfolding tried
  silent-Quiet identity_changed w v rest e h = λ k. absurd (k refl)
  silent-Quiet identity_not_pinned w v rest e h = rw e h
  silent-Quiet name_taken w v rest e h = rw e h
  silent-Quiet conflict w v rest e h = rw e h
  silent-Quiet failed w v rest e h = rw e h

  tried-Quiet :
      (via : Text) (w : World) (r : Result Text) (v : World) (rest : Exec Text)
      → Attempt via w r v
      → Quiet w (rest w)
      → Quiet w (tried api site answers r rest v)
  tried-Quiet via w r v rest (connected e same s) h =
      subst (λ (r : Result Text). Quiet w (tried api site answers r rest v)) (sym e)
        (unfold tried in λ k. same)
  tried-Quiet via w r v rest (changed e) h =
      subst (λ (r : Result Text). Quiet w (tried api site answers r rest v)) (sym e)
        (unfold tried in λ k. absurd (k refl))
  tried-Quiet via w r v rest (silent x e same) h =
      subst (λ (r : Result Text). Quiet w (tried api site answers r rest v)) (sym e)
        (silent-Quiet x w v rest same h)

  try_members-Quiet : (ips : List Text) (w : World) → Quiet w (try_members api site answers ips w)
  unfolding try_members
  try_members-Quiet [] w =
      let (r, v) = verified_leave_conn api site answers via_endpoint w in
      tried-Quiet via_endpoint w r v (λ w. (err failed, w)) (attempt via_endpoint w) (λ k. refl)
  try_members-Quiet (ip ∷ ips) w =
      let (r, v) = verified_leave_conn api site answers ip w in
      tried-Quiet ip w r v (try_members api site answers ips) (attempt ip w)
        (try_members-Quiet ips w)

  -- A search for a verified apiserver that does not end in a changed identity leaves the reconcile's
  -- state as it was: members that do not answer, or whose identity cannot be read, write nothing.
  pub connect_verified-world :
      (machines : List Machine) (name : Text) (addresses : List Text) (w : World)
      → (connect_verified api site answers machines name addresses w).0 ≢ err identity_changed
      → (connect_verified api site answers machines name addresses w).1 ≡ w
  unfolding connect_verified
  connect_verified-world machines name addresses w =
      if_elim (Quiet w) (frozen w.kcp) _ _ (λ f k. refl)
        λ thawed.
          if_elim (Quiet w) (pin_of w.kcp == codes "") _ _ (λ f k. refl)
            λ pinned.
              try_members-Quiet
                (leave_candidate_ips api machines name addresses (leave_excluded_hosts api w.kcp)) w
