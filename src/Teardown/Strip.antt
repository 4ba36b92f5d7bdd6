-- ===== src/Teardown/Strip.antt =====
-- The writes that the deletion of a control plane makes are to its own Machines.
use cluster_api_provider_kai.Prelude.{
  ℕ, ◌+◌, ◌-◌, Bool, ◌&&◌, ◌||◌, true, not, List, [], ◌∷◌, Text, codes, ◌≡◌, arith, ltb, inl, inr,
  Bool-cases, Result, ok, err, ◌==◌, ==_refl, member_of, if_elim, keep, map, All,
}
use cluster_api_provider_kai.Teardown.{
  OwnedMachine, Written, written, gone, refused, Write, hook_stripped, machine_deleted,
  finalizer_removed, TeardownApi, TeardownState, wrote, owned_by_kcp, strip_one, strip_hooks,
  strip_listed, drain_listed, strip_etcd_leave_hooks, drain_one, drain, drain_owned_machines,
  Deletion, remove_finalizer, after_drain, after_strip, reconcile_delete,
}

-- the names of the Machines of a list that pass a test
unfoldable pub names_of : (OwnedMachine → Bool) → List OwnedMachine → List Text
names_of p ms = map (λ m. m.name) (keep p ms)

abbrev pub listed_of : Result (List OwnedMachine) → List OwnedMachine
listed_of (ok ms) = ms
listed_of (err e) = []

names-here :
    (p : OwnedMachine → Bool) (m : OwnedMachine) (ms : List OwnedMachine)
    → p m ≡ true
    → member_of m.name (names_of p (m ∷ ms)) ≡ true
unfolding names_of keep member_of
names-here p m ms h = rw (keep, h) (ground (arith, ==_refl m.name))

names-later :
    (p : OwnedMachine → Bool) (m : OwnedMachine) (ms : List OwnedMachine) (name : Text)
    → member_of name (names_of p ms) ≡ true
    → member_of name (names_of p (m ∷ ms)) ≡ true
unfolding names_of keep member_of
names-later p m ms name h = elim (Bool-cases (p m)) [
  | inl e ↦ rw (keep, e) (ground (arith, h))
  | inr e ↦ rw (keep, e) h
]

-- The names of the Machines still to come are names of the whole list.
abbrev Among : List Text → List Text → Type 0
Among names all = (name : Text) → member_of name names ≡ true → member_of name all ≡ true

module _ (t : TeardownApi) where
  abbrev pub hooked_ours : OwnedMachine → Bool
  hooked_ours m = owned_by_kcp t.uid m && m.hooked

  abbrev pub staying_ours : OwnedMachine → Bool
  staying_ours m = owned_by_kcp t.uid m && not m.deleting

  -- A hook is stripped of a Machine that is ours and had it; a Machine is deleted that is ours and was not deleted.
  abbrev pub Ours : Write → Type 0
  Ours (hook_stripped name) =
      member_of name (names_of hooked_ours (listed_of t.listed_to_strip)) ≡ true
  Ours (machine_deleted name) =
      member_of name (names_of staying_ours (listed_of t.listed_to_drain)) ≡ true
  Ours finalizer_removed = Unit

  abbrev Kept : {A : Type 0} → A × TeardownState → Type 0
  Kept r = All Ours r.1.writes

  strip_one-Ours :
      (m : OwnedMachine) (w : Written) (rest : TeardownState → Result (Unit {0}) × TeardownState)
      (s : TeardownState)
      → ((v : TeardownState) → All Ours v.writes → Kept (rest v))
      → Ours (hook_stripped m.name)
      → All Ours s.writes
      → Kept (strip_one t m w rest s)
  unfolding strip_one
  strip_one-Ours m written rest s ih now h = ih (wrote (hook_stripped m.name) s) (now, h)
  strip_one-Ours m gone rest s ih now h = ih s h
  strip_one-Ours m (refused e) rest s ih now h = h

  strip_hooks-Ours :
      (ms : List OwnedMachine) (s : TeardownState)
      → Among (names_of hooked_ours ms) (names_of hooked_ours (listed_of t.listed_to_strip))
      → All Ours s.writes
      → Kept (strip_hooks t ms s)
  unfolding strip_hooks
  strip_hooks-Ours [] s among h = h
  strip_hooks-Ours (m ∷ ms) s among h =
      let later : Among (names_of hooked_ours ms)
          (names_of hooked_ours (listed_of t.listed_to_strip)) =
        λ name k. among name (names-later hooked_ours m ms name k) in
      if_elim (λ (r : Result (Unit {0}) × TeardownState). Kept r)
        (not (owned_by_kcp t.uid m) || not m.hooked) _ _ (λ e. strip_hooks-Ours ms s later h)
        (λ e.
          strip_one-Ours m (t.patch m.name) (strip_hooks t ms) s
            (λ v k. strip_hooks-Ours ms v later k)
            (among m.name (names-here hooked_ours m ms (ground (arith, e)))) h)

  strip_listed-Ours :
      (r : Result (List OwnedMachine)) (s : TeardownState)
      → Among
          (names_of hooked_ours (listed_of r))
          (names_of hooked_ours (listed_of t.listed_to_strip))
      → All Ours s.writes
      → Kept (strip_listed t r s)
  unfolding strip_listed
  strip_listed-Ours (err e) s among h = h
  strip_listed-Ours (ok ms) s among h = strip_hooks-Ours ms s among h

  strip-Ours : (s : TeardownState) → All Ours s.writes → Kept (strip_etcd_leave_hooks t s)
  unfolding strip_etcd_leave_hooks
  strip-Ours s h =
      if_elim (λ (r : Result (Unit {0}) × TeardownState). Kept r) (t.cluster_name == codes "") _ _
        (λ e. h) (λ e. strip_listed-Ours t.listed_to_strip s (λ name k. k) h)

  drain_one-Ours :
      (m : OwnedMachine) (w : Written) (rest : ℕ → TeardownState → Result ℕ × TeardownState) (n : ℕ)
      (s : TeardownState)
      → ((k : ℕ) (v : TeardownState) → All Ours v.writes → Kept (rest k v))
      → Ours (machine_deleted m.name)
      → All Ours s.writes
      → Kept (drain_one t m w rest n s)
  unfolding drain_one
  drain_one-Ours m written rest n s ih now h = ih n (wrote (machine_deleted m.name) s) (now, h)
  drain_one-Ours m gone rest n s ih now h = ih (n - 1) s h
  drain_one-Ours m (refused e) rest n s ih now h = h

  drain_list-Ours :
      (ms : List OwnedMachine) (n : ℕ) (s : TeardownState)
      → Among (names_of staying_ours ms) (names_of staying_ours (listed_of t.listed_to_drain))
      → All Ours s.writes
      → Kept (drain t ms n s)
  unfolding drain
  drain_list-Ours [] n s among h = h
  drain_list-Ours (m ∷ ms) n s among h =
      let later : Among (names_of staying_ours ms)
          (names_of staying_ours (listed_of t.listed_to_drain)) =
        λ name k. among name (names-later staying_ours m ms name k) in
      if_elim (λ (r : Result ℕ × TeardownState). Kept r) (not (owned_by_kcp t.uid m)) _ _
        (λ e. drain_list-Ours ms n s later h)
        (λ e.
          if_elim (λ (r : Result ℕ × TeardownState). Kept r) m.deleting _ _
            (λ d. drain_list-Ours ms (n + 1) s later h)
            (λ d.
              drain_one-Ours m (t.delete m.name) (drain t ms) (n + 1) s
                (λ k v g. drain_list-Ours ms k v later g)
                (among m.name (names-here staying_ours m ms (ground (arith, e, d)))) h))

  drain_listed-Ours :
      (r : Result (List OwnedMachine)) (s : TeardownState)
      → Among
          (names_of staying_ours (listed_of r))
          (names_of staying_ours (listed_of t.listed_to_drain))
      → All Ours s.writes
      → Kept (drain_listed t r s)
  unfolding drain_listed
  drain_listed-Ours (err e) s among h = h
  drain_listed-Ours (ok ms) s among h = drain_list-Ours ms 0 s among h

  drain-Ours : (s : TeardownState) → All Ours s.writes → Kept (drain_owned_machines t s)
  unfolding drain_owned_machines
  drain-Ours s h =
      if_elim (λ (r : Result ℕ × TeardownState). Kept r) (t.cluster_name == codes "") _ _ (λ e. h)
        (λ e. drain_listed-Ours t.listed_to_drain s (λ name k. k) h)

  remove_finalizer-Ours :
      (w : Written) (s : TeardownState)
      → All Ours s.writes
      → All Ours (remove_finalizer t w s).2.writes
  unfolding remove_finalizer
  remove_finalizer-Ours written s h = (tt, h)
  remove_finalizer-Ours gone s h = h
  remove_finalizer-Ours (refused e) s h = h

  after_drain-Ours :
      (r : Result ℕ) (s : TeardownState) → All Ours s.writes → All Ours (after_drain t r s).2.writes
  unfolding after_drain
  after_drain-Ours (err e) s h = h
  after_drain-Ours (ok n) s h =
      if_elim (λ (d : Deletion t). All Ours d.2.writes) (ltb 0 n) _ _ (λ e. h)
        (λ e. remove_finalizer-Ours t.update (record s { forgotten = true }) h)

  after_strip-Ours :
      (r : Result (Unit {0})) (s : TeardownState)
      → All Ours s.writes
      → All Ours (after_strip t r s).2.writes
  unfolding after_strip
  after_strip-Ours (err e) s h = h
  after_strip-Ours (ok x) s h =
      let (r, v) = drain_owned_machines t s in after_drain-Ours r v (drain-Ours s h)

  -- The deletion of a control plane writes to its own Machines only: it strips the hook of those listed that have it,
  -- and deletes those listed that are not being deleted. What was written before stays of this kind.
  pub reconcile_delete-Ours :
      (s : TeardownState) → All Ours s.writes → All Ours (reconcile_delete t s).2.writes
  unfolding reconcile_delete
  reconcile_delete-Ours s h =
      let (r, v) = strip_etcd_leave_hooks t s in after_strip-Ours r v (strip-Ours s h)
