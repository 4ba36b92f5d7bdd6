-- ===== src/Teardown/Finalizer.antt =====
-- When the finalizer of a control plane goes.
use cluster_api_provider_kai.Prelude.{
  ℕ, ◌+◌, Bool, ◌||◌, true, false, not, List, [], ◌∷◌, Text, codes, ◌≡◌, ◌≢◌, refl, sym, ap, subst,
  ◌∙◌, arith, inl, inr, Bool-cases, Result, ok, err, Error, ◌==◌, if_elim, count_if, All,
}
use cluster_api_provider_kai.Model.{done}
use cluster_api_provider_kai.Teardown.{
  OwnedMachine, Written, written, gone, refused, Write, finalizer_removed, TeardownApi,
  TeardownState, owned_by_kcp, drain_owned_machines, strip_etcd_leave_hooks, Deletion,
  remove_finalizer, after_drain, after_strip, reconcile_delete, strip_one, strip_hooks,
  strip_listed, drain_one, drain, drain_listed,
}
use cluster_api_provider_kai.Teardown.Strip.{listed_of}
use cluster_api_provider_kai.Teardown.Drain.{remains, drain_owned_machines-count}

count_if-zero :
    (p : OwnedMachine → Bool) (ms : List OwnedMachine)
    → count_if p ms ≡ 0
    → All (λ m. p m ≡ false) ms
unfolding count_if
count_if-zero p [] h = tt
count_if-zero p (m ∷ ms) h = elim (Bool-cases (p m)) [
  | inl e ↦ absurd (ground (arith, h, e))
  | inr e ↦ (e, count_if-zero p ms (ground (arith, h, e)))
]

module _ (t : TeardownApi) where
  after_drain-last : (r : Result ℕ) (s : TeardownState) → (after_drain t r s).1 ≡ true → r ≡ ok 0
  unfolding after_drain
  after_drain-last (err e) s h = absurd (ground (arith, h))
  after_drain-last (ok n) s h = ground arith

  after_strip-last :
      (r : Result (Unit {0})) (s : TeardownState)
      → (after_strip t r s).1 ≡ true
      → (r ≡ ok tt) × ((drain_owned_machines t s).0 ≡ ok 0)
  unfolding after_strip
  after_strip-last (err e) s h = absurd (ground (arith, h))
  after_strip-last (ok x) s h =
      let (r, v) = drain_owned_machines t s in (refl, after_drain-last r v h)

  -- The deletion of a control plane with a cluster name comes to the finalizer only behind a strip of the hooks without
  -- an error and a drain whose list of Machines has none of ours but those that were gone when they were deleted.
  pub reconcile_delete-last :
      (s : TeardownState)
      → t.cluster_name ≢ codes ""
      → (reconcile_delete t s).1 ≡ true
      → ((strip_etcd_leave_hooks t s).0 ≡ ok tt)
        × ((ms : List OwnedMachine) × (t.listed_to_drain ≡ ok ms)
            × All (λ m. remains t m ≡ false) ms)
  unfolding reconcile_delete
  reconcile_delete-last s named h =
      let (r, v) = strip_etcd_leave_hooks t s in
      let (stripped, none_left) = after_strip-last r v h in
      let (ms, read, zero_) = drain_owned_machines-count t 0 v named none_left in
      (stripped, (ms, read, count_if-zero (remains t) ms (sym zero_)))

  strip_hooks-ok :
      (ms : List OwnedMachine) (s : TeardownState)
      → ((name : Text) (e : Error) → t.patch name ≢ refused e)
      → (strip_hooks t ms s).0 ≡ ok tt
  unfolding strip_hooks
  strip_hooks-ok [] s h = refl
  strip_hooks-ok (m ∷ ms) s h =
      if_elim (λ (r : Result (Unit {0}) × TeardownState). r.0 ≡ ok tt)
        (not (owned_by_kcp t.uid m) || not m.hooked) _ _ (λ e. strip_hooks-ok ms s h)
        (λ e. stripped (t.patch m.name) (λ v. strip_hooks-ok ms v h) (h m.name))
    where
      stripped :
          (w : Written)
          → ((v : TeardownState) → (strip_hooks t ms v).0 ≡ ok tt)
          → ((e : Error) → w ≢ refused e)
          → (strip_one t m w (strip_hooks t ms) s).0 ≡ ok tt
      stripped written ih never = unfold strip_one in ih _
      stripped gone ih never = unfold strip_one in ih _
      stripped (refused e) ih never = absurd (never e refl)

  drain_list-ok :
      (ms : List OwnedMachine) (n : ℕ) (s : TeardownState)
      → ((name : Text) (e : Error) → t.delete name ≢ refused e)
      → (r : ℕ) × ((drain t ms n s).0 ≡ ok r)
  unfolding drain
  drain_list-ok [] n s h = (n, refl)
  drain_list-ok (m ∷ ms) n s h = elim (Bool-cases (owned_by_kcp t.uid m)) [
    | inr e ↦ rw (drain, e) (drain_list-ok ms n s h)
    | inl e ↦
        if_elim (λ (d : Result ℕ × TeardownState). (r : ℕ) × (d.0 ≡ ok r))
          (not (owned_by_kcp t.uid m)) _ _ (λ f. absurd (ground (arith, e, f)))
          (λ f.
            if_elim (λ (d : Result ℕ × TeardownState). (r : ℕ) × (d.0 ≡ ok r)) m.deleting _ _
              (λ d. drain_list-ok ms _ s h)
              (λ d. drained (t.delete m.name) (n + 1) (λ k v. drain_list-ok ms k v h) (h m.name)))
  ]
    where
      drained :
          (w : Written) (i : ℕ)
          → ((k : ℕ) (v : TeardownState) → (r : ℕ) × ((drain t ms k v).0 ≡ ok r))
          → ((e : Error) → w ≢ refused e)
          → (r : ℕ) × ((drain_one t m w (drain t ms) i s).0 ≡ ok r)
      drained written i ih never = unfold drain_one in ih _ _
      drained gone i ih never = unfold drain_one in ih _ _
      drained (refused e) i ih never = absurd (never e refl)

-- The API servers refuse nothing, the lists are read, and no Machine of ours remains among those listed.
pub record Finished (t : TeardownApi) : Type 0 where
  pub patches : (name : Text) (e : Error) → t.patch name ≢ refused e
  pub deletes : (name : Text) (e : Error) → t.delete name ≢ refused e
  pub updates : t.update ≡ written
  pub to_strip : List OwnedMachine
  pub strip_read : t.listed_to_strip ≡ ok to_strip
  pub to_drain : List OwnedMachine
  pub drain_read : t.listed_to_drain ≡ ok to_drain
  pub none_left : All (λ m. remains t m ≡ false) to_drain

module _ (t : TeardownApi) (f : Finished t) where
  none-count :
      (ms : List OwnedMachine) → All (λ m. remains t m ≡ false) ms → count_if (remains t) ms ≡ 0
  unfolding count_if
  none-count [] h = refl
  none-count (m ∷ ms) h = ground (arith, h.0, none-count ms h.1)

  strip-ok : (s : TeardownState) → (strip_etcd_leave_hooks t s).0 ≡ ok tt
  unfolding strip_etcd_leave_hooks strip_listed
  strip-ok s =
      if_elim (λ (r : Result (Unit {0}) × TeardownState). r.0 ≡ ok tt) (t.cluster_name == codes "")
        _ _ (λ e. refl)
        (λ e.
          subst (λ r. (strip_listed t r s).0 ≡ ok tt) (sym f.strip_read)
            (strip_hooks-ok t f.to_strip s f.patches))

  drain-zero : (s : TeardownState) → t.cluster_name ≢ codes "" → (drain_owned_machines t s).0 ≡ ok 0
  unfolding drain_owned_machines drain_listed
  drain-zero s named =
      let (n, e) =
        if_elim (λ (d : Result ℕ × TeardownState). (n : ℕ) × (d.0 ≡ ok n))
          (t.cluster_name == codes "") _ _ (λ e. (0, refl))
          (λ e.
            subst (λ r. (n : ℕ) × ((drain_listed t r s).0 ≡ ok n)) (sym f.drain_read)
              (drain_list-ok t f.to_drain 0 s f.deletes)) in
      let (ms, read, count) = drain_owned_machines-count t n s named e in
      let same : ms ≡ f.to_drain = lists_same (sym read ∙ f.drain_read) in
      e ∙ ap ok (count ∙ ap (count_if (remains t)) same ∙ none-count f.to_drain f.none_left)
    where
      lists_same : {xs ys : List OwnedMachine} → ok xs ≡ ok ys → xs ≡ ys
      lists_same {xs = xs} h = ap listed_of h

  abbrev Ends : Deletion t → Type 0
  Ends d = (d.0 ≡ ok done) × ((rest : List Write) × (d.2.writes ≡ finalizer_removed ∷ rest))

  removed-Ends : (w : Written) (u : TeardownState) → w ≡ written → Ends (remove_finalizer t w u)
  unfolding remove_finalizer
  removed-Ends w u e = subst (λ x. Ends (remove_finalizer t x u)) (sym e) (refl, (u.writes, refl))

  drained-Ends : (r : Result ℕ) (u : TeardownState) → r ≡ ok 0 → Ends (after_drain t r u)
  unfolding after_drain
  drained-Ends r u e =
      subst (λ x. Ends (after_drain t x u)) (sym e)
        (removed-Ends t.update (record u { forgotten = true }) f.updates)

  stripped-Ends :
      (r : Result (Unit {0})) (v : TeardownState)
      → t.cluster_name ≢ codes ""
      → r ≡ ok tt
      → Ends (after_strip t r v)
  unfolding after_strip
  stripped-Ends r v named e =
      let (n, u) = drain_owned_machines t v in
      subst (λ x. Ends (after_strip t x v)) (sym e) (drained-Ends n u (drain-zero v named))

  -- When nothing is refused, the lists are read and no Machine of ours remains, the deletion removes the finalizer.
  pub reconcile_delete-finishes :
      (s : TeardownState)
      → t.cluster_name ≢ codes ""
      → ((reconcile_delete t s).0 ≡ ok done)
        × ((rest : List Write) × ((reconcile_delete t s).2.writes ≡ finalizer_removed ∷ rest))
  unfolding reconcile_delete
  reconcile_delete-finishes s named =
      let (r, v) = strip_etcd_leave_hooks t s in stripped-Ends r v named (strip-ok s)
