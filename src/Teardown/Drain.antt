-- ===== src/Teardown/Drain.antt =====
-- How many Machines of a control plane are left after a drain.
use cluster_api_provider_kai.Prelude.{
  ℕ, suc, ◌+◌, ◌-◌, Bool, ◌&&◌, ◌||◌, true, false, not, List, [], ◌∷◌, codes, ◌≡◌, ◌≢◌, refl, ap,
  arith, inl, inr, Bool-cases, Result, ok, err, ◌==◌, ==_iff, if◌then◌else◌, count_if,
}
use cluster_api_provider_kai.Teardown.{
  OwnedMachine, Written, written, gone, refused, machine_deleted, TeardownApi, TeardownState, wrote,
  owned_by_kcp, drain_one, drain, drain_listed, drain_owned_machines,
}

unfoldable pub is_gone : Written → Bool
is_gone written = false
is_gone gone = true
is_gone (refused e) = false

ok_suc : {m n : ℕ} → ok m ≡ ok n → m ≡ n
ok_suc {m = m} e = ap (from m) e
  where
    from : ℕ → Result ℕ → ℕ
    from d (ok a) = a
    from d (err f) = d

module _ (t : TeardownApi) where
  -- The Machine is ours, and was not found gone when it was deleted.
  unfoldable pub remains : OwnedMachine → Bool
  remains m = owned_by_kcp t.uid m && (m.deleting || not (is_gone (t.delete m.name)))

  drain_one-count :
      (m : OwnedMachine) (w : Written) (rest : ℕ → TeardownState → Result ℕ × TeardownState)
      (n c r : ℕ) (s : TeardownState)
      → ((k : ℕ) (v : TeardownState) → (rest k v).0 ≡ ok r → r ≡ k + c)
      → (drain_one t m w rest (n + 1) s).0 ≡ ok r
      → r ≡ n + (if not (is_gone w) then suc c else c)
  unfolding drain_one is_gone
  drain_one-count m written rest n c r s ih h =
      omega (arith, ih (n + 1) (wrote (machine_deleted m.name) s) h)
  drain_one-count m gone rest n c r s ih h = omega (arith, ih (n + 1 - 1) s h)
  drain_one-count m (refused e) rest n c r s ih h = absurd (ground (arith, h))

  drain_list-count :
      (ms : List OwnedMachine) (n r : ℕ) (s : TeardownState)
      → (drain t ms n s).0 ≡ ok r
      → r ≡ n + count_if remains ms
  unfolding drain count_if remains drain_one
  drain_list-count [] n r s h = omega (arith, ok_suc h)
  drain_list-count (m ∷ ms) n r s h = elim (Bool-cases (owned_by_kcp t.uid m)) [
    | inr other ↦ rw (count_if, remains, other) (drain_list-count ms n r s (rw (drain, other) at h))
    | inl ours ↦ elim (Bool-cases m.deleting) [
      | inl going ↦
          rw (count_if, remains, ours, going)
            (omega (arith, drain_list-count ms (n + 1) r s (rw (drain, ours, going) at h)))
      | inr staying ↦
          rw (count_if, remains, ours, staying)
            (drain_one-count m (t.delete m.name) (drain t ms) n (count_if remains ms) r s
              (λ k v g. drain_list-count ms k r v g) (rw (drain, ours, staying) at h))
    ]
  ]

  drain_listed-count :
      (r : Result (List OwnedMachine)) (n : ℕ) (s : TeardownState)
      → (drain_listed t r s).0 ≡ ok n
      → (ms : List OwnedMachine) × (r ≡ ok ms) × (n ≡ count_if remains ms)
  unfolding drain_listed
  drain_listed-count (err e) n s h = absurd (ground (arith, h))
  drain_listed-count (ok ms) n s h = (ms, refl, omega (arith, drain_list-count ms 0 n s h))

  -- A drain of a control plane with a cluster name that returns a number has read the Machines, and the number is how
  -- many of them are ours and were not found gone when they were deleted.
  pub drain_owned_machines-count :
      (n : ℕ) (s : TeardownState)
      → t.cluster_name ≢ codes ""
      → (drain_owned_machines t s).0 ≡ ok n
      → (ms : List OwnedMachine) × (t.listed_to_drain ≡ ok ms) × (n ≡ count_if remains ms)
  unfolding drain_owned_machines
  drain_owned_machines-count n s named h = elim (Bool-cases (t.cluster_name == codes "")) [
    | inl e ↦ absurd (named ((==_iff t.cluster_name (codes "")).0 e))
    | inr e ↦ drain_listed-count t.listed_to_drain n s (rw (drain_owned_machines, e) at h)
  ]
