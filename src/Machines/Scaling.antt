-- ===== src/Machines/Scaling.antt =====
-- When a reconcile creates a Machine and when it deletes one: reconcileRollout of rollout.go and the
-- scale paths of reconcileMachines.
use mathlib.Core.Path.{subst₂}
use mathlib.Core.List.{Memᴰ}
use mathlib.Core.List.Memᴰ
use cluster_api_provider_kai.Prelude.{
  subst, some_inj, Bool-cases, if_elim, ltb, leb, eqb, ltb→lt, ℕ, ◌+◌, ◌<◌, ◌&&◌, true, false,
  Option, none, some, List, [], ◌∷◌, Text, codes, arith, Result, ok, err, inl, inr, ◌≡◌, ◌≢◌, ◌⊎◌,
  refl, sym, ap, ◌∙◌, length,
}
use cluster_api_provider_kai.Model.{
  Machine, ControlPlane, ControlPlaneRole, Outcome, desired_replicas, single, init, join, or_else,
  registered, after, workload_identity_frozen_requeue_after,
}
use cluster_api_provider_kai.Etcd.{EtcdStatus, allowed, can_remove_member}
use cluster_api_provider_kai.Session.{World, Api, Action, create_machine, delete_machine, admitting}
use cluster_api_provider_kai.Machines.{
  Ops, create_one, create_admitted, add_machine, delete_control_plane_machine, remove_machine,
  reconcile_rollout, scale, RolloutPlan, change_by_plan, change_membership, plan_rollout,
  scale_down, select_machine_for_deletion, any_deleting, last_of, add_to_plan,
  machine_matches_version,
}
use cluster_api_provider_kai.Joiner.{
  control_plane_role_for_new_machine, admit_joiner, Admission, held_back, admitted, check_members,
  strict_distribution, joinable,
}
use cluster_api_provider_kai.Joiner.Sequencing.{admit_joiner-needs_init}
use cluster_api_provider_kai.Identity.{identity_preflight, frozen, repinned}
use cluster_api_provider_kai.Identity.Actions.{verify_endpoint-actions, preflight-actions}
use cluster_api_provider_kai.Identity.Checks.{reconcile_workload_identity-frozen}
use cluster_api_provider_kai.Machines.Reconcile.{gate_and_go, after_gate}

-- What the steps promise: a create makes the Machine that it is asked for, or none; the join token
-- changes no membership.
pub record Honest (ops : Ops) : Type 0 where
  pub create :
      (role : ControlPlaneRole) (token : Text) (w : World)
      → ((ops.create role token w).1.actions ≡ w.actions)
        ⊎ ((ops.create role token w).1.actions ≡ create_machine role token ∷ w.actions)
  pub ensure_token :
      (machines : List Machine) (w : World) → (ops.ensure_token machines w).1.actions ≡ w.actions

-- Every member before a joiner has joined: the gate of initMachineJoinable, on the status that it read.
pub record GateOpen (kcp : ControlPlane) (read : Result EtcdStatus) (machines : List Machine)
    : Type 0 where
  pub first : Machine
  pub rest : List Machine
  pub status : EtcdStatus
  pub are : machines ≡ first ∷ rest
  pub was_read : read ≡ ok status
  pub kubeconfig : kcp.kubeconfig_ready ≡ true
  pub first_registered : registered first ≡ true
  pub members : check_members (strict_distribution kcp) status first rest ≡ joinable

-- The one change of membership that a step makes, and what held before it.
pub data Change (ops : Ops) (desired surge : ℕ) (machines : List Machine) (w : World)
    (after : List Action) : Type 0 where
  unchanged : after ≡ w.actions → Change ops desired surge machines w after
  added_first :
      (role : ControlPlaneRole)
      → role ≡ control_plane_role_for_new_machine desired machines
      → role ≢ join
      → length machines < desired + surge
      → after ≡ create_machine role (codes "") ∷ w.actions
      → Change ops desired surge machines w after
  added_joiner :
      (token : Text)
      → control_plane_role_for_new_machine desired machines ≡ join
      → GateOpen w.kcp ops.gate_status machines
      → length machines < desired + surge
      → after ≡ create_machine join token ∷ w.actions
      → Change ops desired surge machines w after
  removed :
      (target : Machine)
      → Memᴰ target machines
      → desired < length machines
      → can_remove_member w.kcp ops.guard_status target ≡ ok allowed
      → after ≡ delete_machine target.name ∷ w.actions
      → Change ops desired surge machines w after

over_desired :
    (plan : RolloutPlan) (machines : List Machine)
    → (ltb plan.desired (length machines) && eqb plan.updated_joined plan.updated) ≡ true
    → plan.desired < length machines
over_desired plan machines h = ground arith

under_surge : (n desired surge : ℕ) → ltb n desired ≡ true → n < desired + surge
under_surge n desired surge h = ground arith

plan-desired :
    (version : Text) (desired surge : ℕ) (ms : List Machine)
    → (plan_rollout version desired surge ms).desired ≡ desired
unfolding plan_rollout
plan-desired version desired surge [] = refl
plan-desired version desired surge (m ∷ ms) = ground (arith, plan-desired version desired surge ms)

plan-surge :
    (version : Text) (desired surge : ℕ) (ms : List Machine)
    → (plan_rollout version desired surge ms).max_surge ≡ surge
unfolding plan_rollout
plan-surge version desired surge [] = refl
plan-surge version desired surge (m ∷ ms) = ground (arith, plan-surge version desired surge ms)

last-Memᴰ : (m : Machine) (ms : List Machine) → Memᴰ (last_of m ms) (m ∷ ms)
last-Memᴰ m [] = Memᴰ.head refl
last-Memᴰ m (x ∷ ms) = Memᴰ.tail (last-Memᴰ x ms)

-- A scale-down takes one of the Machines.
select-Memᴰ :
    (machines : List Machine) (m : Machine)
    → select_machine_for_deletion machines [] ≡ some m
    → Memᴰ m machines
unfolding select_machine_for_deletion
select-Memᴰ [] m e = absurd (ground (arith, e))
select-Memᴰ (x ∷ machines) m e =
    subst (λ y. Memᴰ y (x ∷ machines)) (some_inj e) (last-Memᴰ x machines)

-- The outdated Machines are among all.
plan-outdated :
    (version : Text) (desired surge : ℕ) (ms : List Machine) (m : Machine)
    → Memᴰ m (plan_rollout version desired surge ms).outdated
    → Memᴰ m ms
unfolding plan_rollout add_to_plan
plan-outdated version desired surge [] m h = h
plan-outdated version desired surge (x ∷ ms) m h =
    added (plan_rollout version desired surge ms) (plan-outdated version desired surge ms m) h
  where
    added :
        (plan : RolloutPlan)
        → (Memᴰ m plan.outdated → Memᴰ m ms)
        → Memᴰ m (add_to_plan version x plan).outdated
        → Memᴰ m (x ∷ ms)
    added plan rest h = elim (Bool-cases (machine_matches_version x version)) [
      | inl e ↦ Memᴰ.tail (rest (rw (add_to_plan, e) at h))
      | inr e ↦ elim (Memᴰ.cases_cons (rw (add_to_plan, e) at h)) [
        | inl same ↦ Memᴰ.head same
        | inr later ↦ Memᴰ.tail (rest later)
      ]
    ]

module _ (api : Api) (ops : Ops) where
  delete-cases :
      (target : Machine) (w : World)
      → ((delete_control_plane_machine api ops target w).1.actions ≡ w.actions)
        ⊎ ((delete_control_plane_machine api ops target w).1.actions
            ≡ delete_machine target.name ∷ w.actions)
  unfolding delete_control_plane_machine
  delete-cases target w = ground arith

  -- A Machine is deleted only where the quorum guard allowed it and the identity check let it through.
  remove-cases :
      (target : Machine) (w : World)
      → ((remove_machine api ops target w).1.actions ≡ w.actions)
        ⊎ ((can_remove_member w.kcp ops.guard_status target ≡ ok allowed)
            × ((remove_machine api ops target w).1.actions
                ≡ delete_machine target.name ∷ w.actions))
  unfolding remove_machine
  remove-cases target w =
      ground (arith, preflight-actions api w, delete-cases target (identity_preflight api w).1)

module _ (api : Api) (ops : Ops) (honest : Honest ops) where
  create_one-cases :
      (role : ControlPlaneRole) (token : Text) (w : World)
      → ((create_one api ops role token w).1.actions ≡ w.actions)
        ⊎ ((create_one api ops role token w).1.actions ≡ create_machine role token ∷ w.actions)
  unfolding create_one
  create_one-cases role token w = ground (arith, honest.create role token w)

  admit_joiner-actions :
      (machines : List Machine) (w : World)
      → (admit_joiner api (ops.ensure_token machines) ops.gate_status machines w).1.actions
        ≡ w.actions
  unfolding admit_joiner
  admit_joiner-actions machines w =
      ground (arith, honest.ensure_token machines w, verify_endpoint-actions api admitting w)

  admitted-GateOpen :
      (machines : List Machine) (w : World) (id : Text)
      → (admit_joiner api (ops.ensure_token machines) ops.gate_status machines w).0
        ≡ ok (admitted id)
      → GateOpen w.kcp ops.gate_status machines
  admitted-GateOpen machines w id e =
      let g =
        admit_joiner-needs_init api (ops.ensure_token machines) ops.gate_status machines w id e in
      record {
        first = g.0;
        rest = g.1;
        status = g.2;
        are = g.3;
        was_read = g.4;
        first_registered = g.5;
        kubeconfig = g.6;
        members = g.7;
      }

  created-Change :
      (desired surge : ℕ) (machines : List Machine) (w v : World) (r : Result Admission)
      → length machines < desired + surge
      → control_plane_role_for_new_machine desired machines ≡ join
      → v.actions ≡ w.actions
      → ((id : Text) → r ≡ ok (admitted id) → GateOpen w.kcp ops.gate_status machines)
      → Change ops desired surge machines w (create_admitted api ops r v).1.actions
  unfolding create_admitted
  created-Change desired surge machines w v (err e) room role same gate = unchanged same
  created-Change desired surge machines w v (ok held_back) room role same gate = unchanged same
  created-Change desired surge machines w v (ok (admitted id)) room role same gate =
      elim (create_one-cases join id v) [
        | inl e ↦ unchanged (e ∙ same)
        | inr e ↦
            added_joiner id role (gate id refl) room
              (e ∙ ap (λ as_. create_machine join id ∷ as_) same)
      ]

  add_machine-Change :
      (desired surge : ℕ) (machines : List Machine) (w : World)
      → length machines < desired + surge
      → Change ops desired surge machines w (add_machine api ops desired machines w).1.actions
  add_machine-Change desired surge machines w room =
      by_role (control_plane_role_for_new_machine desired machines) refl
    where
      first_of :
          (role : ControlPlaneRole)
          → control_plane_role_for_new_machine desired machines ≡ role
          → role ≢ join
          → (add_machine api ops desired machines w).1.actions
            ≡ (create_one api ops role (codes "") w).1.actions
          → Change ops desired surge machines w (add_machine api ops desired machines w).1.actions
      first_of role e other same = elim (create_one-cases role (codes "") w) [
        | inl k ↦ unchanged (same ∙ k)
        | inr k ↦ added_first role (sym e) other room (same ∙ k)
      ]

      by_role :
          (role : ControlPlaneRole)
          → control_plane_role_for_new_machine desired machines ≡ role
          → Change ops desired surge machines w (add_machine api ops desired machines w).1.actions
      by_role single e = first_of single e (λ k. cc) (unfold add_machine in rw (e, add_machine))
      by_role init e = first_of init e (λ k. cc) (unfold add_machine in rw (e, add_machine))
      by_role join e =
          let (r, v) = admit_joiner api (ops.ensure_token machines) ops.gate_status machines w in
          unfold add_machine in
          rw (e, add_machine)
            (created-Change desired surge machines w v r room e (admit_joiner-actions machines w)
              (admitted-GateOpen machines w))

  remove_machine-Change :
      (desired surge : ℕ) (machines : List Machine) (target : Machine) (w : World)
      → Memᴰ target machines
      → desired < length machines
      → Change ops desired surge machines w (remove_machine api ops target w).1.actions
  remove_machine-Change desired surge machines target w among over =
      elim (remove-cases api ops target w) [
        | inl e ↦ unchanged e
        | inr (safe, e) ↦ removed target among over safe e
      ]

  -- A step of which the result is a Change.
  abbrev Makes : ℕ → ℕ → List Machine → World → Result Outcome × World → Type 0
  Makes desired surge machines w result = Change ops desired surge machines w result.1.actions

  rollout-Change :
      (plan : RolloutPlan) (oldest : Machine) (machines : List Machine) (w : World)
      → Memᴰ oldest machines
      → Makes plan.desired plan.max_surge machines w
          (reconcile_rollout api ops plan oldest machines w)
  unfolding reconcile_rollout
  rollout-Change plan oldest machines w among =
      let P : Result Outcome × World → Type 0 = Makes plan.desired plan.max_surge machines w in
      if_elim P (leb plan.desired 1) _ _ (λ single. unchanged refl)
        λ ha.
          if_elim P (any_deleting machines) _ _ (λ deleting. unchanged refl)
            λ quiet.
              if_elim P (ltb (length machines) (plan.desired + plan.max_surge)) _ _
                (λ room.
                  add_machine-Change plan.desired plan.max_surge machines w (ltb→lt _ _ room))
                λ full.
                  if_elim P
                    (ltb plan.desired (length machines) && eqb plan.updated_joined plan.updated) _ _
                    (λ over.
                      remove_machine-Change plan.desired plan.max_surge machines oldest w among
                        (over_desired plan machines over))
                    λ waiting. unchanged refl

  scale_down-Change :
      (desired surge : ℕ) (machines : List Machine) (target : Option Machine) (w : World)
      → ((m : Machine) → target ≡ some m → Memᴰ m machines)
      → desired < length machines
      → Makes desired surge machines w (scale_down api ops target w)
  unfolding scale_down
  scale_down-Change desired surge machines none w among over = unchanged refl
  scale_down-Change desired surge machines (some target) w among over =
      remove_machine-Change desired surge machines target w (among target refl) over

  scale-Change :
      (desired surge : ℕ) (machines : List Machine) (w : World)
      → Makes desired surge machines w (scale api ops desired machines w)
  unfolding scale
  scale-Change desired surge machines w =
      let P : Result Outcome × World → Type 0 = Makes desired surge machines w in
      if_elim P (ltb (length machines) desired) _ _
        (λ under. add_machine-Change desired surge machines w (under_surge _ _ surge under))
        λ enough.
          if_elim P (ltb desired (length machines)) _ _
            (λ over.
              scale_down-Change desired surge machines (select_machine_for_deletion machines []) w
                (select-Memᴰ machines) (ltb→lt _ _ over))
            λ exact. unchanged refl

  change_by_plan-Change :
      (plan : RolloutPlan) (outdated machines : List Machine) (w : World)
      → ((m : Machine) → Memᴰ m outdated → Memᴰ m machines)
      → Makes plan.desired plan.max_surge machines w
          (change_by_plan api ops plan outdated machines w)
  unfolding change_by_plan
  change_by_plan-Change plan [] machines w among =
      scale-Change plan.desired plan.max_surge machines w
  change_by_plan-Change plan (oldest ∷ outdated) machines w among =
      rollout-Change plan oldest machines w (among oldest (Memᴰ.head refl))

  -- The scale and rollout steps change no membership, or create one Machine, or delete one. A Machine
  -- is created only below the desired number plus the surge, with the role that controlPlaneRoleForNewMachine
  -- gives, and a joiner only where the join gate was open. A Machine is deleted only above
  -- the desired number, only if it is one of those that were read, and only where the quorum guard allowed
  -- that delete. This rests on creates
  -- that make the Machine they are asked for or none, and on a join token that changes no membership.
  pub change_membership-Change :
      (machines : List Machine) (w : World)
      → Change ops
          (desired_replicas w.kcp)
          (or_else w.kcp.max_surge 1)
          machines
          w
          (change_membership api ops machines w).1.actions
  unfolding change_membership
  change_membership-Change machines w =
      let plan =
        plan_rollout w.kcp.version (desired_replicas w.kcp) (or_else w.kcp.max_surge 1) machines in
      subst₂
        (λ d s.
          Change ops d s machines w
            (change_by_plan api ops plan plan.outdated machines w).1.actions)
        (plan-desired w.kcp.version (desired_replicas w.kcp) (or_else w.kcp.max_surge 1) machines)
        (plan-surge w.kcp.version (desired_replicas w.kcp) (or_else w.kcp.max_surge 1) machines)
        (change_by_plan-Change plan plan.outdated machines w (
          plan-outdated w.kcp.version (desired_replicas w.kcp) (or_else w.kcp.max_surge 1)
            machines))

-- While the control plane is frozen and its pin is the one recorded with the freeze, what follows the
-- machine updates in a reconcile changes no membership, leaves the KairosControlPlane as it is, and
-- comes back in a minute.
pub gate_and_go-frozen :
    (api : Api) (ops : Ops) (machines : List Machine) (w : World)
    → frozen w.kcp ≡ true
    → repinned w.kcp ≡ false
    → let (r, w') = gate_and_go api ops machines w in
      (r ≡ ok (after workload_identity_frozen_requeue_after))
      × (w'.actions ≡ w.actions)
      × (w'.kcp ≡ w.kcp)
unfolding gate_and_go after_gate
gate_and_go-frozen api ops machines w f p =
    ground (arith, reconcile_workload_identity-frozen api machines (desired_replicas w.kcp) w f p)
