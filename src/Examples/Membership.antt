-- ===== src/Examples/Membership.antt =====
-- Reconciles of three members with steps that do nothing else, and with a frozen identity.
use cluster_api_provider_kai.Prelude.{
  ◌≡◌, ◌≤◌, ◌+◌, refl, ok, [], ◌∷◌, inr, arith, after_last, strip_prefix,
}
use cluster_api_provider_kai.Model.{after, workload_identity_frozen_requeue_after}
use cluster_api_provider_kai.Session.{World}
use cluster_api_provider_kai.Machines.{change_membership, Ops}
use cluster_api_provider_kai.Machines.Reconcile.{reconcile_machines, gate_and_go}
use cluster_api_provider_kai.Machines.Budget.{membership_changes}
use cluster_api_provider_kai.Machines.Scaling.{
  change_membership-Change, gate_and_go-frozen, Honest, Change,
}
use cluster_api_provider_kai.Identity.{repinned, recorded_pin, sep_tail}
use mathlib.Core.List.{Perm}
use cluster_api_provider_kai.Machines.{
  sort_machines_oldest_first, older, select_machine_for_deletion,
}
use cluster_api_provider_kai.Machines.Order.{sort_machines_oldest_first-InOrder}
use cluster_api_provider_kai.Prelude.{
  InOrder, All, sort_by, insert_by, false, codes, true, none, not_found,
}
use cluster_api_provider_kai.Assembly.{Surroundings, TokenStores, ops_of}
use cluster_api_provider_kai.Examples.Tokened.{token_api}
use cluster_api_provider_kai.Examples.Made.{creation_api}
use cluster_api_provider_kai.Assembly.Budget.{FrugalRest, reconcile_machines_bounded}
use cluster_api_provider_kai.Examples.{
  answering, uid_a, leave_api, all_voting, machine_a, machine_b, three, pinned_plane, frozen_plane,
  world_of, plain_ops,
}

abbrev ops : Ops
ops = plain_ops (machine_a ∷ machine_b ∷ [])

ops-Honest : Honest ops
ops-Honest = record { create = λ role token w. inr refl; ensure_token = λ ms w. refl }

abbrev pinned_world : World
pinned_world = world_of pinned_plane

abbrev no_tokens : TokenStores
no_tokens = record { issued = λ id. none; stored = none }

abbrev surroundings : Surroundings
surroundings = record {
  leave_api = λ m. leave_api;
  config_map = λ node. codes "";
  orphan_api = record {
    env = leave_api;
    valid_name = λ name. true;
    all_machines = ok (machine_a ∷ machine_b ∷ []);
    listed = not_found;
    member = λ name. not_found;
    patch_member = λ leave. none;
  };
  machines_read = ok (machine_a ∷ machine_b ∷ []);
  update_machines = ops.update_machines;
  ensure_secrets = ops.ensure_secrets;
  token_api = token_api;
  tokens_at_lifetime = no_tokens;
  tokens_at_issue = no_tokens;
  creation_api = creation_api;
  objects = [];
  gate_status = ok all_voting;
  guard_status = ok all_voting;
  delete_fails = ops.delete_fails;
}

surroundings-FrugalRest : FrugalRest surroundings
unfolding membership_changes
surroundings-FrugalRest = record {
  update_machines = λ ms w. omega arith;
  ensure_secrets = λ w. omega arith;
}

reconcile_machines_bounded_example :
    membership_changes
      (reconcile_machines (answering uid_a) (ops_of surroundings) pinned_world).1.actions
    ≤ membership_changes [] + 1
reconcile_machines_bounded_example =
    reconcile_machines_bounded (answering uid_a) surroundings surroundings-FrugalRest pinned_world

change_membership-Change_example :
    Change ops 3 1
      (machine_a ∷ machine_b ∷ [])
      pinned_world
      (change_membership (answering uid_a) ops (machine_a ∷ machine_b ∷ []) pinned_world).1.actions
change_membership-Change_example =
    change_membership-Change (answering uid_a) ops ops-Honest (machine_a ∷ machine_b ∷ [])
      pinned_world

gate_and_go-frozen_example :
    ((gate_and_go (answering uid_a) ops three (world_of frozen_plane)).0
      ≡ ok (after workload_identity_frozen_requeue_after))
    × ((gate_and_go (answering uid_a) ops three (world_of frozen_plane)).1.actions ≡ [])
    × ((gate_and_go (answering uid_a) ops three (world_of frozen_plane)).1.kcp ≡ frozen_plane)
unfolding repinned recorded_pin after_last strip_prefix sep_tail
gate_and_go-frozen_example =
    gate_and_go-frozen (answering uid_a) ops three (world_of frozen_plane) refl refl

sort_machines_oldest_first-InOrder_example :
    let sorted = sort_machines_oldest_first (machine_b ∷ machine_a ∷ []) in
    InOrder older sorted
    × Perm sorted (machine_b ∷ machine_a ∷ [])
    × All (λ m. older machine_b m ≡ false) sorted
unfolding sort_machines_oldest_first older sort_by insert_by select_machine_for_deletion
sort_machines_oldest_first-InOrder_example =
    sort_machines_oldest_first-InOrder (machine_b ∷ machine_a ∷ []) machine_b refl
