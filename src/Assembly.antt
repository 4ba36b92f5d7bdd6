-- ===== src/Assembly.antt =====
-- The steps of reconcileMachines put together: the etcd leave, the orphan cleanup, the join tokens and the creation of
-- a Machine fill the record that the reconcile takes its steps from. What is left as an argument are the patches of
-- Machines and the join-token and etcd-status Secrets.
pub mod Steps
pub mod Budget
use cluster_api_provider_kai.Prelude.{Bool, Option, List, [], Text, Result, Error}
use cluster_api_provider_kai.Model.{Machine, ControlPlaneRole}
use cluster_api_provider_kai.Session.{World, Exec}
use cluster_api_provider_kai.Etcd.{EtcdStatus}
use cluster_api_provider_kai.Leave.{LeaveApi, Leaving}
use cluster_api_provider_kai.Leave.Reconcile.{reconcile_member_leave}
use cluster_api_provider_kai.Orphans.Reconcile.{OrphanApi, reconcile_orphan_etcd_members}
use cluster_api_provider_kai.Token.{TokenSecret}
use cluster_api_provider_kai.Tokens.{TokenApi, TokenState, StoredSecret}
use cluster_api_provider_kai.Tokens.Issue.{ensure_k0s_controller_join_token}
use cluster_api_provider_kai.Tokens.Lifetime.{reconcile_k0s_join_token_lifetime}
use cluster_api_provider_kai.Creation.{CreationApi, Object, create_control_plane_machine}
use cluster_api_provider_kai.Machines.{Ops}

-- The token Secrets of the workload cluster and the join-token Secret, as a join-token step finds them.
pub record TokenStores : Type 0 where
  pub issued : Text → Option TokenSecret
  pub stored : Option StoredSecret

-- The answers that the etcd leave of each Machine gets, with the leave ConfigMap's data, those of the
-- orphan cleanup, the join tokens and the creation get, with the tokens and objects that they find, and the steps that
-- are not modelled.
pub record Surroundings : Type 0 where
  pub leave_api : Machine → LeaveApi
  pub config_map : Text → Text
  pub orphan_api : OrphanApi
  pub machines_read : Result (List Machine)
  pub update_machines : List Machine → Exec (Unit {0})
  pub ensure_secrets : Exec (Unit {0})
  pub token_api : TokenApi
  pub tokens_at_lifetime : TokenStores
  pub tokens_at_issue : TokenStores
  pub creation_api : CreationApi
  pub objects : List Object
  pub gate_status : Result EtcdStatus
  pub guard_status : Result EtcdStatus
  pub delete_fails : Text → Option Error

-- reconcileMemberLeave of one Machine, as the sweep calls it
unfoldable pub leave_of : Surroundings → List Machine → Machine → Exec Bool
leave_of s all m w =
    let (r, t) =
      reconcile_member_leave (s.leave_api m) all
        (record { world = w; target = m; config_map = s.config_map }) in
    (r, t.world)

abbrev pub token_state : TokenStores → World → TokenState
token_state stores w = record {
  world = w;
  issued = stores.issued;
  stored = stores.stored;
  marked = [];
  warnings = [];
}

-- reconcileK0sJoinTokenLifetime and ensureK0sControllerJoinToken, as the reconcile calls them
unfoldable pub token_lifetime_of : Surroundings → List Machine → World → Bool × World
token_lifetime_of s machines w =
    let (pending, t) =
      reconcile_k0s_join_token_lifetime s.token_api machines (token_state s.tokens_at_lifetime w) in
    (pending, t.world)

unfoldable pub ensure_token_of : Surroundings → List Machine → Exec Text
ensure_token_of s machines w =
    let (r, t) =
      ensure_k0s_controller_join_token s.token_api machines (token_state s.tokens_at_issue w) in
    (r, t.world)

-- createControlPlaneMachine, as the reconcile calls it
unfoldable pub create_of : Surroundings → ControlPlaneRole → Text → Exec (Unit {0})
create_of s role token w =
    let (r, t) =
      create_control_plane_machine s.creation_api w.kcp role token
        (record { world = w; objects = s.objects; tried = 0 }) in
    (r, t.world)

unfoldable pub ops_of : Surroundings → Ops
unfolding leave_of token_lifetime_of ensure_token_of create_of
ops_of s = record {
  machines_read = s.machines_read;
  update_machines = s.update_machines;
  leave = leave_of s;
  ensure_secrets = s.ensure_secrets;
  token_lifetime = token_lifetime_of s;
  orphans = reconcile_orphan_etcd_members s.orphan_api;
  ensure_token = ensure_token_of s;
  create = create_of s;
  gate_status = s.gate_status;
  guard_status = s.guard_status;
  delete_fails = s.delete_fails;
}
