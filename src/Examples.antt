-- ===== src/Examples.antt =====
-- Test data: a control plane of three k0s members, the answers of its API servers, and the steps that
-- reconcileMachines calls, as concrete functions.
pub mod Guard
pub mod Pinned
pub mod Joining
pub mod Membership
pub mod Departure
pub mod Records
pub mod Orphaned
pub mod Tokened
pub mod Torn
pub mod Made
pub mod Sanitized
use cluster_api_provider_kai.Prelude.{
  ℕ, ◌+◌, ◌-◌, Bool, true, false, Option, none, some, List, [], ◌∷◌, Text, codes, Annotations, put,
  Result, ok, err, Error, failed, Get, found, not_found,
}
use cluster_api_provider_kai.Model.{
  Machine, ControlPlane, ControlPlaneRole, Condition, running_phase,
}
use cluster_api_provider_kai.Etcd.{MemberStatus, EtcdStatus}
use cluster_api_provider_kai.Session.{World, Api, Site, KcpWrite, Exec, Action, create_machine, act}
use cluster_api_provider_kai.Identity.{pin_key, mismatch_key}
use cluster_api_provider_kai.Machines.{Ops, etcd_leave_hook}
use cluster_api_provider_kai.Member.{EtcdMember}
use cluster_api_provider_kai.Leave.{LeaveApi, leave_requested_at_key, member_leave_requested_at_key}

abbrev pub bare : Annotations
bare k = none

-- An instant is written as one character.
abbrev pub read_clock : Text → Option ℕ
read_clock (c ∷ []) = some (c - 200)
read_clock other = none

abbrev pub write_clock : ℕ → Text
write_clock t = (t + 200) ∷ []

-- every apiserver answers with this UID
abbrev pub answering : Text → Api
answering u = record {
  now = 5000;
  format_time = write_clock;
  parse_time = read_clock;
  parse_ip = λ t. some t;
  is_global_unicast = λ t. true;
  endpoint_host = codes "vip";
  uid = λ site via. ok u;
  kcp_patch = λ write. none;
}

abbrev pub uid_a : Text
uid_a = codes "a1"

abbrev pub uid_b : Text
uid_b = codes "b2"

abbrev pub member_named : Text → ℕ → Option Text → Machine
member_named name created node = record {
  name = name;
  created = created;
  deleting = false;
  version = codes "v1";
  config_ref = record { name = codes ""; kind = codes ""; api_group = codes "" };
  node_ref = node;
  phase = codes "Running";
  addresses = name ∷ [];
  deleting_condition = none;
  annotations = bare;
}

abbrev pub machine_a : Machine
machine_a = member_named (codes "a") 1 (some (codes "a"))

abbrev pub machine_b : Machine
machine_b = member_named (codes "b") 2 (some (codes "b"))

abbrev pub machine_c : Machine
machine_c = member_named (codes "c") 3 (some (codes "c"))

abbrev pub three : List Machine
three = machine_a ∷ machine_b ∷ machine_c ∷ []

abbrev pub plane_with : Annotations → ControlPlane
plane_with as_ = record {
  name = codes "kcp";
  deleting = false;
  replicas = some 3;
  version = codes "v1";
  distribution = codes "k0s";
  max_surge = none;
  vip_address = none;
  template_name = codes "t";
  kubeconfig_ready = true;
  annotations = as_;
}

abbrev pub pinned_plane : ControlPlane
pinned_plane = plane_with (put pin_key uid_a bare)

abbrev pub frozen_plane : ControlPlane
frozen_plane = plane_with (put mismatch_key (codes "by hand") (put pin_key uid_a bare))

abbrev pub world_of : ControlPlane → World
world_of kcp = record {
  kcp = kcp;
  identity_checked_at = none;
  orphan_checked_at = none;
  actions = [];
}

abbrev pub healthy_voter : MemberStatus
healthy_voter = record { healthy = true; voting = true }

abbrev pub all_voting : EtcdStatus
all_voting =
    (codes "a", healthy_voter) ∷ (codes "b", healthy_voter) ∷ (codes "c", healthy_voter) ∷ []

-- The steps that do nothing, and a create that makes the Machine it is asked for.
abbrev pub plain_ops : List Machine → Ops
plain_ops machines = record {
  machines_read = ok machines;
  update_machines = λ ms w. (ok tt, w);
  leave = λ all m w. (ok false, w);
  ensure_secrets = λ w. (ok tt, w);
  token_lifetime = λ ms w. (false, w);
  orphans = λ ms desired w. (ok none, w);
  ensure_token = λ ms w. (ok (codes "token"), w);
  create = λ role token w. (ok tt, act (create_machine role token) w);
  gate_status = ok all_voting;
  guard_status = ok all_voting;
  delete_fails = λ name. none;
}

abbrev pub etcd_member_b : EtcdMember
etcd_member_b = record {
  name = codes "b";
  peer_address = codes "b";
  member_id = codes "f";
  leave = false;
  joined = none;
}

abbrev pub leave_api : LeaveApi
leave_api = record {
  api = answering uid_a;
  split_host_port = λ t. none;
  dns1123_label = λ t. true;
  config_map_answers = λ via. true;
  hostname = λ ref. not_found;
  member = found etcd_member_b;
  etcd_status = ok all_voting;
  hook_patch = none;
  annotate = λ key. none;
  config_map_write = none;
  member_patch = none;
}

-- the second member is being deleted, at its pre-terminate hook
abbrev pub departing_with : Annotations → Machine
departing_with as_ = record machine_b {
  deleting = true;
  deleting_condition =
      some (record { status = codes "True"; reason = codes "WaitingForPreTerminateHook" });
  annotations = as_;
}

abbrev pub hooked : Annotations
hooked = put etcd_leave_hook (codes "") bare
