-- ===== src/Model.antt =====
-- The Kubernetes objects, as far as the control-plane controller reads and writes them: Cluster API
-- Machines (the fields used under internal/controllers/controlplane) and the KairosControlPlane
-- (api/controlplane/v1beta2/kairoscontrolplane_types.go). Instants are whole seconds.
use cluster_api_provider_kai.Prelude.{
  ℕ, Bool, Option, none, some, List, Text, codes, Annotations, is_some, ◌==◌, if◌then◌else◌,
}

-- metav1.Condition, as far as it is read
pub record Condition : Type 0 where
  pub status : Text
  pub reason : Text

-- clusterv1.ContractVersionedObjectReference
pub record ConfigRef : Type 0 where
  pub name : Text
  pub kind : Text
  pub api_group : Text

-- clusterv1.Machine. A NodeRef that is defined is the Node's name; `deleting` is a deletion
-- timestamp that is set; `deleting_condition` is the v1beta2 Deleting condition.
pub record Machine : Type 0 where
  pub name : Text
  pub created : ℕ
  pub deleting : Bool
  pub version : Text
  pub config_ref : ConfigRef
  pub node_ref : Option Text
  pub phase : Text
  pub addresses : List Text
  pub deleting_condition : Option Condition
  pub annotations : Annotations

-- KairosControlPlane: spec, annotations, and the KubeconfigReady condition. `max_surge` is
-- spec.rolloutStrategy.rollingUpdate.maxSurge, `none` where a pointer on the way is nil.
pub record ControlPlane : Type 0 where
  pub name : Text
  pub deleting : Bool
  pub replicas : Option ℕ
  pub version : Text
  pub distribution : Text
  pub max_surge : Option ℕ
  pub vip_address : Option Text
  pub template_name : Text
  pub kubeconfig_ready : Bool
  pub annotations : Annotations

pub data ControlPlaneRole : Type 0 where
  single init join : ControlPlaneRole

-- ctrl.Result, in seconds; 0 asks for no requeue.
pub record Outcome : Type 0 where
  pub requeue_after : ℕ

abbrev pub done : Outcome
done = record { requeue_after = 0 }

abbrev pub after : ℕ → Outcome
after s = record { requeue_after = s }

-- kairoscontrolplane_controller.go: joinerGateRequeueAfter; ha_identity.go:
-- workloadIdentityFrozenRequeueAfter, in seconds
abbrev pub joiner_gate_requeue_after : ℕ
joiner_gate_requeue_after = 15

abbrev pub workload_identity_frozen_requeue_after : ℕ
workload_identity_frozen_requeue_after = 60

abbrev pub or_else {ℓ} : {A : Type ℓ} → Option A → A → A
or_else none d = d
or_else (some a) d = a

-- spec.replicas, 1 when unset
abbrev pub desired_replicas : ControlPlane → ℕ
desired_replicas kcp = or_else kcp.replicas 1

abbrev pub registered : Machine → Bool
registered m = is_some m.node_ref

-- Status.NodeRef.Name, "" when there is none
abbrev pub node_ref_name : Machine → Text
node_ref_name m = or_else m.node_ref (codes "")

unfoldable pub running_phase : Text
running_phase = codes "Running"

unfoldable pub k0s : Text
k0s = codes "k0s"

-- distributionOf of ha_leave.go
unfoldable pub distribution_of : ControlPlane → Text
distribution_of kcp = if kcp.distribution == codes "" then k0s else kcp.distribution
