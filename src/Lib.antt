-- ===== src/Lib.antt =====
-- The etcd membership of a Kairos control plane: how the KairosControlPlane controller adds, replaces
-- and removes control-plane Machines without losing etcd quorum and without acting on a workload
-- cluster that it did not pin. The code is internal/controllers/controlplane; one reconcile of a
-- KairosControlPlane is reconcileMachines of kairoscontrolplane_controller.go.
--
-- Parts, in the order in which a reconcile runs them:
--   Machines, Machines.Reconcile   reconcileMachines and rollout.go: the order of the steps, the
--                                  rollout plan, scale up and down, creates and deletes. The steps
--                                  that live elsewhere are the record Ops.
--   Identity, Identity.Reconcile   ha_identity.go: the pin of the kube-system UID, the checks against
--                                  it, and the freeze that stops every change of membership.
--   Candidates, Connect            ha_leave_member.go: which apiserver addresses are tried, and when a
--                                  connection counts as verified.
--   Leave and its children         ha_leave.go, ha_leave_etcdmember.go, ha_leave_unregistered.go,
--                                  ha_leave_nodename.go: one pass of the etcd-leave handshake of a
--                                  Machine that is being deleted (Leave.Steps: the delegation to k0s
--                                  and the inspection of a node that never registered).
--   Orphans and its children       ha_etcd_orphans.go: etcd members that no Machine accounts for, the
--                                  record of a removal, and the following of it.
--   Joiner                         the join gate of kairoscontrolplane_controller.go.
--   Etcd                           ha_etcd.go: the node-reported etcd status and the quorum guard.
--   Token                          internal/k0sjointoken: the k0s controller-join token, its encoded
--                                  form, and its Secret in the workload cluster.
--   Servers                        ha_k0s_jointoken.go: the members that a join token may point at.
--   Tokens and its children        ha_k0s_jointoken.go: a token is issued for each joiner (Tokens.Issue)
--                                  and kept alive, or deleted (Tokens.Lifetime).
--   Creation                       machine_names.go, createControlPlaneMachine and what it calls,
--                                  applyControlPlaneHASpec of ha_tokens.go: names, attempts, objects.
--   Sanitize and its children      internal/kubeconfig/sanitize.go: a kubeconfig that a node pushed is
--                                  checked, and rebuilt for the expected server; expiry.go in
--                                  Sanitize.Expiry.
--   Teardown                       cleanup.go and reconcileDelete: the deletion of a control plane.
--   Member                         k0s's EtcdMember objects (ha_leave_etcdmember.go).
--   Assembly                       the record Ops with the etcd leave, the orphan cleanup, the join tokens
--                                  and the creation as they are.
--   Model, Session                 the objects (api/controlplane/v1beta2, Cluster API), and the state
--                                  and monad of a reconcile. Prelude holds lists, maps and texts.
-- The other children of these modules hold proofs, and Examples holds test data and tests.
--
-- Functions keep their Go names in snake case. State is passed explicitly: World holds the
-- KairosControlPlane, the two in-memory clocks and the membership changes asked for, the latest
-- first; Leaving adds the Machine that leaves and the leave ConfigMap, TokenState the token Secrets of
-- both clusters, CreationState the objects of a Machine, TeardownState the writes of a deletion. What
-- is written before an error stays written. Every answer from outside (API reads and writes, the
-- kube-system UID per path, net.ParseIP, time.Parse, clientcmd, PEM, X.509, JSON, base64, gzip, the
-- random draws) is an argument: a field of Api, LeaveApi, OrphanApi, TokenApi, CreationApi,
-- TeardownApi, Libraries or Ops. An error is the sentinel that it wraps. A write that fails has
-- changed nothing, and a create of an object that exists fails.
--
-- Bounds: the code's loops range over finite lists and are structural recursion, so they need no
-- fuel, except the loop over the PEM blocks of a CA bundle: each block takes a character at least, so
-- one more than the characters of the bundle is enough (validate_ca_bundle-ends). The loop of
-- createControlPlaneMachine counts down its five attempts, and the wait for the cache goes through the
-- reads that its backoff allows; canonicalMemberID writes the at most sixteen hexadecimal digits of a
-- 64-bit number.
-- Integers: replica counts are the 1 to 5 that the CRD schema admits, as natural numbers. The schema
-- does not bound maxSurge; the model takes it as a natural number whose sum with the replicas stays
-- below 2 ^ 31, as in the code for any surge from 0 to 2 ^ 31 - 6.
-- Instants are whole seconds, and one reconcile reads one instant.
--
-- Not modelled: logs, conditions and message texts, and the events other than the warnings of the join
-- tokens; labels and owner references of new objects, status, the staging, CA pin and
-- publication of kubeconfigs, the SSH fallback, webhooks, the bootstrap renderer and the development
-- environment. The object that a successful spec.leave patch returns is
-- taken to have the status that was read before the patch.
pub mod Prelude
pub mod Model
pub mod Etcd
pub mod Session
pub mod Identity
pub mod Candidates
pub mod Joiner
pub mod Machines
pub mod Connect
pub mod Member
pub mod Leave
pub mod Orphans
pub mod Token
pub mod Servers
pub mod Tokens
pub mod Teardown
pub mod Creation
pub mod Sanitize
pub mod Assembly
pub mod Examples
