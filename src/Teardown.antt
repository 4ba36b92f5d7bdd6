-- ===== src/Teardown.antt =====
-- internal/controllers/controlplane/cleanup.go and reconcileDelete of kairoscontrolplane_controller.go: the
-- deletion of a control plane. Its Machines lose the etcd-leave hook, are deleted, and when none is left the
-- finalizer goes.
pub mod Strip
pub mod Drain
pub mod Finalizer
use cluster_api_provider_kai.Prelude.{
  ℕ, ◌+◌, ◌-◌, Bool, ◌&&◌, ◌||◌, true, false, not, Option, none, some, List, [], ◌∷◌, Text, codes,
  eqb, ltb, ◌==◌, if◌then◌else◌, Result, ok, err, Error, failed,
}
use cluster_api_provider_kai.Model.{Outcome, done, after}

-- metav1.OwnerReference, as far as it is read
pub record OwnerRef : Type 0 where
  pub controller : Option Bool
  pub kind : Text
  pub uid : Text

-- clusterv1.Machine, as far as the deletion reads it; `hooked` says that it has the etcd-leave hook.
pub record OwnedMachine : Type 0 where
  pub name : Text
  pub owners : List OwnerRef
  pub deleting : Bool
  pub hooked : Bool

-- The answer to a write of an object: NotFound is told apart.
pub data Written : Type 0 where
  written gone : Written
  refused : Error → Written

-- The writes that the API server has accepted.
pub data Write : Type 0 where
  hook_stripped machine_deleted : Text → Write
  finalizer_removed : Write

-- A Cluster, and its spec.paused; that there is none; or an error.
pub data ClusterRead : Type 0 where
  cluster_found : Bool → ClusterRead
  no_cluster : ClusterRead
  cluster_unreadable : Error → ClusterRead

-- The control plane (its cluster-name label, "" when there is none, and its UID), the answers to the two lists of
-- Machines with that label in its namespace, and to the writes. `cluster` is the answer of
-- util.GetClusterFromMetadata, and `has_paused` the paused annotation of the control plane.
pub record TeardownApi : Type 0 where
  pub cluster_name : Text
  pub uid : Text
  pub listed_to_strip : Result (List OwnedMachine)
  pub listed_to_drain : Result (List OwnedMachine)
  pub patch : Text → Written
  pub delete : Text → Written
  pub update : Written
  pub cluster : ClusterRead
  pub has_paused : Bool

-- The writes so far, the latest first, and whether the identity's recheck entry was dropped.
pub record TeardownState : Type 0 where
  pub writes : List Write
  pub forgotten : Bool

abbrev pub wrote : Write → TeardownState → TeardownState
wrote w s = record s { writes = w ∷ s.writes }

abbrev pub is_controller : OwnerRef → Bool
is_controller ref = elim ref.controller [ none ↦ false | some c ↦ c ]

unfoldable pub owned_by_refs : Text → List OwnerRef → Bool
owned_by_refs uid [] = false
owned_by_refs uid (ref ∷ refs) =
    if not (is_controller ref)
    then owned_by_refs uid refs
    else if not (ref.kind == codes "KairosControlPlane")
    then owned_by_refs uid refs
    else if ref.uid == uid
    then true
    else owned_by_refs uid refs

-- ownedByKCP
abbrev pub owned_by_kcp : Text → OwnedMachine → Bool
owned_by_kcp uid m = owned_by_refs uid m.owners

module _ (t : TeardownApi) where
  -- one Machine, of those behind which `rest` goes on
  unfoldable pub strip_one :
      OwnedMachine
      → Written
      → (TeardownState → Result (Unit {0}) × TeardownState)
      → TeardownState
      → Result (Unit {0}) × TeardownState
  strip_one m written rest s = rest (wrote (hook_stripped m.name) s)
  strip_one m gone rest s = rest s
  strip_one m (refused e) rest s = (err e, s)

  unfoldable pub strip_hooks : List OwnedMachine → TeardownState → Result (Unit {0}) × TeardownState
  strip_hooks [] s = (ok tt, s)
  strip_hooks (m ∷ ms) s =
      if not (owned_by_kcp t.uid m) || not m.hooked
      then strip_hooks ms s
      else strip_one m (t.patch m.name) (strip_hooks ms) s

  unfoldable pub strip_listed :
      Result (List OwnedMachine) → TeardownState → Result (Unit {0}) × TeardownState
  strip_listed (err e) s = (err e, s)
  strip_listed (ok ms) s = strip_hooks ms s

  -- stripEtcdLeaveHooks
  unfoldable pub strip_etcd_leave_hooks : TeardownState → Result (Unit {0}) × TeardownState
  strip_etcd_leave_hooks s =
      if t.cluster_name == codes "" then (ok tt, s) else strip_listed t.listed_to_strip s

  -- `remaining` counts the Machines so far, the present one included
  unfoldable pub drain_one :
      OwnedMachine
      → Written
      → (ℕ → TeardownState → Result ℕ × TeardownState)
      → ℕ
      → TeardownState
      → Result ℕ × TeardownState
  drain_one m written rest remaining s = rest remaining (wrote (machine_deleted m.name) s)
  drain_one m gone rest remaining s = rest (remaining - 1) s
  drain_one m (refused e) rest remaining s = (err e, s)

  unfoldable pub drain : List OwnedMachine → ℕ → TeardownState → Result ℕ × TeardownState
  drain [] remaining s = (ok remaining, s)
  drain (m ∷ ms) remaining s =
      if not (owned_by_kcp t.uid m)
      then drain ms remaining s
      else if m.deleting
      then drain ms (remaining + 1) s
      else drain_one m (t.delete m.name) (drain ms) (remaining + 1) s

  unfoldable pub drain_listed :
      Result (List OwnedMachine) → TeardownState → Result ℕ × TeardownState
  drain_listed (err e) s = (err e, s)
  drain_listed (ok ms) s = drain ms 0 s

  -- drainOwnedMachines
  unfoldable pub drain_owned_machines : TeardownState → Result ℕ × TeardownState
  drain_owned_machines s =
      if t.cluster_name == codes "" then (ok 0, s) else drain_listed t.listed_to_drain s

  -- kcpDeleteRequeueAfter, in seconds
  abbrev pub kcp_delete_requeue_after : ℕ
  kcp_delete_requeue_after = 10

  -- the outcome, and whether the deferred patch is skipped
  abbrev pub Deletion : Type 0
  Deletion = Result Outcome × Bool × TeardownState

  unfoldable pub remove_finalizer : Written → TeardownState → Deletion
  remove_finalizer written s = (ok done, true, wrote finalizer_removed s)
  remove_finalizer gone s = (ok done, true, s)
  remove_finalizer (refused e) s = (err e, true, s)

  unfoldable pub after_drain : Result ℕ → TeardownState → Deletion
  after_drain (err e) s = (err e, false, s)
  after_drain (ok remaining) s =
      if ltb 0 remaining
      then (ok (after kcp_delete_requeue_after), false, s)
      else remove_finalizer t.update (record s { forgotten = true })

  unfoldable pub after_strip : Result (Unit {0}) → TeardownState → Deletion
  after_strip (err e) s = (err e, false, s)
  after_strip (ok _) s = let (r, s') = drain_owned_machines s in after_drain r s'

  unfoldable pub reconcile_delete : TeardownState → Deletion
  reconcile_delete s = let (r, s') = strip_etcd_leave_hooks s in after_strip r s'

  -- deletionPaused
  unfoldable pub deletion_paused : Result Bool
  deletion_paused = elim t.cluster [
    | cluster_found paused ↦ ok (paused || t.has_paused)
    | no_cluster ↦ ok t.has_paused
    | cluster_unreadable e ↦ err e
  ]

  -- the part of Reconcile for a control plane that is being deleted
  unfoldable pub reconcile_deleting : TeardownState → Deletion
  reconcile_deleting s = elim deletion_paused [
    | err e ↦ (err e, false, s)
    | ok true ↦ (ok done, false, s)
    | ok false ↦ reconcile_delete s
  ]
