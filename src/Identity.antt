-- ===== src/Identity.antt =====
-- internal/controllers/controlplane/ha_identity.go: the identity of the workload cluster (the UID of
-- its kube-system Namespace) is pinned, checked, and on a mismatch freezes the control plane.
pub mod Reconcile
pub mod Freeze
pub mod Checks
pub mod Pinning
pub mod Actions
use cluster_api_provider_kai.Prelude.{
  ℕ, ◌+◌, ◌-◌, Bool, ◌&&◌, ◌||◌, true, false, not, Option, none, some, List, [], ◌∷◌, ◌++◌, Text,
  String, codes, length, leb, ltb, eqb, ◌==◌, if◌then◌else◌, is_some, put, remove, after_last,
  Result, ok, err, Error, identity_changed, identity_not_pinned, conflict, failed,
}
use cluster_api_provider_kai.Model.{
  Machine, ControlPlane, registered, or_else, Outcome, done, after, joiner_gate_requeue_after,
  workload_identity_frozen_requeue_after,
}
use cluster_api_provider_kai.Session.{
  World, Api, Site, observing, preflight, KcpWrite, pin_identity, clear_freeze, trip_freeze, Exec,
  ◌>>=◌, ◌>>◌, pure, raise,
}

abbrev pub pin_key : String
pin_key = "controlplane.cluster.x-k8s.io/workload-cluster-uid"

abbrev pub mismatch_key : String
mismatch_key = "controlplane.cluster.x-k8s.io/workload-cluster-identity-mismatch"

-- identityMismatchPinnedSep, its first character apart
abbrev pub sep_head : ℕ
sep_head = b';'

unfoldable pub sep_tail : Text
sep_tail = codes " pinned "

unfoldable pub identity_none : Text
identity_none = codes "<none>"

unfoldable pub identity_malformed : Text
identity_malformed = codes "<malformed>"

unfoldable pub via_endpoint : Text
via_endpoint = codes "endpoint"

abbrev pub workload_identity_recheck_interval : ℕ
workload_identity_recheck_interval = 60

-- the character class of uidShape
unfoldable pub is_uid_char : ℕ → Bool
is_uid_char c =
    leb b'A' c && leb c b'Z' || leb b'a' c && leb c b'z' || leb b'0' c && leb c b'9' || eqb c b'-'

unfoldable pub all_uid_chars : Text → Bool
all_uid_chars [] = true
all_uid_chars (c ∷ s) = is_uid_char c && all_uid_chars s

-- uidShape: ^[A-Za-z0-9-]{1,64}$
unfoldable pub uid_shape : Text → Bool
uid_shape uid = leb 1 (length uid) && leb (length uid) 64 && all_uid_chars uid

unfoldable pub display_uid : Text → Text
display_uid uid =
    if uid == codes "" then identity_none else if uid_shape uid then uid else identity_malformed

-- kcp.Annotations[WorkloadClusterUIDAnnotation], "" when it is absent
abbrev pub pin_of : ControlPlane → Text
pin_of kcp = or_else (kcp.annotations pin_key) (codes "")

-- workloadIdentityFrozen
abbrev pub frozen : ControlPlane → Bool
frozen kcp = is_some (kcp.annotations mismatch_key)

unfoldable pub recorded_pin : Text → Option Text
recorded_pin mismatch = after_last (sep_head ∷ sep_tail) mismatch

unfoldable pub any_registered : List Machine → Bool
any_registered [] = false
any_registered (m ∷ ms) = registered m || any_registered ms

unfoldable pub identity_applies : ControlPlane → List Machine → ℕ → Bool
identity_applies kcp machines desired =
    if not (pin_of kcp == codes "")
    then true
    else if leb desired 1 && leb (length machines) 1
    then false
    else any_registered machines

-- identityGate; `hold` says that membership actions must wait.
pub record Gate : Type 0 where
  pub is_frozen : Bool
  pub hold : Bool

abbrev pub open_gate : Gate
open_gate = record { is_frozen = false; hold = false }

abbrev pub hold_gate : Gate
hold_gate = record { is_frozen = false; hold = true }

abbrev pub frozen_gate : Gate
frozen_gate = record { is_frozen = true; hold = true }

-- forgetIdentityCheck, markIdentityChecked
abbrev pub forget_identity_check : World → World
forget_identity_check w = record w { identity_checked_at = none }

abbrev pub set_annotation : String → Text → World → World
set_annotation k v w = record w { kcp = record w.kcp { annotations = put k v w.kcp.annotations } }

abbrev pub drop_annotation : String → World → World
drop_annotation k w = record w { kcp = record w.kcp { annotations = remove k w.kcp.annotations } }

-- The freeze is lifted where the pin is no longer the one recorded with the mismatch.
unfoldable pub repinned : ControlPlane → Bool
repinned kcp = elim (kcp.annotations mismatch_key) [
  | none ↦ false
  | some mismatch ↦ elim (recorded_pin mismatch) [
    | none ↦ false
    | some recorded ↦ not (recorded == display_uid (pin_of kcp))
  ]
]

module _ (api : Api) where
  open api use {now, format_time, uid, kcp_patch}

  abbrev pub mark_identity_checked : World → World
  mark_identity_checked w = record w { identity_checked_at = some now }

  abbrev pub identity_recheck_due : World → Bool
  identity_recheck_due w = elim w.identity_checked_at [
    | none ↦ true
    | some at ↦ leb workload_identity_recheck_interval (now - at)
  ]

  -- The value that tripIdentityFreeze writes.
  unfoldable pub mismatch_value : Text → Text → Text → Text
  mismatch_value observed via pin =
      (display_uid observed ++ codes " via " ++ via ++ codes " at " ++ format_time now)
      ++ ((sep_head ∷ sep_tail) ++ display_uid pin)

  -- tripIdentityFreeze, which always returns an identity_changed error: the world that it leaves.
  unfoldable pub trip_identity_freeze : Site → Text → Text → Text → World → World
  trip_identity_freeze site observed via pin w =
      if frozen w.kcp then w else elim (kcp_patch (trip_freeze site)) [
        | some e ↦ w
        | none ↦
            forget_identity_check (set_annotation mismatch_key (mismatch_value observed via pin) w)
      ]

  -- readWorkloadIdentity: a Namespace without a UID is an error.
  unfoldable pub read_workload_identity : Site → Text → Result Text
  read_workload_identity site via = elim (uid site via) [
    | ok u ↦ if u == codes "" then err failed else ok u
    | err e ↦ err failed
  ]

  unfoldable pub verify_workload_identity : Site → Text → Exec (Unit {0})
  verify_workload_identity site via w =
      if frozen w.kcp
      then (err identity_changed, w)
      else if pin_of w.kcp == codes ""
      then (ok tt, w)
      else elim (read_workload_identity site via) [
        | err e ↦ (err e, w)
        | ok u ↦
            if u == pin_of w.kcp
            then (ok tt, w)
            else (err identity_changed, trip_identity_freeze site u via (pin_of w.kcp) w)
      ]

  unfoldable pub verify_pinned_workload_identity : Site → Text → Exec (Unit {0})
  unfolding verify_workload_identity
  verify_pinned_workload_identity site via w =
      if frozen w.kcp
      then (err identity_changed, w)
      else if pin_of w.kcp == codes ""
      then (err identity_not_pinned, w)
      else verify_workload_identity site via w

  unfoldable pub verify_identity_via_endpoint : Site → Exec (Unit {0})
  unfolding verify_workload_identity
  verify_identity_via_endpoint site w =
      if frozen w.kcp
      then (err identity_changed, w)
      else if pin_of w.kcp == codes ""
      then (ok tt, w)
      else verify_workload_identity site via_endpoint w

  abbrev pub preflight_answer : Result (Unit {0}) → Option Outcome
  preflight_answer (ok _) = none
  preflight_answer (err identity_changed) = some (after workload_identity_frozen_requeue_after)
  preflight_answer (err _) = some (after joiner_gate_requeue_after)

  -- identityPreflight: `none` lets the change proceed, an outcome makes it wait.
  unfoldable pub identity_preflight : World → Option Outcome × World
  unfolding verify_identity_via_endpoint
  identity_preflight w =
      let (r, w') = verify_identity_via_endpoint preflight w in (preflight_answer r, w')

  unfoldable pub clear_repinned_identity_freeze : Exec (Unit {0})
  unfolding repinned
  clear_repinned_identity_freeze w =
      if repinned w.kcp
      then elim (kcp_patch clear_freeze) [
        | some e ↦ (err e, w)
        | none ↦ (ok tt, forget_identity_check (drop_annotation mismatch_key w))
      ]
      else (ok tt, w)
