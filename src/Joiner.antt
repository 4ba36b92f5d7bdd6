-- ===== src/Joiner.antt =====
-- internal/controllers/controlplane/kairoscontrolplane_controller.go: the role of a new machine and
-- the gate in front of a joiner (controlPlaneRoleForNewMachine, initMachineJoinable, admitJoiner).
pub mod Sequencing
use cluster_api_provider_kai.Prelude.{
  ℕ, Bool, ◌&&◌, ◌||◌, true, false, not, Option, none, some, List, [], ◌∷◌, Text, codes, leb, ◌==◌,
  if◌then◌else◌, lookup, Result, ok, err, Error, identity_changed,
}
use cluster_api_provider_kai.Model.{
  Machine, ControlPlane, ControlPlaneRole, single, init, join, registered, node_ref_name,
  distribution_of, k0s,
}
use cluster_api_provider_kai.Etcd.{MemberStatus, EtcdStatus, counts}
use cluster_api_provider_kai.Session.{World, Api, admitting, Exec}
use cluster_api_provider_kai.Identity.{verify_identity_via_endpoint}

unfoldable pub control_plane_role_for_new_machine : ℕ → List Machine → ControlPlaneRole
control_plane_role_for_new_machine desired existing =
    if leb desired 1 then single else elim existing [ [] ↦ init | _ ∷ _ ↦ join ]

-- initMachineJoinable's answer; a closed gate carries its reason, with the joiner that it names.
pub data Joinable : Type 0 where
  joinable not_created_yet no_node_ref no_kubeconfig init_not_voting : Joinable
  joiner_unregistered joiner_not_voting : Text → Joinable

-- what the node of a Machine has reported
abbrev pub report_of : EtcdStatus → Machine → Option MemberStatus
report_of status m = lookup (node_ref_name m) status

-- k0s wants a healthy voting report; elsewhere only an explicit bad report blocks.
abbrev pub acceptable : Bool → Option MemberStatus → Bool
acceptable strict none = not strict
acceptable strict (some st) = counts st

-- the loop over machines[1:]
unfoldable pub check_joiners : Bool → EtcdStatus → List Machine → Joinable
check_joiners strict status [] = joinable
check_joiners strict status (m ∷ ms) =
    let rest = check_joiners strict status ms in
    if m.deleting
    then rest
    else if not (registered m)
    then joiner_unregistered m.name
    else if acceptable strict (report_of status m)
    then rest
    else joiner_not_voting m.name

unfoldable pub check_members : Bool → EtcdStatus → Machine → List Machine → Joinable
unfolding check_joiners
check_members strict status first rest =
    if acceptable strict (report_of status first)
    then check_joiners strict status rest
    else init_not_voting

abbrev pub strict_distribution : ControlPlane → Bool
strict_distribution kcp = distribution_of kcp == k0s

check_read : Bool → Result EtcdStatus → Machine → List Machine → Result Joinable
check_read strict (err e) first rest = err e
check_read strict (ok status) first rest = ok (check_members strict status first rest)

-- `machines` are sorted oldest first; `read` is the answer of readEtcdStatus.
unfoldable pub init_machine_joinable :
    ControlPlane → Result EtcdStatus → List Machine → Result Joinable
unfolding check_read check_members
init_machine_joinable kcp read [] = ok not_created_yet
init_machine_joinable kcp read (first ∷ rest) =
    if not (registered first)
    then ok no_node_ref
    else if not kcp.kubeconfig_ready
    then ok no_kubeconfig
    else check_read (strict_distribution kcp) read first rest

-- joinAdmission: held back, or admitted with the ID of the join token ("" for k3s).
pub data Admission : Type 0 where
  held_back : Admission
  admitted : Text → Admission

module _ (api : Api) where
  -- on k3s a mismatch is an error, and a failed check holds the joiner
  abbrev admit_verified : Result (Unit {0}) → Result Admission
  admit_verified (ok _) = ok (admitted (codes ""))
  admit_verified (err identity_changed) = err identity_changed
  admit_verified (err _) = ok held_back

  admit_k3s : Exec Admission
  admit_k3s w = let (r, w') = verify_identity_via_endpoint api admitting w in (admit_verified r, w')

  abbrev admit_token : Result Text → Result Admission
  admit_token (err e) = err e
  admit_token (ok id) = if id == codes "" then ok held_back else ok (admitted id)

  -- `ensure_token` is ensureK0sControllerJoinToken: an ID, or "" to hold the joiner back.
  unfoldable pub admit_joiner : Exec Text → Result EtcdStatus → List Machine → Exec Admission
  unfolding admit_k3s
  admit_joiner ensure_token read machines w = elim (init_machine_joinable w.kcp read machines) [
    | err e ↦ (err e, w)
    | ok joinable ↦
        if strict_distribution w.kcp
        then (let (r, w') = ensure_token w in (admit_token r, w'))
        else admit_k3s w
    | ok closed ↦ (ok held_back, w)
  ]
