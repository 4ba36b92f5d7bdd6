-- ===== src/Joiner/Sequencing.antt =====
-- The join gate admits a joiner only when every member before it has finished joining.
use cluster_api_provider_kai.Prelude.{
  Bool, ◌&&◌, true, false, not, List, [], ◌∷◌, Text, ◌≡◌, refl, arith, ◌↔◌, Result, ok, err,
  count_if,
}
use cluster_api_provider_kai.Model.{Machine, ControlPlane, registered}
use cluster_api_provider_kai.Etcd.{EtcdStatus}
use cluster_api_provider_kai.Session.{World, Api, Exec}
use cluster_api_provider_kai.Joiner.{
  joinable, report_of, acceptable, check_joiners, check_members, strict_distribution,
  init_machine_joinable, admitted, admit_joiner,
}

-- k0sMemberJoined: a Node, and a healthy voting report of it.
unfoldable pub has_joined : EtcdStatus → Machine → Bool
has_joined status m = registered m && acceptable true (report_of status m)

-- a member that stays and has not finished joining
abbrev pub pending : EtcdStatus → Machine → Bool
pending status m = not m.deleting && not (has_joined status m)

check_joiners-none_pending :
    (status : EtcdStatus) (ms : List Machine)
    → check_joiners true status ms ≡ joinable
    → count_if (pending status) ms ≡ 0
unfolding check_joiners count_if has_joined
check_joiners-none_pending status [] h = refl
check_joiners-none_pending status (m ∷ ms) h = ground (arith, check_joiners-none_pending status ms)

check_joiners-open :
    (status : EtcdStatus) (ms : List Machine)
    → count_if (pending status) ms ≡ 0
    → check_joiners true status ms ≡ joinable
unfolding check_joiners count_if has_joined
check_joiners-open status [] h = refl
check_joiners-open status (m ∷ ms) h = ground (arith, check_joiners-open status ms)

check_joiners_mono :
    (status : EtcdStatus) (ms : List Machine)
    → check_joiners true status ms ≡ joinable
    → check_joiners false status ms ≡ joinable
unfolding check_joiners
check_joiners_mono status [] h = refl
check_joiners_mono status (m ∷ ms) h = ground (arith, check_joiners_mono status ms)

-- What the gate on k0s asks of the oldest Machine and of the others.
pub record Settled (kcp : ControlPlane) (status : EtcdStatus) (first : Machine)
    (rest : List Machine) : Type 0 where
  pub kubeconfig : kcp.kubeconfig_ready ≡ true
  pub first_joined : has_joined status first ≡ true
  pub none_pending : count_if (pending status) rest ≡ 0

-- On k0s, with the etcd status read, the gate opens exactly when the kubeconfig is ready, the oldest
-- Machine has joined (it has a Node, and that node reports healthy and voting), and no other Machine
-- that stays is still joining.
pub init_machine_joinable_iff :
    (kcp : ControlPlane) (status : EtcdStatus) (first : Machine) (rest : List Machine)
    → strict_distribution kcp ≡ true
    → (init_machine_joinable kcp (ok status) (first ∷ rest) ≡ ok joinable)
      ↔ Settled kcp status first rest
unfolding init_machine_joinable has_joined
init_machine_joinable_iff kcp status first rest strict = (
  λ h. record {
    kubeconfig = ground arith;
    first_joined = ground arith;
    none_pending = check_joiners-none_pending status rest (ground arith);
  },
  λ s. ground (arith, check_joiners-open status rest s.none_pending),
)

-- Whatever the distribution, a joiner is admitted only when a Machine exists and the oldest one has a
-- Node, the kubeconfig is ready, the etcd status was read, and the checks of the oldest Machine and of
-- the joiners before it, in that status, found nothing against it.
pub admit_joiner-needs_init :
    (api : Api) (token : Exec Text) (status : Result EtcdStatus) (machines : List Machine)
    (w : World) (id : Text)
    → (admit_joiner api token status machines w).0 ≡ ok (admitted id)
    → (first : Machine) × (rest : List Machine) × (st : EtcdStatus) × (machines ≡ first ∷ rest)
      × (status ≡ ok st)
      × (registered first ≡ true)
      × (w.kcp.kubeconfig_ready ≡ true)
      × (check_members (strict_distribution w.kcp) st first rest ≡ joinable)
unfolding admit_joiner init_machine_joinable
admit_joiner-needs_init api token status [] w id h = absurd (ground arith)
admit_joiner-needs_init api token (err e) (first ∷ rest) w id h = absurd (ground arith)
admit_joiner-needs_init api token (ok st) (first ∷ rest) w id h =
    (first, rest, st, refl, refl, ground arith, ground arith, ground arith)
