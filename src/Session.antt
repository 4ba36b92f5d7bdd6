-- ===== src/Session.antt =====
-- One reconcile of a control plane: the state that it changes, the answers that it gets from the
-- API servers, and the monad of its steps. What is written before an error stays written.
use cluster_api_provider_kai.Prelude.{ℕ, Bool, Option, List, ◌∷◌, Text, Result, ok, err, Error}
use cluster_api_provider_kai.Model.{ControlPlane, ControlPlaneRole}

-- The changes of membership that a reconcile asks for, as the API servers receive them.
pub data Action : Type 0 where
  -- a Machine of this role, and the ID of the join token stamped on its KairosConfig
  create_machine : ControlPlaneRole → Text → Action
  delete_machine : Text → Action
  -- the etcd-leave hook of this Machine is removed
  remove_hook : Text → Action
  -- the etcd-leave request of this node is written
  request_leave : Text → Action
  -- spec.leave of this EtcdMember is set
  set_spec_leave : Text → Bool → Action

-- The KairosControlPlane, the two in-memory clocks that the reconciler keeps for it
-- (identityCheckedAt and orphanCheckedAt), and the changes made so far, the latest first.
pub record World : Type 0 where
  pub kcp : ControlPlane
  pub identity_checked_at : Option ℕ
  pub orphan_checked_at : Option ℕ
  pub actions : List Action

-- Where in a reconcile the identity of a workload apiserver is read.
pub data Site : Type 0 where
  observing leaving orphans admitting preflight minting minted lifetime : Site

-- The writes of KairosControlPlane annotations.
pub data KcpWrite : Type 0 where
  pin_identity clear_freeze record_orphan clear_orphan : KcpWrite
  trip_freeze : Site → KcpWrite

-- What the reconcile is told from outside. The instant, texts of instants (time.RFC3339), IP
-- addresses (`parse_ip` is the 16-byte form of net.ParseIP), the kube-system UID as each apiserver
-- answers it (`via` is an address or `via_endpoint`; an error stands for a client that cannot be
-- built, too), and the failure of each write, if it fails.
pub record Api : Type 0 where
  pub now : ℕ
  pub format_time : ℕ → Text
  pub parse_time : Text → Option ℕ
  pub parse_ip : Text → Option Text
  pub is_global_unicast : Text → Bool
  pub endpoint_host : Text
  pub uid : Site → Text → Result Text
  pub kcp_patch : KcpWrite → Option Error

abbrev pub Exec {ℓ} : Type ℓ → Type ℓ
Exec A = World → Result A × World

infixl 5 ◌>>=◌ ◌>>◌
abbrev pub continue {ℓ κ} :
    {A : Type ℓ} {B : Type κ} → Result A → (A → World → Result B × World) → World → Result B × World
continue (ok a) f w = f a w
continue (err e) f w = (err e, w)

abbrev pub ◌>>=◌ : {A B : Type 0} → Exec A → (A → Exec B) → Exec B
◌>>=◌ m f w = let (r, w') = m w in continue r f w'

abbrev pub ◌>>◌ : {A B : Type 0} → Exec A → Exec B → Exec B
m >> k = m >>= λ _. k

abbrev pub pure : {A : Type 0} → A → Exec A
pure a w = (ok a, w)

abbrev pub raise : {A : Type 0} → Error → Exec A
raise e w = (err e, w)

abbrev pub act : Action → World → World
act a w = record w { actions = a ∷ w.actions }
