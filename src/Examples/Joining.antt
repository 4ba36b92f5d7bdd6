-- ===== src/Examples/Joining.antt =====
-- The join gate on three members that have joined.
use cluster_api_provider_kai.Prelude.{
  ◌≡◌, ◌↔◌, refl, ok, Result, List, [], ◌∷◌, Text, codes, true, lookup, ◌==◌,
}
use cluster_api_provider_kai.Model.{Machine, registered, distribution_of, k0s}
use cluster_api_provider_kai.Etcd.{EtcdStatus}
use cluster_api_provider_kai.Session.{Exec}
use cluster_api_provider_kai.Joiner.{
  init_machine_joinable, joinable, admit_joiner, strict_distribution, check_members, check_joiners,
}
use cluster_api_provider_kai.Joiner.Sequencing.{
  init_machine_joinable_iff, admit_joiner-needs_init, Settled,
}
use cluster_api_provider_kai.Examples.{
  answering, uid_a, machine_a, machine_b, machine_c, three, pinned_plane, world_of, all_voting,
}

init_machine_joinable_iff_example :
    (init_machine_joinable pinned_plane (ok all_voting) three ≡ ok joinable)
    ↔ Settled pinned_plane all_voting machine_a (machine_b ∷ machine_c ∷ [])
unfolding distribution_of k0s ◌==◌
init_machine_joinable_iff_example =
    init_machine_joinable_iff pinned_plane all_voting machine_a (machine_b ∷ machine_c ∷ []) refl

abbrev token : Exec Text
token w = (ok (codes "t"), w)

abbrev all_read : Result EtcdStatus
all_read = ok all_voting

admit_joiner-needs_init_example :
    (first : Machine) × (rest : List Machine) × (st : EtcdStatus) × (three ≡ first ∷ rest)
    × (all_read ≡ ok st)
    × (registered first ≡ true)
    × (pinned_plane.kubeconfig_ready ≡ true)
    × (check_members (strict_distribution pinned_plane) st first rest ≡ joinable)
unfolding admit_joiner init_machine_joinable check_members check_joiners lookup distribution_of k0s
    ◌==◌
admit_joiner-needs_init_example =
    admit_joiner-needs_init (answering uid_a) token all_read three (world_of pinned_plane)
      (codes "t") refl
