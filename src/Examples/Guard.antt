-- ===== src/Examples/Guard.antt =====
-- The quorum guard and the orphan guard on three healthy members.
use cluster_api_provider_kai.Prelude.{
  Result, ◌⊎◌, ◌≤◌, true, ◌≡◌, ◌↔◌, refl, ok, List, [], ◌∷◌, codes, false,
}
use cluster_api_provider_kai.Etcd.{EtcdStatus, can_remove_member, allowed}
use cluster_api_provider_kai.Etcd.Quorum.{
  can_remove_member-live_iff, can_remove_member-bypass, is_live, Proven,
}
use cluster_api_provider_kai.Orphans.{orphan_removal_blocked}
use cluster_api_provider_kai.Orphans.Safety.{orphan_removal_blocked-SafeRemoval, SafeRemoval}
use cluster_api_provider_kai.Examples.{
  machine_b, pinned_plane, all_voting, member_named, leave_api, etcd_member_b,
}
use cluster_api_provider_kai.Member.{EtcdMember}
use cluster_api_provider_kai.Model.{desired_replicas, Machine, running_phase}
use cluster_api_provider_kai.Prelude.{none, arith, lookup, ◌==◌}

abbrev member_at : EtcdMember → EtcdMember
member_at m = record m { name = codes "old" }

abbrev joined : List EtcdMember
joined = etcd_member_b ∷ member_at etcd_member_b ∷ []

can_remove_member-live_iff_example :
    (can_remove_member pinned_plane (ok all_voting) machine_b ≡ ok allowed)
    ↔ Proven 3 (codes "b") (ok all_voting)
unfolding lookup running_phase ◌==◌
can_remove_member-live_iff_example =
    can_remove_member-live_iff pinned_plane (ok all_voting) machine_b refl (omega arith) refl
      (refl, (refl, (refl, tt)))

abbrev joining : Machine
joining = member_named (codes "d") 4 none

can_remove_member-bypass_example :
    ((read : Result EtcdStatus) → can_remove_member pinned_plane read joining ≡ ok allowed) ↔ (
      (pinned_plane.deleting ≡ true)
      ⊎ ((desired_replicas pinned_plane ≤ 1) ⊎ (is_live joining ≡ false)))
can_remove_member-bypass_example = can_remove_member-bypass pinned_plane joining

orphan_removal_blocked-SafeRemoval_example :
    (orphan_removal_blocked leave_api (machine_b ∷ []) joined (member_at etcd_member_b) all_voting 1
      ≡ false)
    ↔ SafeRemoval leave_api (machine_b ∷ []) joined (member_at etcd_member_b) all_voting 1
orphan_removal_blocked-SafeRemoval_example =
    orphan_removal_blocked-SafeRemoval leave_api (machine_b ∷ []) joined (member_at etcd_member_b)
      all_voting 1
