-- ===== src/Examples/Orphaned.antt =====
-- Orphan cleanups of three members: one with an etcd member that no Machine accounts for, and one that
-- follows an old record.
use cluster_api_provider_kai.Prelude.{
  ◌≡◌, ◌≢◌, refl, Bool, true, Text, codes, List, [], ◌∷◌, some, none, ok, err, Result,
  identity_changed, put, found, not_found, ◌==◌, keep, sort_by, insert_by, text_less, member_of,
  occurrences, ◌++◌,
}
use cluster_api_provider_kai.Model.{ControlPlane}
use cluster_api_provider_kai.Member.{EtcdMember, canonical_member_id}
use cluster_api_provider_kai.Orphans.{orphan_leave_key, ExpectedMembers, expected_etcd_members}
use cluster_api_provider_kai.Orphans.Record.{OrphanLeave, parse_orphan_leave, fields, is_space}
use cluster_api_provider_kai.Orphans.Reconcile.{
  OrphanApi, reconcile_orphan_etcd_members, connect_for_orphans,
}
use cluster_api_provider_kai.Orphans.Removal.{reconcile_orphan_etcd_members-Cleanup, Cleanup}
use cluster_api_provider_kai.Orphans.Ending.{reconcile_orphan_etcd_members-Ends, Ends}
use cluster_api_provider_kai.Candidates.{
  dedupe, parse_ips, ips_of, own_member_address, unicast_ips, staying, reported_ips,
  leave_candidate_ips, leave_excluded_hosts,
}
use cluster_api_provider_kai.Identity.{
  uid_shape, all_uid_chars, is_uid_char, read_workload_identity, via_endpoint,
  verify_workload_identity, verify_pinned_workload_identity, pin_key,
}
use cluster_api_provider_kai.Connect.{connect_verified, try_members, tried, verified_leave_conn}
use cluster_api_provider_kai.Leave.{rendered_node_name, rendered_hostname, lower_char}
use cluster_api_provider_kai.Examples.{
  bare, answering, uid_a, three, plane_with, pinned_plane, world_of, etcd_member_b, leave_api,
  write_clock,
}

abbrev any_name : Text → Bool
any_name s = true

abbrev member_called : Text → EtcdMember
member_called name = record etcd_member_b { name = name; peer_address = name }

abbrev members : List EtcdMember
members =
    member_called (codes "a")
    ∷ member_called (codes "b")
    ∷ member_called (codes "c")
    ∷ member_called (codes "old")
    ∷ []

abbrev orphan_api : OrphanApi
orphan_api = record {
  env = leave_api;
  valid_name = any_name;
  all_machines = ok three;
  listed = found members;
  member = λ name. not_found;
  patch_member = λ leave. none;
}

reconcile_orphan_etcd_members-Cleanup_example :
    Cleanup orphan_api three 3
      (world_of pinned_plane)
      (reconcile_orphan_etcd_members orphan_api three 3 (world_of pinned_plane))
reconcile_orphan_etcd_members-Cleanup_example =
    reconcile_orphan_etcd_members-Cleanup orphan_api three 3 (world_of pinned_plane) refl

abbrev old_entry : OrphanLeave
old_entry = record { name = codes "old"; member_id = codes "f"; at = 1000 }

abbrev old_record : Text
old_record = codes "old f " ++ write_clock 1000

abbrev recorded_plane : ControlPlane
recorded_plane = plane_with (put orphan_leave_key old_record (put pin_key uid_a bare))

abbrev accounted : ExpectedMembers
accounted = record {
  names = codes "a" ∷ codes "a" ∷ codes "b" ∷ codes "b" ∷ codes "c" ∷ codes "c" ∷ [];
  addrs = codes "a" ∷ codes "b" ∷ codes "c" ∷ [];
}

old_record-parses : parse_orphan_leave (answering uid_a) any_name old_record ≡ some old_entry
unfolding parse_orphan_leave fields is_space canonical_member_id ◌==◌
old_record-parses = refl

three-accounted : expected_etcd_members leave_api three ≡ ok accounted
unfolding expected_etcd_members rendered_node_name rendered_hostname lower_char parse_ips ◌==◌
three-accounted = refl

connected : (connect_for_orphans orphan_api three (world_of recorded_plane)).0 ≡ ok (codes "a")
unfolding connect_verified try_members tried verified_leave_conn dedupe parse_ips ips_of
    own_member_address unicast_ips staying reported_ips leave_candidate_ips leave_excluded_hosts
    keep sort_by insert_by text_less member_of occurrences ◌==◌ uid_shape all_uid_chars is_uid_char
    read_workload_identity via_endpoint verify_workload_identity verify_pinned_workload_identity
connected = refl

unchanged_identity : {r : Result Text} {a : Text} → r ≡ ok a → r ≢ err identity_changed
unchanged_identity e h = cc

reconcile_orphan_etcd_members-Ends_example :
    Ends (reconcile_orphan_etcd_members orphan_api three 3 (world_of recorded_plane))
reconcile_orphan_etcd_members-Ends_example =
    reconcile_orphan_etcd_members-Ends orphan_api old_entry refl refl refl three three 3 old_record
      accounted (world_of recorded_plane) refl old_record-parses refl refl three-accounted
      (unchanged_identity connected)
