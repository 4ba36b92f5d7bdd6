-- ===== src/Examples/Departure.antt =====
-- The etcd-leave handshake of the second of three members.
use cluster_api_provider_kai.Prelude.{
  arith, inr, ◌⊎◌, ◌≡◌, ◌≢◌, refl, Result, ok, err, identity_changed, Text, codes, true, false, put,
  ◌==◌, Annotations,
}
use cluster_api_provider_kai.Session.{leaving}
use cluster_api_provider_kai.Leave.{
  LeaveApi, Leaving, left, leave_requested, leave_requested_at_key, member_leave_requested_at_key,
  leave_unreachable_since_key, leave_unreachable_expired, leave_node_name,
}
use cluster_api_provider_kai.Leave.Steps.{machine_at_pre_terminate}
use cluster_api_provider_kai.Leave.Reconcile.{
  requested, write_first_request, reconcile_member_leave, connect_for_leave,
}
use cluster_api_provider_kai.Leave.Handshake.{
  write_first_request-clears_ack, reconcile_member_leave-Released, Released, CanRelease, Capped,
}
use cluster_api_provider_kai.Leave.Acks.{reconcile_member_leave-keeps_acks}
use cluster_api_provider_kai.Leave.Evidence.{
  reconcile_member_leave-HasLeft, reconcile_member_leave-unrequested, HasLeft,
}
use cluster_api_provider_kai.Connect.Verified.{Serves}
use cluster_api_provider_kai.Candidates.{
  dedupe, parse_ips, ips_of, own_member_address, unicast_ips, staying, reported_ips,
  leave_candidate_ips, leave_excluded_hosts,
}
use cluster_api_provider_kai.Prelude.{keep, sort_by, insert_by, text_less, member_of, occurrences}
use cluster_api_provider_kai.Identity.{
  uid_shape, all_uid_chars, is_uid_char, read_workload_identity, via_endpoint,
  verify_workload_identity, verify_pinned_workload_identity,
}
use cluster_api_provider_kai.Connect.{connect_verified, try_members, tried, verified_leave_conn}
use cluster_api_provider_kai.Model.{distribution_of, k0s}
use cluster_api_provider_kai.Leave.Reconcile.{progress_leave, first_request, follow_request}
use cluster_api_provider_kai.Leave.{
  remove_etcd_leave_hook, leave_unreachable, stamp_annotation_once, annotate_once,
  abandon_member_leave,
}
use cluster_api_provider_kai.Leave.Steps.{waiting_for_pre_terminate_hook, condition_true}
use cluster_api_provider_kai.Examples.{
  answering, uid_a, three, pinned_plane, world_of, leave_api, departing_with, hooked, write_clock,
}

abbrev acked : Text → Text
acked k = left

abbrev silent : Text → Text
silent k = leave_requested

abbrev leaving_with : Annotations → (Text → Text) → Leaving
leaving_with as_ data_ = record {
  world = world_of pinned_plane;
  target = departing_with as_;
  config_map = data_;
}

abbrev fresh : Leaving
fresh = leaving_with hooked acked

write_first_request-clears_ack_example :
    let s' = (write_first_request leave_api (codes "b") fresh).1 in
    ((requested s'.target ≡ false) ⊎ (s'.config_map (codes "b") ≡ leave_requested))
    × (s'.config_map (codes "c") ≡ left)
write_first_request-clears_ack_example =
    write_first_request-clears_ack leave_api (codes "b") (codes "c") fresh refl (λ e. ground arith)

abbrev recent : Leaving
recent = leaving_with (put leave_requested_at_key (write_clock 4900) hooked) acked

reconcile_member_leave-keeps_acks_example :
    (reconcile_member_leave leave_api three recent).1.config_map (codes "b") ≡ left
unfolding leave_node_name
reconcile_member_leave-keeps_acks_example =
    reconcile_member_leave-keeps_acks leave_api (codes "b") three (codes "b") recent refl (inr refl)
      refl

abbrev late : Leaving
late =
    leaving_with
      (put member_leave_requested_at_key (write_clock 1000)
        (put leave_requested_at_key (write_clock 500) hooked))
      silent

late-CanRelease : CanRelease leave_api late
late-CanRelease = record { thawed = refl; hook_patched = refl; id_patched = refl }

late-Capped : Capped leave_api late
late-Capped = record { stamped = refl; over = refl }

connect_ok : (connect_for_leave leave_api three late.target late.world).0 ≡ ok (codes "a")
unfolding connect_for_leave connect_verified try_members tried verified_leave_conn dedupe parse_ips
    ips_of own_member_address unicast_ips staying reported_ips leave_candidate_ips
    leave_excluded_hosts keep sort_by insert_by text_less member_of occurrences ◌==◌ uid_shape
    all_uid_chars is_uid_char read_workload_identity via_endpoint verify_workload_identity
    verify_pinned_workload_identity
connect_ok = refl

ok-ne : {r : Result Text} {a : Text} → r ≡ ok a → r ≢ err identity_changed
ok-ne e h = cc

reconcile_member_leave-Released_example : Released (reconcile_member_leave leave_api three late)
unfolding distribution_of k0s leave_node_name ◌==◌
reconcile_member_leave-Released_example =
    reconcile_member_leave-Released leave_api three (codes "b") late (ok-ne connect_ok) refl refl
      late-CanRelease refl refl late-Capped

reconcile_member_leave-HasLeft_example :
    ((via : Text) × Serves (answering uid_a) leaving leave_api.config_map_answers via pinned_plane)
    × HasLeft leave_api (codes "b") recent
unfolding reconcile_member_leave leave_node_name progress_leave connect_for_leave distribution_of
    k0s left connect_verified try_members tried verified_leave_conn dedupe parse_ips ips_of
    own_member_address unicast_ips staying reported_ips leave_candidate_ips leave_excluded_hosts
    keep sort_by insert_by text_less member_of occurrences ◌==◌ uid_shape all_uid_chars is_uid_char
    read_workload_identity via_endpoint verify_workload_identity verify_pinned_workload_identity
    follow_request remove_etcd_leave_hook
reconcile_member_leave-HasLeft_example =
    reconcile_member_leave-HasLeft leave_api three (codes "b") recent refl refl refl refl refl

-- no apiserver can be reached
abbrev cut_off : LeaveApi
cut_off = record leave_api { config_map_answers = λ via. false }

abbrev stranded : Leaving
stranded = leaving_with (put leave_unreachable_since_key (write_clock 1000) hooked) silent

reconcile_member_leave-unrequested_example :
    (machine_at_pre_terminate stranded.target ≡ true)
    × ((via : Text) → (connect_for_leave cut_off three stranded.target stranded.world).0 ≢ ok via)
    × (leave_unreachable_expired cut_off (reconcile_member_leave cut_off three stranded).1.target
        ≡ true)
unfolding reconcile_member_leave leave_node_name progress_leave connect_for_leave distribution_of
    k0s left connect_verified try_members tried verified_leave_conn dedupe parse_ips ips_of
    own_member_address unicast_ips staying reported_ips leave_candidate_ips leave_excluded_hosts
    keep sort_by insert_by text_less member_of occurrences ◌==◌ uid_shape all_uid_chars is_uid_char
    read_workload_identity via_endpoint verify_workload_identity verify_pinned_workload_identity
    first_request leave_unreachable stamp_annotation_once annotate_once abandon_member_leave
    remove_etcd_leave_hook machine_at_pre_terminate condition_true waiting_for_pre_terminate_hook
reconcile_member_leave-unrequested_example =
    reconcile_member_leave-unrequested cut_off three (codes "b") stranded refl refl refl refl refl
