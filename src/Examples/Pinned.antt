-- ===== src/Examples/Pinned.antt =====
-- Identity checks and verified connections of a pinned, a frozen and a fresh control plane.
use cluster_api_provider_kai.Prelude.{
  ◌≡◌, ◌≢◌, ◌↔◌, refl, Result, ok, err, identity_changed, List, [], ◌∷◌, Text, codes, some, true,
  false, ◌==◌, arith, Bool,
}
use cluster_api_provider_kai.Session.{World, observing, leaving}
use cluster_api_provider_kai.Identity.{
  pin_of, frozen, repinned, recorded_pin, mismatch_value, display_uid, trip_identity_freeze,
  verify_pinned_workload_identity, verify_workload_identity, read_workload_identity, via_endpoint,
}
use cluster_api_provider_kai.Identity.Freeze.{
  recorded_pin-mismatch_value, trip_identity_freeze-repinned, with_pin,
}
use cluster_api_provider_kai.Identity.Checks.{
  verify_pinned_workload_identity-ok_iff, verify_workload_identity-mismatch,
}
use cluster_api_provider_kai.Identity.Reconcile.{reconcile_workload_identity, pin_answers}
use cluster_api_provider_kai.Identity.Pinning.{
  pin_answers-Agreed, reconcile_workload_identity-Vouched, Agreed, Vouched,
}
use cluster_api_provider_kai.Connect.{connect_verified}
use cluster_api_provider_kai.Connect.Verified.{
  connect_verified-Serves, connect_verified-world, Serves,
}
use cluster_api_provider_kai.Candidates.{
  dedupe, parse_ips, ips_of, own_member_address, unicast_ips, staying, reported_ips,
  leave_candidate_ips, leave_excluded_hosts,
}
use cluster_api_provider_kai.Prelude.{keep, sort_by, insert_by, text_less, member_of, occurrences}
use cluster_api_provider_kai.Identity.{
  uid_shape, all_uid_chars, is_uid_char, clear_repinned_identity_freeze, identity_applies,
  any_registered,
}
use cluster_api_provider_kai.Identity.Reconcile.{
  first_not, gate_identity, pin_workload_identity, observe_workload_identity, after_clear, answered,
}
use cluster_api_provider_kai.Connect.{try_members, tried, verified_leave_conn}
use cluster_api_provider_kai.Prelude.{All}
use cluster_api_provider_kai.Candidates.Sound.{leave_candidate_ips-Usable, Usable}
use cluster_api_provider_kai.Examples.{
  bare, answering, uid_a, uid_b, three, plane_with, pinned_plane, frozen_plane, world_of,
}

recorded_pin-mismatch_value_example :
    recorded_pin (mismatch_value (answering uid_b) uid_b via_endpoint uid_a)
    ≡ some (display_uid uid_a)
recorded_pin-mismatch_value_example =
    recorded_pin-mismatch_value (answering uid_b) uid_b via_endpoint uid_a

abbrev pinned_world : World
pinned_world = world_of pinned_plane

abbrev frozen_world : World
frozen_world = world_of frozen_plane

abbrev fresh_world : World
fresh_world = world_of (plane_with bare)

abbrev tripped : World
tripped = trip_identity_freeze (answering uid_b) observing uid_b via_endpoint uid_a pinned_world

trip_identity_freeze-repinned_example :
    (frozen tripped.kcp ≡ true)
    × ((clear_repinned_identity_freeze (answering uid_b) (with_pin uid_b tripped)).0 ≡ ok tt)
    × (frozen (clear_repinned_identity_freeze (answering uid_b) (with_pin uid_b tripped)).1.kcp
        ≡ (display_uid uid_a == display_uid uid_b))
    × (pin_of (clear_repinned_identity_freeze (answering uid_b) (with_pin uid_b tripped)).1.kcp
        ≡ uid_b)
trip_identity_freeze-repinned_example =
    trip_identity_freeze-repinned (answering uid_b) observing uid_b via_endpoint uid_a uid_b
      pinned_world refl refl refl

verify_pinned_workload_identity-ok_iff_example :
    ((verify_pinned_workload_identity (answering uid_a) leaving via_endpoint pinned_world).0
      ≡ ok tt)
    ↔ ((frozen pinned_plane ≡ false)
        × (pin_of pinned_plane ≢ codes "")
        × (read_workload_identity (answering uid_a) leaving via_endpoint
            ≡ ok (pin_of pinned_plane)))
verify_pinned_workload_identity-ok_iff_example =
    verify_pinned_workload_identity-ok_iff (answering uid_a) leaving via_endpoint pinned_world

verify_workload_identity-mismatch_example :
    ((verify_workload_identity (answering uid_b) leaving via_endpoint pinned_world).0
      ≡ err identity_changed)
    × (frozen (verify_workload_identity (answering uid_b) leaving via_endpoint pinned_world).1.kcp
        ≡ true)
unfolding read_workload_identity ◌==◌
verify_workload_identity-mismatch_example =
    verify_workload_identity-mismatch (answering uid_b) leaving via_endpoint uid_b pinned_world refl
      (λ e. cc) (λ e. ground arith) refl

abbrev answers : List (Text × Text)
answers = (codes "x", uid_a) ∷ (codes "y", uid_a) ∷ []

pin_answers-Agreed_example :
    let w' = (pin_answers (answering uid_a) answers fresh_world).1 in
    Agreed answers (pin_of w'.kcp) × (answers ≢ []) × (frozen w'.kcp ≡ false)
unfolding pin_answers first_not uid_shape all_uid_chars is_uid_char ◌==◌
pin_answers-Agreed_example = pin_answers-Agreed (answering uid_a) answers fresh_world refl

reconcile_workload_identity-Vouched_example :
    Vouched three 3 fresh_world.kcp
      (reconcile_workload_identity (answering uid_a) three 3 fresh_world).1.kcp
unfolding reconcile_workload_identity clear_repinned_identity_freeze repinned after_clear
    gate_identity identity_applies any_registered pin_workload_identity pin_answers
    observe_workload_identity answered first_not dedupe parse_ips ips_of own_member_address
    unicast_ips staying reported_ips leave_candidate_ips leave_excluded_hosts keep sort_by insert_by
    text_less member_of occurrences ◌==◌ uid_shape all_uid_chars is_uid_char read_workload_identity
    via_endpoint
reconcile_workload_identity-Vouched_example =
    reconcile_workload_identity-Vouched (answering uid_a) three 3 fresh_world refl

abbrev reachable : Text → Bool
reachable via = true

ok-ne : {r : Result Text} {a : Text} → r ≡ ok a → r ≢ err identity_changed
ok-ne e h = cc

connect_verified-Serves_example :
    Serves (answering uid_a) leaving reachable (codes "a") pinned_plane
    × ((connect_verified
          (answering uid_a)
          leaving
          reachable
          three
          (codes "b")
          (codes "b" ∷ [])
          pinned_world).1
        ≡ pinned_world)
unfolding connect_verified try_members tried verified_leave_conn dedupe parse_ips ips_of
    own_member_address unicast_ips staying reported_ips leave_candidate_ips leave_excluded_hosts
    keep sort_by insert_by text_less member_of occurrences ◌==◌ uid_shape all_uid_chars is_uid_char
    read_workload_identity via_endpoint verify_workload_identity verify_pinned_workload_identity
connect_verified-Serves_example =
    connect_verified-Serves (answering uid_a) leaving reachable three (codes "b") (codes "b" ∷ [])
      pinned_world (codes "a") refl

connect_ok :
    (connect_verified
      (answering uid_a)
      leaving
      reachable
      three
      (codes "b")
      (codes "b" ∷ [])
      pinned_world).0
    ≡ ok (codes "a")
unfolding connect_verified try_members tried verified_leave_conn dedupe parse_ips ips_of
    own_member_address unicast_ips staying reported_ips leave_candidate_ips leave_excluded_hosts
    keep sort_by insert_by text_less member_of occurrences ◌==◌ uid_shape all_uid_chars is_uid_char
    read_workload_identity via_endpoint verify_workload_identity verify_pinned_workload_identity
connect_ok = refl

connect_verified-world_example :
    (connect_verified
      (answering uid_a)
      leaving
      reachable
      three
      (codes "b")
      (codes "b" ∷ [])
      pinned_world).1
    ≡ pinned_world
connect_verified-world_example =
    connect_verified-world (answering uid_a) leaving reachable three (codes "b") (codes "b" ∷ [])
      pinned_world (ok-ne connect_ok)

leave_candidate_ips-Usable_example :
    All
      (Usable (answering uid_a) three (codes "b") (codes "b" ∷ []) (codes "vip" ∷ []))
      (leave_candidate_ips (answering uid_a) three (codes "b") (codes "b" ∷ []) (codes "vip" ∷ []))
leave_candidate_ips-Usable_example =
    leave_candidate_ips-Usable (answering uid_a) three (codes "b") (codes "b" ∷ [])
      (codes "vip" ∷ [])
