-- ===== src/Examples/Records.antt =====
-- A record of an orphan removal, written and read back.
use cluster_api_provider_kai.Prelude.{
  ◌≡◌, refl, Text, codes, true, Bool, some, none, ltb, ◌+◌, if◌then◌else◌,
}
use cluster_api_provider_kai.Orphans.{orphan_leave_clock_skew}
use cluster_api_provider_kai.Orphans.Record.{
  OrphanLeave, Recordable, format_orphan_leave, parse_orphan_leave, parse-format_orphan_leave,
  no_space, is_space,
}
use cluster_api_provider_kai.Member.{canonical_member_id}
use cluster_api_provider_kai.Examples.{answering, uid_a}

abbrev removal : OrphanLeave
removal = record { name = codes "node-b"; member_id = codes "ab12"; at = 4000 }

abbrev any_name : Text → Bool
any_name s = true

removal-Recordable : Recordable (answering uid_a) any_name removal
unfolding no_space canonical_member_id is_space
removal-Recordable = record {
  valid = refl;
  name_words = (refl, λ e. cc);
  canonical = refl;
  id_words = (refl, λ e. cc);
  time_words = (refl, λ e. cc);
  time_parses = refl;
}

parse-format_orphan_leave_example :
    parse_orphan_leave
      (answering uid_a)
      any_name
      (format_orphan_leave (answering uid_a) any_name removal)
    ≡ (if ltb ((answering uid_a).now + orphan_leave_clock_skew) removal.at
        then none
        else some removal)
parse-format_orphan_leave_example =
    parse-format_orphan_leave (answering uid_a) any_name removal removal-Recordable
