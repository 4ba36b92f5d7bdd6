-- ===== src/Connect.antt =====
-- internal/controllers/controlplane/ha_leave_member.go: connectForLeave, connectForOrphans,
-- connectVerified, verifiedLeaveConn. A connection is the name of the apiserver that answered.
pub mod Verified
pub mod Actions
use cluster_api_provider_kai.Prelude.{
  Bool, true, false, not, ◌||◌, ◌&&◌, List, [], ◌∷◌, Text, codes, ◌≡◌, ◌≢◌, ◌==◌, ==_iff,
  if◌then◌else◌, if_elim, Result, Result-cases, ok, err, Error, identity_changed,
  identity_not_pinned, failed, arith, inl, inr, refl,
}
use cluster_api_provider_kai.Model.{Machine, ControlPlane}
use cluster_api_provider_kai.Session.{World, Api, Site, Exec}
use cluster_api_provider_kai.Candidates.{leave_candidate_ips, leave_excluded_hosts}
use cluster_api_provider_kai.Identity.{
  frozen, pin_of, via_endpoint, verify_pinned_workload_identity, read_workload_identity,
}
use cluster_api_provider_kai.Identity.Checks.{verify_pinned_workload_identity-ok_iff}

-- `answers` says through which apiserver the leave ConfigMap can be read (or is not there); it is
-- always true where the ConfigMap is not read.
module _ (api : Api) (site : Site) (answers : Text → Bool) where
  unfoldable pub verified_leave_conn : Text → Exec Text
  verified_leave_conn via w =
      if answers via
      then (let (r, w') = verify_pinned_workload_identity api site via w in
          elim r [ ok _ ↦ (ok via, w') | err e ↦ (err e, w') ])
      else (err failed, w)

  -- the members in order, then the endpoint; a changed identity ends the search
  unfoldable pub tried : Result Text → Exec Text → Exec Text
  tried (ok via) rest w = (ok via, w)
  tried (err identity_changed) rest w = (err identity_changed, w)
  tried (err e) rest w = rest w

  abbrev none_answered : Exec Text
  none_answered w = (err failed, w)

  unfoldable pub try_members : List Text → Exec Text
  try_members [] w = let (r, w') = verified_leave_conn via_endpoint w in tried r none_answered w'
  try_members (ip ∷ ips) w = let (r, w') = verified_leave_conn ip w in tried r (try_members ips) w'

  unfoldable pub connect_verified : List Machine → Text → List Text → Exec Text
  connect_verified machines target_name target_addresses w =
      if frozen w.kcp
      then (err identity_changed, w)
      else if pin_of w.kcp == codes ""
      then (err identity_not_pinned, w)
      else try_members
          (leave_candidate_ips api machines target_name target_addresses
            (leave_excluded_hosts api w.kcp))
          w
