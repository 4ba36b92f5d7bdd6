-- ===== src/Examples/Made.antt =====
-- A Machine that is created for a joiner, where the first name is taken.
use cluster_api_provider_kai.Prelude.{
  ℕ, zero, suc, ◌+◌, ◌≤◌, true, false, none, [], ◌∷◌, Text, codes, ◌≡◌, refl, ok, ◌⊎◌, found,
  not_found,
}
use cluster_api_provider_kai.Model.{join}
use cluster_api_provider_kai.Session.{create_machine, act}
use cluster_api_provider_kai.Creation.{
  infra_object, CreationState, CreationApi, create_control_plane_machine,
  new_control_plane_machine_name,
}
use cluster_api_provider_kai.Creation.Attempts.{
  Untouched, Added, create_control_plane_machine-Ended,
}
use cluster_api_provider_kai.Creation.Bounds.{create_control_plane_machine_bounded}
use cluster_api_provider_kai.Creation.Names.{
  IsLabel, new_control_plane_machine_name-IsLabel, all_chars, is_alphanumeric, first_is,
}
use cluster_api_provider_kai.Examples.{pinned_plane, world_of, bare}

abbrev suffixes : ℕ → Text
suffixes zero = codes "bcdfg"
suffixes (suc n) = codes "x2z4k"

abbrev pub creation_api : CreationApi
creation_api = record {
  namespace = codes "n";
  infra_namespace = codes "";
  join_token_secret = codes "c-join-token";
  template = found (record {
    role = codes "";
    distribution = codes "";
    version = codes "";
    hostname = codes "";
    control_plane_role = none;
    single_node = false;
    k3s_token_ref = none;
    join_token_ref = none;
    vip = none;
  });
  valid_hostname = λ h. true;
  template_annotations = bare;
  clone = ok tt;
  suffix = suffixes;
  create_fails = λ o. false;
  delete_fails = λ o. false;
  cache_reads = λ name. not_found ∷ found tt ∷ [];
}

-- an infrastructure machine has the first name
abbrev start : CreationState
start = record {
  world = world_of pinned_plane;
  objects = infra_object (codes "kcp-bcdfg") ∷ [];
  tried = 0;
}

create_control_plane_machine-Ended_example :
    Untouched creation_api pinned_plane start
      (create_control_plane_machine creation_api pinned_plane join (codes "hhhhhh") start)
    ⊎ Added creation_api pinned_plane join
        (codes "hhhhhh")
        start
        (create_control_plane_machine creation_api pinned_plane join (codes "hhhhhh") start)
create_control_plane_machine-Ended_example =
    create_control_plane_machine-Ended creation_api pinned_plane join (codes "hhhhhh") (λ o. refl)
      start

create_control_plane_machine_bounded_example :
    let r = create_control_plane_machine creation_api pinned_plane join (codes "hhhhhh") start in
    (r.1.tried ≤ 0 + 5)
    × ((r.1.world ≡ world_of pinned_plane)
        ⊎ (r.1.world ≡ act (create_machine join (codes "hhhhhh")) (world_of pinned_plane)))
create_control_plane_machine_bounded_example =
    create_control_plane_machine_bounded creation_api pinned_plane join (codes "hhhhhh") start

new_control_plane_machine_name-IsLabel_example :
    IsLabel (new_control_plane_machine_name (codes "my.kcp") (codes "bcdfg"))
unfolding all_chars is_alphanumeric first_is
new_control_plane_machine_name-IsLabel_example =
    new_control_plane_machine_name-IsLabel (codes "my.kcp") b'b' (codes "cdfg") refl refl refl refl
