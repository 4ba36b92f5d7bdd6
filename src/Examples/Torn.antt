-- ===== src/Examples/Torn.antt =====
-- A control plane that is deleted, with one Machine that is gone and one of another control plane.
use cluster_api_provider_kai.Prelude.{
  true, false, some, List, [], ◌∷◌, Text, codes, ◌≡◌, ◌≢◌, refl, arith, ok, All, count_if, ◌==◌,
}
use cluster_api_provider_kai.Model.{done}
use cluster_api_provider_kai.Teardown.{
  OwnedMachine, written, gone, Write, finalizer_removed, TeardownApi, TeardownState, no_cluster,
  reconcile_delete, strip_etcd_leave_hooks, strip_listed, strip_hooks, strip_one,
  drain_owned_machines, drain_listed, drain, drain_one, after_strip, after_drain, remove_finalizer,
  owned_by_refs,
}
use cluster_api_provider_kai.Teardown.Strip.{Ours, reconcile_delete-Ours}
use cluster_api_provider_kai.Teardown.Drain.{remains, is_gone, drain_owned_machines-count}
use cluster_api_provider_kai.Teardown.Finalizer.{
  reconcile_delete-last, Finished, reconcile_delete-finishes,
}

abbrev owned_by : Text → Text → OwnedMachine
owned_by uid name = record {
  name = name;
  owners = record { controller = some true; kind = codes "KairosControlPlane"; uid = uid } ∷ [];
  deleting = false;
  hooked = true;
}

abbrev listed : List OwnedMachine
listed = owned_by (codes "u1") (codes "a") ∷ owned_by (codes "u2") (codes "b") ∷ []

abbrev teardown_api : TeardownApi
teardown_api = record {
  cluster_name = codes "c";
  uid = codes "u1";
  listed_to_strip = ok listed;
  listed_to_drain = ok listed;
  patch = λ name. written;
  delete = λ name. gone;
  update = written;
  cluster = no_cluster;
  has_paused = false;
}

abbrev start : TeardownState
start = record { writes = []; forgotten = false }

named : codes "c" ≢ codes ""
named e = cc

reconcile_delete-Ours_example :
    All (Ours teardown_api) (reconcile_delete teardown_api start).2.writes
reconcile_delete-Ours_example = reconcile_delete-Ours teardown_api start tt

drain_owned_machines-count_example :
    (ms : List OwnedMachine) × (ok listed ≡ ok ms) × (0 ≡ count_if (remains teardown_api) ms)
unfolding drain_owned_machines drain_listed drain drain_one owned_by_refs ◌==◌
drain_owned_machines-count_example = drain_owned_machines-count teardown_api 0 start named refl

reconcile_delete-last_example :
    ((strip_etcd_leave_hooks teardown_api start).0 ≡ ok tt)
    × ((ms : List OwnedMachine) × (ok listed ≡ ok ms)
        × All (λ m. remains teardown_api m ≡ false) ms)
unfolding reconcile_delete strip_etcd_leave_hooks strip_listed strip_hooks strip_one after_strip
    drain_owned_machines drain_listed drain drain_one owned_by_refs ◌==◌ after_drain
    remove_finalizer
reconcile_delete-last_example = reconcile_delete-last teardown_api start named refl

finished : Finished teardown_api
unfolding remains is_gone owned_by_refs ◌==◌
finished = record {
  patches = λ name e h. ground (arith, h);
  deletes = λ name e h. ground (arith, h);
  updates = refl;
  to_strip = listed;
  strip_read = refl;
  to_drain = listed;
  drain_read = refl;
  none_left = (refl, (refl, tt));
}

reconcile_delete-finishes_example :
    ((reconcile_delete teardown_api start).0 ≡ ok done)
    × ((rest : List Write) × ((reconcile_delete teardown_api start).2.writes
          ≡ finalizer_removed ∷ rest))
reconcile_delete-finishes_example = reconcile_delete-finishes teardown_api finished start named
