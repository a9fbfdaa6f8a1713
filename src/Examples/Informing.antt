-- ===== src/Examples/Informing.antt =====
-- The collectors of resources and of usage at concrete inputs.
use kubeadapt_agent.Prelude.{
  ℕ, ◌+◌, ◌*◌, ◌%◌, ◌≡◌, refl, true, false, none, some, List, [], ◌∷◌, String, String_eq, ◌==◌,
  if◌then◌else◌, arith, length, contains, nat_eq,
}
use kubeadapt_agent.Prelude.Int.{pos, pos_part, uint64_mod}
use kubeadapt_agent.GoMap.{lookup}
use kubeadapt_agent.GoMap.Index.{find_last}
use kubeadapt_agent.TypedStore.{new_typed_store, get, len, store_values}
use kubeadapt_agent.TypedStore.Refinement.{is_some}
use kubeadapt_agent.Store.{new_store, new_metrics_store}
use kubeadapt_agent.Snapshot.Backfill.Present.{node_names, names_node}
use kubeadapt_agent.Snapshot.Build.{BuildWorld, build}
use kubeadapt_agent.Snapshot.Merge.{pod_key}
use kubeadapt_agent.Convert.Nodes.{Node, node_to_model}
use kubeadapt_agent.Informers.{
  object, tombstone, foreign, Event, added, updated, deleted, handle_all,
  run_informer_with_recovery,
}
use kubeadapt_agent.Informers.Mirror.{KeepsKey, in_model, observe_all, mirror}
use kubeadapt_agent.Informers.Gauges.{gauge, counter, tally, handle_all_metrics}
use kubeadapt_agent.Informers.Recovery.{first_stop, expected, run_informer_with_recovery_lem}
use kubeadapt_agent.Informers.Keyed.{node_store, in_cluster, build_nodes-mirror}
use kubeadapt_agent.Informers.Resources.{
  nodes_watch, pods_watch, namespaces_watch, deployments_watch, stateful_sets_watch,
  daemon_sets_watch, replica_sets_watch, jobs_watch, cron_jobs_watch, hpas_watch, vpas_watch,
  pdbs_watch, services_watch, ingresses_watch, pvs_watch, pvcs_watch, storage_classes_watch,
  priority_classes_watch, limit_ranges_watch, resource_quotas_watch, node_pools_watch,
}
use kubeadapt_agent.Informers.Resources.Keys.{watches_keep_keys}
use kubeadapt_agent.Metrics.{MetricsCollector, Poll, tick, stop, api_call_stats, run}
use kubeadapt_agent.Metrics as Metrics
use kubeadapt_agent.Metrics.Readings.{polls, node_readings, pod_readings, get-run}
use kubeadapt_agent.Metrics.Counts.{failures, api_call_stats-run, run_keeps}
use kubeadapt_agent.Examples.Data.{whole, web_pod}
use kubeadapt_agent.Examples.Converting.{quantities}
use kubeadapt_agent.Examples.Nodes.{api_node}
use kubeadapt_agent.Examples.Whole.{clock, builder}

-- A node comes, another comes and goes by a tombstone, and an object of another type is ignored.
abbrev pub before : List (Event (Node ℕ))
before =
    added 1 (object (api_node "node-b"))
    ∷ added 2 (object (api_node "node-c"))
    ∷ updated 3 foreign foreign
    ∷ deleted 4 (tombstone (object (api_node "node-c")))
    ∷ []

-- Then the node of the pod comes.
abbrev pub later : List (Event (Node ℕ))
later = added 1 (object (api_node "node-b")) ∷ added 5 (object (api_node "node-a")) ∷ []

mirror_example :
    get "node-b"
      (handle_all
        (nodes_watch quantities)
        before
        (record { store = new_typed_store 0; calls = [] })).store
    ≡ in_model
        (nodes_watch quantities)
        (observe_all (nodes_watch quantities) before (λ k. none) "node-b")
unfolding nodes_watch node_to_model
mirror_example = mirror (nodes_watch quantities) (λ o. refl) before 0 "node-b"

handle_all_metrics_example :
    let c =
      handle_all
        (nodes_watch quantities)
        before
        (record { store = new_typed_store 0; calls = [] }) in
    (gauge (nodes_watch quantities).resource 0 c.calls ≡ len c.store)
    × (counter (nodes_watch quantities).resource "delete" c.calls ≡ tally "delete" before)
handle_all_metrics_example = handle_all_metrics (nodes_watch quantities) "delete" before 0

-- The second run ends as it should.
run_informer_with_recovery_example :
    run_informer_with_recovery (λ i. nat_eq i 1) ≡ expected (first_stop 4 0 (λ i. nat_eq i 1))
run_informer_with_recovery_example = run_informer_with_recovery_lem (λ i. nat_eq i 1)

abbrev pub informed_world : BuildWorld ℕ
informed_world = record {
  stores = record (new_store clock) {
    nodes = node_store quantities before 0;
    pods = record { items = ("shop/web-1", web_pod) ∷ []; last_updated = 1700000100000 };
  };
  metrics = new_metrics_store clock;
  devices = none;
  nodes_later = node_store quantities later 0;
  new_id = "id-2";
  timestamp = 1700000200000;
  stores_later = new_store clock;
  visit = λ m. m;
  stale_now = 1700000200000;
}

build_nodes-mirror_example :
    let name : String = "node-a" in
    contains name (node_names (build whole informed_world builder).nodes) ≡ (
      if in_cluster quantities before name
      then true
      else if name == ""
      then false
      else if names_node name (store_values informed_world.stores.pods)
      then in_cluster quantities later name
      else false)
build_nodes-mirror_example =
    build_nodes-mirror whole quantities before later 0 informed_world builder "node-a" refl refl
      refl

abbrev pub first_poll : Poll ℕ
first_poll = record {
  node_list = some (
      record { name = "node-a"; usage = ("cpu", 2) ∷ ("memory", 70) ∷ []; timestamp_millis = pos 5 }
      ∷ []);
  pod_list = none;
  node_now = λ i. 10;
  pod_now = λ i. 11;
}

abbrev pub failed_poll : Poll ℕ
failed_poll = record first_poll { node_list = none }

abbrev pub metrics_collector : MetricsCollector ℕ
metrics_collector = record {
  metrics_store = record {
    node_metrics = record {
      items =
          (
            "node-z",
            record {
              name = "node-z";
              cpu_usage_cores = 1;
              memory_usage_bytes = 2;
              timestamp = pos 1;
            },
          )
          ∷ [];
      last_updated = 1;
    };
    pod_metrics = record {
      items =
          (
            "shop/web-1",
            record { name = "web-1"; namespace = "shop"; containers = []; timestamp = pos 1 },
          )
          ∷ [];
      last_updated = 1;
    };
  };
  poll_total = 6;
  poll_failed = 1;
}

abbrev pub rounds : List (Metrics.Event ℕ)
rounds = tick failed_poll ∷ stop ∷ tick first_poll ∷ []

get-run_example :
    (get "node-a" (run quantities first_poll rounds metrics_collector).0.metrics_store.node_metrics
      ≡ find_last
          (λ m. m.name)
          "node-a"
          (get "node-a" metrics_collector.metrics_store.node_metrics)
          (node_readings quantities (first_poll ∷ polls rounds)))
    × (get "node-a" (run quantities first_poll rounds metrics_collector).0.metrics_store.pod_metrics
        ≡ find_last
            (λ m. pod_key m.namespace m.name)
            "node-a"
            (get "node-a" metrics_collector.metrics_store.pod_metrics)
            (pod_readings quantities (first_poll ∷ polls rounds)))
get-run_example = get-run quantities first_poll rounds metrics_collector "node-a"

api_call_stats-run_example :
    api_call_stats (run quantities first_poll rounds metrics_collector).0 ≡ (
      (6 + 2 * length (first_poll ∷ polls rounds)) % uint64_mod,
      (1 + failures {R = ℕ} quantities (first_poll ∷ polls rounds)) % uint64_mod,
    )
api_call_stats-run_example =
    api_call_stats-run quantities first_poll rounds metrics_collector (omega arith) (omega arith)

run_keeps_example :
    (is_some (
        get "node-z"
          (run quantities first_poll rounds metrics_collector).0.metrics_store.node_metrics)
      ≡ true)
    × (is_some (
          get "shop/web-1"
            (run quantities first_poll rounds metrics_collector).0.metrics_store.pod_metrics)
        ≡ true)
run_keeps_example =
    run_keeps quantities first_poll rounds metrics_collector "node-z" "shop/web-1"
      (unfold get in unfold is_some in unfold lookup in refl)
      (unfold get in unfold is_some in unfold lookup in refl)

watches_keep_keys_example :
    KeepsKey (nodes_watch quantities)
    × KeepsKey (pods_watch quantities)
    × KeepsKey namespaces_watch
    × KeepsKey (deployments_watch whole quantities)
    × KeepsKey (stateful_sets_watch whole quantities)
    × KeepsKey (daemon_sets_watch whole quantities)
    × KeepsKey replica_sets_watch
    × KeepsKey (jobs_watch whole pos_part quantities)
    × KeepsKey (cron_jobs_watch quantities)
    × KeepsKey (hpas_watch quantities)
    × KeepsKey (vpas_watch whole quantities)
    × KeepsKey pdbs_watch
    × KeepsKey services_watch
    × KeepsKey ingresses_watch
    × KeepsKey (pvs_watch quantities)
    × KeepsKey (pvcs_watch quantities)
    × KeepsKey storage_classes_watch
    × KeepsKey priority_classes_watch
    × KeepsKey (limit_ranges_watch quantities)
    × KeepsKey (resource_quotas_watch quantities)
    × KeepsKey (node_pools_watch pos)
watches_keep_keys_example = watches_keep_keys whole pos_part pos quantities
