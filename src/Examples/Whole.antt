-- ===== src/Examples/Whole.antt =====
-- A whole build at a concrete input.
use kubeadapt_agent.Prelude.{
  arith, ℕ, ◌-◌, ◌*◌, ◌≡◌, refl, true, false, none, some, [], ◌∷◌, String, String_eq, map,
  if◌then◌else◌, ◌==◌, contains, ltb,
}
use kubeadapt_agent.Prelude.Int.{pos}
use kubeadapt_agent.GoMap.{lookup}
use kubeadapt_agent.TypedStore.{TypedStore, new_typed_store, store_values}
use kubeadapt_agent.Store.{
  Store, new_store, new_metrics_store, last_updated_times, last_updated_times-IsMap,
}
use kubeadapt_agent.Model.Node.{NodeInfo}
use kubeadapt_agent.Snapshot.Backfill.Present.{node_names, names_node}
use kubeadapt_agent.Snapshot.Build.{SnapshotBuilder, BuildWorld, default_pipeline, build}
use kubeadapt_agent.Snapshot.Build.Whole.{build_nodes, build_requests, build_stale}
use kubeadapt_agent.Enrichment.Pipeline.Chain.{requested}
use kubeadapt_agent.Agent.{World, do_snapshot}
use kubeadapt_agent.Agent.Reported.{SentAccurate, do_snapshot-IsAccurate}
use kubeadapt_agent.Examples.Data.{answer, world, agent, machine, whole, web_pod, node, web}
use kubeadapt_agent.Examples.Scraping.{device}

-- The pods' store was last written 100 seconds after the others.
abbrev pub clock : ℕ → ℕ
clock n = 1700000000000

abbrev pub store : Store ℕ
unfolding new_store
store = record (new_store clock) {
  pods = record { items = ("shop/web-1", web_pod) ∷ []; last_updated = 1700000100000 };
  deployments = record { items = ("shop/web", web) ∷ []; last_updated = 1700000000000 };
}

-- The node of the pod is written to the store between the two reads.
abbrev pub nodes_later : TypedStore (NodeInfo ℕ)
nodes_later = record { items = ("node-a", node "node-a" none) ∷ []; last_updated = 1700000100000 }

abbrev pub build_world : BuildWorld ℕ
unfolding new_metrics_store
build_world = record {
  stores = store;
  metrics = new_metrics_store clock;
  devices = some (device ∷ []);
  nodes_later = nodes_later;
  new_id = "id-1";
  timestamp = 1700000200000;
  stores_later = store;
  visit = λ m. m;
  stale_now = 1700000200000;
}

abbrev pub builder : SnapshotBuilder ℕ
builder = record {
  agent_version = "1.0";
  kubernetes_version = "1.31";
  snapshot_interval = pos 60000000000;
  pipeline = some (default_pipeline whole);
  cloud_account_id = "acc";
}

build_nodes_example :
    let name : String = "node-a" in
    contains name (node_names (build whole build_world builder).nodes) ≡ (
      if contains name (node_names (store_values store.nodes))
      then true
      else if name == ""
      then false
      else if names_node name (store_values store.pods)
      then contains name (node_names (store_values nodes_later))
      else false)
unfolding store build_world
build_nodes_example = build_nodes whole build_world builder "node-a" refl

build_requests_example :
    map (λ d. d.total_memory_request) (build whole build_world builder).deployments
    ≡ map (requested whole (build whole build_world builder).pods) (store_values store.deployments)
unfolding store build_world
build_requests_example = build_requests whole build_world builder refl

build_stale_example :
    contains "nodes" (build whole build_world builder).health.stale_resources
    ≡ ltb (3 * 60000000000) ((1700000200000 - 1700000000000) * 1000000)
unfolding lookup last_updated_times new_store new_typed_store store build_world
build_stale_example =
    build_stale whole build_world builder 60000000000 1700000000000 "nodes" refl refl
      (last_updated_times-IsMap store) refl refl (omega arith) (omega arith) (omega arith)

abbrev pub built_world : World ℕ
built_world = record (world (λ n. answer 200)) { built = build whole build_world builder }

do_snapshot-IsAccurate_example :
    SentAccurate (do_snapshot whole built_world (agent machine)).latest_snapshot
do_snapshot-IsAccurate_example =
    do_snapshot-IsAccurate whole built_world (agent machine) build_world builder refl
