-- ===== src/Snapshot/Build/Whole.antt =====
-- What a whole build promises: its summary, its nodes, its workloads and its stale resources.
use mathlib.Core.Path.{subst}
use kubeadapt_agent.Prelude.{
  ℕ, ◌-◌, ◌*◌, ◌≤◌, ◌<◌, ◌≡◌, refl, sym, ap, ◌∙◌, Bool, true, false, Option, none, some, List, [],
  ◌∷◌, String, String_eq, if◌then◌else◌, ◌==◌, contains, map, map-kept, any-kept, ltb,
}
use kubeadapt_agent.Prelude.Int.{ℤ, pos, int64_half}
use kubeadapt_agent.GoMap.{lookup}
use kubeadapt_agent.GoMap.Keys.{IsMap}
use kubeadapt_agent.Model.{Float64}
use kubeadapt_agent.Model.Node.{NodeInfo, NodeMetrics}
use kubeadapt_agent.Model.Pod.{PodInfo, PodMetrics}
use kubeadapt_agent.TypedStore.{store_values}
use kubeadapt_agent.Store.{last_updated_times}
use kubeadapt_agent.Dcgm.Devices.{GpuDeviceMetrics}
use kubeadapt_agent.Enrichment.Ownership.{enrich_ownership}
use kubeadapt_agent.Enrichment.Aggregation.{enrich_aggregation}
use kubeadapt_agent.Enrichment.Targets.{enrich_targets}
use kubeadapt_agent.Enrichment.Pipeline.{Enricher, run_pipeline}
use kubeadapt_agent.Enrichment.Pipeline.Chain.{requested, enriched_requests}
use kubeadapt_agent.Snapshot.Summary.{compute_summary}
use kubeadapt_agent.Snapshot.Merge.{merge_node_metrics, merge_pod_metrics}
use kubeadapt_agent.Snapshot.Merge.{with_node_metrics}
use kubeadapt_agent.Snapshot.Merge.Latest.{with_last, merge_node_metrics_lem, merge_pod_metrics_lem}
use kubeadapt_agent.Snapshot.Gpu.Readings.Nodes.{with_readings}
use kubeadapt_agent.Snapshot.Gpu.Direct.{
  merge_gpu_node_metrics_lem, merge_gpu_container_metrics_lem,
}
use kubeadapt_agent.Snapshot.Backfill.Present.{node_names, names_node, backfill_present}
use kubeadapt_agent.Snapshot.Staleness.{stale_loop}
use kubeadapt_agent.Snapshot.Staleness.Threshold.{stale_exactly}
use kubeadapt_agent.Snapshot.Build.{
  SnapshotBuilder, BuildWorld, default_pipeline, read_stores, gpu_nodes, gpu_pods, merge_metrics,
  backfill, run_enrichers, finish, build,
}

with_node_metrics_name :
    {R : Type 0} (o : Option (NodeMetrics R)) (n : NodeInfo R)
    → (with_node_metrics o n).name ≡ n.name
with_node_metrics_name none n = refl
with_node_metrics_name (some m) n = refl

with_last_node :
    {R : Type 0} (o : Option (PodMetrics R)) (p : PodInfo R)
    → (with_last o p).node_name ≡ p.node_name
with_last_node none p = refl
with_last_node (some m) p = refl

module _ {R : Type 0} (fl : Float64 R) where
  with_readings_name :
      (ds : List (GpuDeviceMetrics R)) (n : NodeInfo R) → (with_readings fl ds n).name ≡ n.name
  with_readings_name [] n = refl
  with_readings_name (d ∷ ds) n = refl

  names-merge_node_metrics :
      (nodes : List (NodeInfo R)) (ms : List (NodeMetrics R))
      → node_names (merge_node_metrics nodes ms) ≡ node_names nodes
  names-merge_node_metrics nodes ms =
      ap node_names (merge_node_metrics_lem nodes ms)
      ∙ map-kept _ (λ n. n.name) (λ n. with_node_metrics_name _ n) nodes

  names-gpu_nodes :
      (o : Option (List (GpuDeviceMetrics R))) (nodes : List (NodeInfo R))
      → node_names (gpu_nodes fl o nodes) ≡ node_names nodes
  names-gpu_nodes none nodes = refl
  names-gpu_nodes (some ds) nodes =
      ap node_names (merge_gpu_node_metrics_lem fl nodes ds)
      ∙ map-kept _ (λ n. n.name) (λ n. with_readings_name _ n) nodes

  names_node-merge_pod_metrics :
      (name : String) (pods : List (PodInfo R)) (ms : List (PodMetrics R))
      → names_node name (merge_pod_metrics pods ms) ≡ names_node name pods
  names_node-merge_pod_metrics name pods ms =
      ap (names_node name) (merge_pod_metrics_lem pods ms)
      ∙ any-kept _ (λ p. p.node_name == name)
          (λ p. ap (λ (n : String). n == name) (with_last_node _ p)) pods

  names_node-gpu_pods :
      (name : String) (o : Option (List (GpuDeviceMetrics R))) (pods : List (PodInfo R))
      → names_node name (gpu_pods fl o pods) ≡ names_node name pods
  names_node-gpu_pods name none pods = refl
  names_node-gpu_pods name (some ds) pods =
      ap (names_node name) (merge_gpu_container_metrics_lem fl pods ds)
      ∙ any-kept _ (λ p. p.node_name == name) (λ p. refl) pods

  -- Whatever the stores, the metrics and the pipeline, the summary of a built snapshot is what
  -- ComputeSummary gives on the built snapshot itself: no later step changes what it counts.
  pub build-compute_summary :
      (w : BuildWorld R) (b : SnapshotBuilder R)
      → (build fl w b).summary ≡ compute_summary fl (build fl w b)
  unfolding build finish compute_summary
  build-compute_summary w b = refl

  -- With the pipeline of main, whatever else: a node name is in the built snapshot exactly when a
  -- node of the first read has it, or when it is not empty, a pod that was read names it and a node
  -- of the second read of the node store has it.
  pub build_nodes :
      (w : BuildWorld R) (b : SnapshotBuilder R) (name : String)
      → b.pipeline ≡ some (default_pipeline fl)
      → contains name (node_names (build fl w b).nodes) ≡ (
          if contains name (node_names (store_values w.stores.nodes))
          then true
          else if name == ""
          then false
          else if names_node name (store_values w.stores.pods)
          then contains name (node_names (store_values w.nodes_later))
          else false)
  unfolding build finish run_enrichers run_pipeline enrich_aggregation enrich_targets
      enrich_ownership merge_metrics backfill read_stores
  build_nodes w b name piped =
      let nodes = store_values w.stores.nodes in
      let pods = store_values w.stores.pods in
      let node_readings = store_values (w.metrics.node_metrics) in
      let pod_readings = store_values (w.metrics.pod_metrics) in
      let merged = gpu_nodes fl w.devices (merge_node_metrics nodes node_readings) in
      let merged_pods = gpu_pods fl w.devices (merge_pod_metrics pods pod_readings) in
      let same =
        names-gpu_nodes w.devices (merge_node_metrics nodes node_readings)
        ∙ names-merge_node_metrics nodes node_readings in
      let same_pods =
        names_node-gpu_pods name w.devices (merge_pod_metrics pods pod_readings)
        ∙ names_node-merge_pod_metrics name pods pod_readings in
      let filled = backfill_present (store_values w.nodes_later) merged_pods merged name in
      let outcome = λ (names : List String) (named : Bool).
        if contains name names
        then true
        else if name == ""
        then false
        else if named
        then contains name (node_names (store_values w.nodes_later))
        else false in
      let (read, replica_sets) = read_stores fl w.stores in
      subst
        (λ (p : Option (List (Enricher R))).
          contains name (
            node_names
              (run_enrichers p
                (enrich_ownership replica_sets (backfill w (merge_metrics fl w read)))).nodes)
          ≡ outcome (node_names nodes) (names_node name pods))
        (sym piped)
        (filled
          ∙ ap (λ names. outcome names (names_node name merged_pods)) same
          ∙ ap (outcome (node_names nodes)) same_pods)

  -- With the pipeline of main, whatever the stores: the memory request of each Deployment in the
  -- built snapshot is the sum, modulo 2 ^ 64, over the pods of the built snapshot that lie in its
  -- namespace, name it as their owner and are neither Succeeded nor Failed.
  pub build_requests :
      (w : BuildWorld R) (b : SnapshotBuilder R)
      → b.pipeline ≡ some (default_pipeline fl)
      → map (λ d. d.total_memory_request) (build fl w b).deployments
        ≡ map (requested fl (build fl w b).pods) (store_values w.stores.deployments)
  unfolding build finish run_enrichers run_pipeline enrich_aggregation enrich_targets
      enrich_ownership merge_metrics backfill read_stores
  build_requests w b piped =
      let (read, replica_sets) = read_stores fl w.stores in
      let merged = backfill w (merge_metrics fl w read) in
      subst
        (λ (p : Option (List (Enricher R))).
          let s = run_enrichers p (enrich_ownership replica_sets merged) in
          map (λ d. d.total_memory_request) s.deployments
          ≡ map (requested fl s.pods) (store_values w.stores.deployments))
        (sym piped) (enriched_requests fl replica_sets merged)

  -- With the pipeline of main, if the range visits no resource twice and visits r with the time t
  -- that the last read of its store gave, and the interval and the times fit int64 nanoseconds: the
  -- built snapshot lists r as stale exactly if t is more than three snapshot intervals ago.
  pub build_stale :
      (w : BuildWorld R) (b : SnapshotBuilder R) (interval t : ℕ) (r : String)
      → b.pipeline ≡ some (default_pipeline fl)
      → b.snapshot_interval ≡ pos interval
      → IsMap (w.visit (last_updated_times w.stores_later))
      → lookup r (w.visit (last_updated_times w.stores_later))
        ≡ lookup r (last_updated_times w.stores_later)
      → lookup r (last_updated_times w.stores_later) ≡ some (pos t)
      → t ≤ w.stale_now
      → w.stale_now * 1000000 < int64_half
      → 3 * interval < int64_half
      → contains r (build fl w b).health.stale_resources
        ≡ ltb (3 * interval) ((w.stale_now - t) * 1000000)
  unfolding build finish run_enrichers run_pipeline enrich_aggregation enrich_targets
      enrich_ownership merge_metrics backfill read_stores
  build_stale w b interval t r piped every once visited found le a c =
      let (read, replica_sets) = read_stores fl w.stores in
      let times = w.visit (last_updated_times w.stores_later) in
      subst
        (λ (p : Option (List (Enricher R))).
          contains r
            (finish fl w b (
              run_enrichers p (
                enrich_ownership replica_sets
                  (backfill w (merge_metrics fl w read))))).health.stale_resources
          ≡ ltb (3 * interval) ((w.stale_now - t) * 1000000))
        (sym piped)
        (subst
          (λ (i : ℤ).
            contains r (stale_loop i (pos w.stale_now) [] times)
            ≡ ltb (3 * interval) ((w.stale_now - t) * 1000000))
          (sym every) (stale_exactly interval w.stale_now t r times once (visited ∙ found) le a c))
