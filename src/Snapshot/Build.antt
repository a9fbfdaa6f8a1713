-- ===== src/Snapshot/Build.antt =====
-- internal/snapshot/builder.go: Build and what it calls. What a build meets outside the builder is
-- a value of `BuildWorld`: the stores are read one by one while the informers write to them, so the
-- stores there are each as it is at the moment of its read.
pub mod Whole
use kubeadapt_agent.Prelude.{
  ℕ, Bool, true, false, Option, none, some, List, [], ◌∷◌, String, if◌then◌else◌,
}
use kubeadapt_agent.Prelude.Int.{ℤ, pos}
use kubeadapt_agent.GoMap.{GoMap}
use kubeadapt_agent.Model.{Float64}
use kubeadapt_agent.Model.Health.{zero_health}
use kubeadapt_agent.Model.Node.{NodeInfo}
use kubeadapt_agent.Model.Pod.{PodInfo}
use kubeadapt_agent.Model.Workload.{ReplicaSetInfo}
use kubeadapt_agent.Model.Cluster.{ClusterSnapshot, zero_summary}
use kubeadapt_agent.Transport.Message.{Text, text, has_prefix}
use kubeadapt_agent.TypedStore.{TypedStore, store_values}
use kubeadapt_agent.Store.{Store, MetricsStore, last_updated_times}
use kubeadapt_agent.Dcgm.Devices.{GpuDeviceMetrics}
use kubeadapt_agent.Enrichment.Ownership.{enrich_ownership}
use kubeadapt_agent.Enrichment.Pipeline.{
  Enricher, aggregation_enricher, targets_enricher, mounts_enricher, run_pipeline,
}
use kubeadapt_agent.Snapshot.Summary.{compute_summary}
use kubeadapt_agent.Snapshot.Merge.{merge_node_metrics, merge_pod_metrics}
use kubeadapt_agent.Snapshot.Gpu.{merge_gpu_node_metrics}
use kubeadapt_agent.Snapshot.Gpu.Containers.{merge_gpu_container_metrics}
use kubeadapt_agent.Snapshot.Backfill.{backfill_referenced_nodes, Filled}
use kubeadapt_agent.Snapshot.Staleness.{stale_loop}

pub record SnapshotBuilder (R : Type 0) : Type 0 where
  pub agent_version : String
  pub kubernetes_version : String
  pub snapshot_interval : ℤ
  pub pipeline : Option (List (Enricher R))
  pub cloud_account_id : String

pub record BuildWorld (R : Type 0) : Type 0 where
  pub stores : Store R
  pub metrics : MetricsStore R
  -- what GetGPUMetrics returns, if there is a GPU collector
  pub devices : Option (List (GpuDeviceMetrics R))
  -- the node store when backfillReferencedNodes reads it
  pub nodes_later : TypedStore (NodeInfo R)
  pub new_id : String
  pub timestamp : ℕ
  -- the stores when LastUpdatedTimes reads them, and the order in which the range visits the map
  pub stores_later : Store R
  pub visit : GoMap String ℤ → GoMap String ℤ
  pub stale_now : ℕ

-- The enrichers that cmd/agent/main.go puts into the pipeline.
abbrev pub default_pipeline : {R : Type 0} → Float64 R → List (Enricher R)
default_pipeline fl = aggregation_enricher fl ∷ targets_enricher ∷ mounts_enricher ∷ []

unfoldable pub derive_provider : Text → String
derive_provider id =
    if has_prefix (text "aws://") id
    then "aws"
    else if has_prefix (text "gce://") id
    then "gcp"
    else if has_prefix (text "azure://") id
    then "azure"
    else ""

-- The provider and the region of the first node, if there is one.
abbrev pub provider_of : {R : Type 0} → List (NodeInfo R) → String → String
provider_of [] old = old
provider_of (n ∷ ns) old = derive_provider n.provider_id

abbrev pub region_of : {R : Type 0} → List (NodeInfo R) → Text → Text
region_of [] old = old
region_of (n ∷ ns) old = n.region

-- Step 3c.
unfoldable pub backfill : {R : Type 0} → BuildWorld R → ClusterSnapshot R → ClusterSnapshot R
backfill w s = record s {
  nodes = (backfill_referenced_nodes (store_values w.nodes_later) s.pods s.nodes).nodes;
}

-- Step 5, for a pipeline that may be nil.
unfoldable pub run_enrichers :
    {R : Type 0} → Option (List (Enricher R)) → ClusterSnapshot R → ClusterSnapshot R
run_enrichers none s = s
run_enrichers (some es) s = run_pipeline es s

module _ {R : Type 0} (fl : Float64 R) where
  -- The snapshot with the fields that the goroutines of readStores fill, all others zero.
  unfoldable pub read_stores : Store R → ClusterSnapshot R × List ReplicaSetInfo
  read_stores s = (
    record {
      snapshot_id = "";
      timestamp = 0;
      agent_version = "";
      kubernetes_version = "";
      cloud_account_id = "";
      provider = "";
      region = [];
      nodes = store_values s.nodes;
      pods = store_values s.pods;
      namespaces = store_values s.namespaces;
      deployments = store_values s.deployments;
      stateful_sets = store_values s.stateful_sets;
      daemon_sets = store_values s.daemon_sets;
      jobs = store_values s.jobs;
      cron_jobs = store_values s.cron_jobs;
      custom_workloads = store_values s.custom_workloads;
      hpas = store_values s.hpas;
      vpas = store_values s.vpas;
      pdbs = store_values s.pdbs;
      services = store_values s.services;
      ingresses = store_values s.ingresses;
      pvs = store_values s.pvs;
      pvcs = store_values s.pvcs;
      storage_classes = store_values s.storage_classes;
      priority_classes = store_values s.priority_classes;
      limit_ranges = store_values s.limit_ranges;
      resource_quotas = store_values s.resource_quotas;
      node_pools = store_values s.node_pools;
      summary = zero_summary fl.zero_float;
      health = zero_health fl.zero_float;
    },
    store_values s.replica_sets,
  )

  -- Step 3b, for a GPU collector that may be nil.
  abbrev pub gpu_nodes : Option (List (GpuDeviceMetrics R)) → List (NodeInfo R) → List (NodeInfo R)
  gpu_nodes none nodes = nodes
  gpu_nodes (some ds) nodes = merge_gpu_node_metrics fl nodes ds

  abbrev pub gpu_pods : Option (List (GpuDeviceMetrics R)) → List (PodInfo R) → List (PodInfo R)
  gpu_pods none pods = pods
  gpu_pods (some ds) pods = merge_gpu_container_metrics fl pods ds

  -- Steps 2 to 3b.
  unfoldable pub merge_metrics : BuildWorld R → ClusterSnapshot R → ClusterSnapshot R
  merge_metrics w s =
      let nodes = merge_node_metrics s.nodes (store_values (w.metrics.node_metrics)) in
      let pods = merge_pod_metrics s.pods (store_values (w.metrics.pod_metrics)) in
      record s { nodes = gpu_nodes w.devices nodes; pods = gpu_pods w.devices pods }

  -- Steps 6 to 8.
  unfoldable pub finish : BuildWorld R → SnapshotBuilder R → ClusterSnapshot R → ClusterSnapshot R
  finish w b s = record s {
    summary = compute_summary fl s;
    snapshot_id = w.new_id;
    timestamp = w.timestamp;
    agent_version = b.agent_version;
    kubernetes_version = b.kubernetes_version;
    provider = provider_of s.nodes s.provider;
    region = region_of s.nodes s.region;
    cloud_account_id = b.cloud_account_id;
    health = record (s.health) {
      stale_resources =
          stale_loop b.snapshot_interval (pos w.stale_now) s.health.stale_resources
            (w.visit (last_updated_times w.stores_later));
    };
  }

  unfoldable pub build : BuildWorld R → SnapshotBuilder R → ClusterSnapshot R
  build w b =
      let (read, replica_sets) = read_stores w.stores in
      let merged = backfill w (merge_metrics w read) in
      finish w b (run_enrichers b.pipeline (enrich_ownership replica_sets merged))
