-- ===== src/Examples/Assembling.antt =====
-- The builder of snapshots at concrete inputs.
use kubeadapt_agent.Prelude.{ℕ, ◌%◌, ◌≡◌, List, [], ◌∷◌, String, String_eq, any}
use kubeadapt_agent.Prelude.Int.{ℤ, pos, uint64_mod}
use kubeadapt_agent.GoMap.{GoMap}
use kubeadapt_agent.Model.Node.{NodeMetrics}
use kubeadapt_agent.Model.Pod.{PodMetrics}
use kubeadapt_agent.Enrichment.Aggregation.{WorkloadKey_eq}
use kubeadapt_agent.Enrichment.Aggregation.Totals.{over_pods}
use kubeadapt_agent.Snapshot.Summary.{compute_summary}
use kubeadapt_agent.Snapshot.Summary.Counts.{total, reported, summary_totals}
use kubeadapt_agent.Examples.Data.{whole, pods, nodes, sample}

summary_totals_example :
    let s = compute_summary whole sample in
    (s.total_memory_capacity ≡ total (λ n. n.memory_capacity_bytes) nodes % uint64_mod)
    × (s.total_memory_requested ≡ over_pods (λ c. c.memory_request_bytes) pods % uint64_mod)
    × (s.metrics_available ≡ any (λ n. reported n.cpu_usage_cores) nodes)
    × (s.metrics_available ≡ reported s.total_cpu_usage)
summary_totals_example = summary_totals whole sample

abbrev pub node_readings : List (NodeMetrics ℕ)
node_readings =
    record { name = "node-c"; cpu_usage_cores = 1; memory_usage_bytes = 50; timestamp = pos 0 }
    ∷ record { name = "node-c"; cpu_usage_cores = 2; memory_usage_bytes = 60; timestamp = pos 0 }
    ∷ []

abbrev pub pod_readings : List (PodMetrics ℕ)
pod_readings =
    record {
      name = "web-1";
      namespace = "shop";
      containers = record { name = "app"; cpu_usage_cores = 1; memory_usage_bytes = 70 } ∷ [];
      timestamp = pos 0;
    }
    ∷ []

abbrev pub update_times : GoMap String ℤ
update_times = ("nodes", pos 1700000000000) ∷ ("pods", pos 1699999000000) ∷ []
