-- ===== src/Enrichment/Pipeline.antt =====
-- internal/enrichment/pipeline.go and mounts.go: the enrichers in order, a failure of one ignored.
pub mod Chain
use kubeadapt_agent.Prelude.{Option, none, List, [], ◌∷◌, String}
use kubeadapt_agent.Model.{Float64}
use kubeadapt_agent.Model.Cluster.{ClusterSnapshot}
use kubeadapt_agent.Enrichment.Aggregation.{enrich_aggregation}
use kubeadapt_agent.Enrichment.Targets.{enrich_targets}

-- The snapshot that Enrich leaves, and its error.
pub record Enricher (R : Type 0) : Type 0 where
  pub name : String
  pub enrich : ClusterSnapshot R → ClusterSnapshot R × Option String

abbrev pub aggregation_enricher : {R : Type 0} → Float64 R → Enricher R
aggregation_enricher fl = record {
  name = "aggregation";
  enrich = λ s. (enrich_aggregation fl s, none);
}

abbrev pub targets_enricher : {R : Type 0} → Enricher R
targets_enricher = record { name = "targets"; enrich = λ s. (enrich_targets s, none) }

abbrev pub mounts_enricher : {R : Type 0} → Enricher R
mounts_enricher = record { name = "mounts"; enrich = λ s. (s, none) }

unfoldable pub run_pipeline :
    {R : Type 0} → List (Enricher R) → ClusterSnapshot R → ClusterSnapshot R
run_pipeline [] s = s
run_pipeline (e ∷ es) s = run_pipeline es (e.enrich s).0
