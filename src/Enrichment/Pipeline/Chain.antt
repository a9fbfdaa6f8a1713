-- ===== src/Enrichment/Pipeline/Chain.antt =====
-- The enrichers one after the other: the order of the pipeline, and the totals at its end.
use kubeadapt_agent.Prelude.{ℕ, ◌%◌, ◌≡◌, refl, ap, List, [], ◌∷◌, String, map, keep}
use kubeadapt_agent.Prelude.Int.{uint64_mod}
use kubeadapt_agent.GoMap.{GoMap}
use kubeadapt_agent.Model.{Float64}
use kubeadapt_agent.Model.Pod.{PodInfo}
use kubeadapt_agent.Model.Workload.{WorkloadInfo, ReplicaSetInfo}
use kubeadapt_agent.Model.Cluster.{ClusterSnapshot}
use kubeadapt_agent.Enrichment.Ownership.{maps_of, resolve_owner, enrich_ownership}
use kubeadapt_agent.Enrichment.Aggregation.{
  WorkloadKey, pods_by_workload, aggregate_workload, enrich_aggregation,
}
use kubeadapt_agent.Enrichment.Aggregation.Totals.{owns, over_pods, aggregate_workload_lem}
use kubeadapt_agent.Enrichment.Targets.{
  collect_from, collect_workloads, enrich_targets, by_namespace, target_pdb, target_service,
}
use kubeadapt_agent.Enrichment.Pipeline.{
  aggregation_enricher, targets_enricher, mounts_enricher, run_pipeline,
}

module _ {R : Type 0} (fl : Float64 R) where
  -- The totals of a workload do not matter to the workloads that are collected.
  collect_from-aggregated :
      (index : GoMap WorkloadKey (List (PodInfo R))) (kind kind' : String)
      (ds : List (WorkloadInfo R))
      → collect_from kind (map (aggregate_workload fl index kind') ds) ≡ collect_from kind ds
  unfolding collect_from aggregate_workload
  collect_from-aggregated index kind kind' [] = refl
  collect_from-aggregated index kind kind' (d ∷ ds) =
      rw (collect_from-aggregated index kind kind' ds) refl

  collect_workloads-aggregated :
      (s : ClusterSnapshot R) → collect_workloads (enrich_aggregation fl s) ≡ collect_workloads s
  unfolding collect_workloads enrich_aggregation
  collect_workloads-aggregated s =
      rw (collect_from-aggregated, collect_from-aggregated, collect_from-aggregated) refl

  -- Whatever the snapshot, the enrichers of the pipeline leave the same in the reverse order.
  pub run_pipeline_reversed :
      (s : ClusterSnapshot R)
      → run_pipeline (aggregation_enricher fl ∷ targets_enricher ∷ mounts_enricher ∷ []) s
        ≡ run_pipeline (mounts_enricher ∷ targets_enricher ∷ aggregation_enricher fl ∷ []) s
  unfolding run_pipeline enrich_targets enrich_aggregation
  run_pipeline_reversed s =
      ap
        (λ ws. record (enrich_aggregation fl s) {
          pdbs = map (target_pdb (by_namespace ws)) s.pdbs;
          services = map (target_service (by_namespace ws)) s.services;
        })
        (collect_workloads-aggregated s)

  -- The chain of Build and main: ownership, then the pipeline.
  abbrev pub enriched : List ReplicaSetInfo → ClusterSnapshot R → ClusterSnapshot R
  enriched replica_sets s =
      run_pipeline (aggregation_enricher fl ∷ targets_enricher ∷ mounts_enricher ∷ [])
        (enrich_ownership replica_sets s)

  -- The memory that a deployment requests in sum, over the pods that it owns.
  abbrev pub requested : List (PodInfo R) → WorkloadInfo R → ℕ
  requested pods d =
      let key : WorkloadKey = record {
        namespace = d.namespace;
        kind = "Deployment";
        name = d.name;
      } in
      over_pods (λ c. c.memory_request_bytes) (keep (owns key) pods) % uint64_mod

  requests-aggregated :
      (pods : List (PodInfo R)) (ds : List (WorkloadInfo R))
      → map
          (λ d. d.total_memory_request)
          (map (aggregate_workload fl (pods_by_workload [] pods) "Deployment") ds)
        ≡ map (requested pods) ds
  requests-aggregated pods [] = refl
  requests-aggregated pods (d ∷ ds) =
      rw ((aggregate_workload_lem fl pods "Deployment" d).0, requests-aggregated pods ds) refl

  -- At the end of ownership resolution and the pipeline, the memory requests of the Deployments are
  -- the sums, modulo 2 ^ 64, over the pods whose resolved owner is the Deployment and which have
  -- not finished: pods of its ReplicaSets count through the chain of owners.
  pub enriched_requests :
      (replica_sets : List ReplicaSetInfo) (s : ClusterSnapshot R)
      → let resolved = map (resolve_owner (maps_of replica_sets s)) s.pods in
        map (λ d. d.total_memory_request) (enriched replica_sets s).deployments
        ≡ map (requested resolved) s.deployments
  unfolding run_pipeline enrich_targets enrich_aggregation enrich_ownership
  enriched_requests replica_sets s =
      requests-aggregated (map (resolve_owner (maps_of replica_sets s)) s.pods) s.deployments
