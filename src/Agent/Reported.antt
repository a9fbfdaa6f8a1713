-- ===== src/Agent/Reported.antt =====
-- The builder and the agent together: what the health of a snapshot says of the snapshot.
use mathlib.Core.Path.{subst}
use kubeadapt_agent.Prelude.{
  ◌+◌, ◌≡◌, refl, sym, ap, ◌∙◌, not, Option, none, some, length, is_empty,
}
use kubeadapt_agent.Model.{Float64}
use kubeadapt_agent.Model.Cluster.{ClusterSnapshot}
use kubeadapt_agent.Snapshot.Summary.{compute_summary}
use kubeadapt_agent.Snapshot.Summary.Counts.{container_total, summary_counts}
use kubeadapt_agent.Snapshot.Build.{SnapshotBuilder, BuildWorld, build}
use kubeadapt_agent.Snapshot.Build.Whole.{build-compute_summary}
use kubeadapt_agent.Agent.{Agent, World, populate_health, do_snapshot}
use kubeadapt_agent.Agent.Counters.{latest-do_snapshot}

-- The health counts the objects that the snapshot lists.
pub record IsAccurate {R : Type 0} (s : ClusterSnapshot R) : Type 0 where
  pub nodes_counted : s.health.node_count ≡ length s.nodes
  pub pods_counted : s.health.pod_count ≡ length s.pods
  pub containers_counted : s.health.container_count ≡ container_total s.pods
  pub workloads_counted :
      s.health.workload_count
      ≡ length s.deployments
        + length s.stateful_sets
        + length s.daemon_sets
        + length s.jobs
        + length s.cron_jobs
        + length s.custom_workloads
  pub services_counted : s.health.service_count ≡ length s.services
  pub pdbs_counted : s.health.pdb_count ≡ length s.pdbs
  pub volumes_counted : s.health.pv_count ≡ length s.pvs
  pub karpenter_seen : s.health.karpenter_available ≡ not (is_empty s.node_pools)

abbrev pub SentAccurate : {R : Type 0} → Option (ClusterSnapshot R) → Type 0
SentAccurate none = ⊥
SentAccurate (some s) = IsAccurate s

module _ {R : Type 0} (fl : Float64 R) where
  built_summary :
      (w : World R) (bw : BuildWorld R) (b : SnapshotBuilder R)
      → w.built ≡ build fl bw b
      → w.built.summary ≡ compute_summary fl w.built
  built_summary w bw b e =
      subst (λ (s : ClusterSnapshot R). s.summary ≡ compute_summary fl s) (sym e)
        (build-compute_summary fl bw b)

  -- Whatever the stores, the send and the agent, the snapshot that doSnapshot sends after a Build
  -- carries a health whose counts of nodes, pods, containers, workloads, services, disruption
  -- budgets and volumes are those of the snapshot's own lists.
  pub do_snapshot-IsAccurate :
      (w : World R) (a : Agent R) (bw : BuildWorld R) (b : SnapshotBuilder R)
      → w.built ≡ build fl bw b
      → SentAccurate (do_snapshot fl w a).latest_snapshot
  unfolding populate_health compute_summary
  do_snapshot-IsAccurate w a bw b e =
      let same = built_summary w bw b e in
      let counts = summary_counts fl w.built in
      rw (latest-do_snapshot fl w a) (record {
        nodes_counted = ap (λ s. s.node_count) same;
        pods_counted = ap (λ s. s.pod_count) same;
        containers_counted = ap (λ s. s.container_count) same ∙ counts.4;
        workloads_counted =
            ap
              (λ s.
                s.deployment_count + s.stateful_set_count + s.daemon_set_count + s.job_count
                + s.cron_job_count + s.custom_workload_count)
              same;
        services_counted = ap (λ s. s.service_count) same;
        pdbs_counted = refl;
        volumes_counted = ap (λ s. s.pv_count) same;
        karpenter_seen = refl;
      })
