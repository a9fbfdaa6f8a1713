-- ===== src/Store.antt =====
-- internal/store/store.go and metrics.go: the stores of all resources and of the metrics.
use kubeadapt_agent.Prelude.{ℕ, refl, [], ◌∷◌, String, String_eq}
use kubeadapt_agent.Prelude.Int.{ℤ, pos}
use kubeadapt_agent.GoMap.{GoMap, lookup}
use kubeadapt_agent.GoMap.Keys.{IsMap}
use kubeadapt_agent.Model.Node.{NodeInfo, NodeMetrics}
use kubeadapt_agent.Model.Pod.{PodInfo, PodMetrics}
use kubeadapt_agent.Model.Workload.{WorkloadInfo, ReplicaSetInfo, JobInfo, CronJobInfo, ServiceInfo}
use kubeadapt_agent.Model.Cluster.{CountedInfo}
use kubeadapt_agent.Model.Autoscaling.{HpaInfo, VpaInfo, PdbInfo}
use kubeadapt_agent.Model.Network.{IngressInfo}
use kubeadapt_agent.Model.Storage.{PvInfo, PvcInfo, StorageClassInfo}
use kubeadapt_agent.Model.Scheduling.{
  NamespaceInfo, PriorityClassInfo, LimitRangeInfo, ResourceQuotaInfo, NodePoolInfo,
}
use kubeadapt_agent.TypedStore.{TypedStore, new_typed_store, len}

pub record Store (R : Type 0) : Type 0 where
  pub nodes : TypedStore (NodeInfo R)
  pub pods : TypedStore (PodInfo R)
  pub namespaces : TypedStore NamespaceInfo
  pub deployments : TypedStore (WorkloadInfo R)
  pub stateful_sets : TypedStore (WorkloadInfo R)
  pub daemon_sets : TypedStore (WorkloadInfo R)
  pub replica_sets : TypedStore ReplicaSetInfo
  pub jobs : TypedStore (JobInfo R)
  pub cron_jobs : TypedStore (CronJobInfo R)
  pub custom_workloads : TypedStore CountedInfo
  pub hpas : TypedStore HpaInfo
  pub vpas : TypedStore (VpaInfo R)
  pub pdbs : TypedStore PdbInfo
  pub services : TypedStore ServiceInfo
  pub ingresses : TypedStore IngressInfo
  pub pvs : TypedStore PvInfo
  pub pvcs : TypedStore PvcInfo
  pub storage_classes : TypedStore StorageClassInfo
  pub priority_classes : TypedStore PriorityClassInfo
  pub limit_ranges : TypedStore LimitRangeInfo
  pub resource_quotas : TypedStore ResourceQuotaInfo
  pub node_pools : TypedStore NodePoolInfo

pub record MetricsStore (R : Type 0) : Type 0 where
  pub node_metrics : TypedStore (NodeMetrics R)
  pub pod_metrics : TypedStore (PodMetrics R)

module _ {R : Type 0} where
  -- `now i` is the clock's reading at the i-th call of NewTypedStore.
  unfoldable pub new_store : (ℕ → ℕ) → Store R
  new_store now = record {
    nodes = new_typed_store (now 0);
    pods = new_typed_store (now 1);
    namespaces = new_typed_store (now 2);
    deployments = new_typed_store (now 3);
    stateful_sets = new_typed_store (now 4);
    daemon_sets = new_typed_store (now 5);
    replica_sets = new_typed_store (now 6);
    jobs = new_typed_store (now 7);
    cron_jobs = new_typed_store (now 8);
    custom_workloads = new_typed_store (now 9);
    hpas = new_typed_store (now 10);
    vpas = new_typed_store (now 11);
    pdbs = new_typed_store (now 12);
    services = new_typed_store (now 13);
    ingresses = new_typed_store (now 14);
    pvs = new_typed_store (now 15);
    pvcs = new_typed_store (now 16);
    storage_classes = new_typed_store (now 17);
    priority_classes = new_typed_store (now 18);
    limit_ranges = new_typed_store (now 19);
    resource_quotas = new_typed_store (now 20);
    node_pools = new_typed_store (now 21);
  }

  unfoldable pub new_metrics_store : (ℕ → ℕ) → MetricsStore R
  new_metrics_store now = record {
    node_metrics = new_typed_store (now 0);
    pod_metrics = new_typed_store (now 1);
  }

  unfoldable pub last_updated_times : Store R → GoMap String ℤ
  last_updated_times s =
      ("nodes", pos (s.nodes.last_updated))
      ∷ ("pods", pos (s.pods.last_updated))
      ∷ ("namespaces", pos (s.namespaces.last_updated))
      ∷ ("deployments", pos (s.deployments.last_updated))
      ∷ ("statefulsets", pos (s.stateful_sets.last_updated))
      ∷ ("daemonsets", pos (s.daemon_sets.last_updated))
      ∷ ("replicasets", pos (s.replica_sets.last_updated))
      ∷ ("jobs", pos (s.jobs.last_updated))
      ∷ ("cronjobs", pos (s.cron_jobs.last_updated))
      ∷ ("custom_workloads", pos (s.custom_workloads.last_updated))
      ∷ ("hpas", pos (s.hpas.last_updated))
      ∷ ("vpas", pos (s.vpas.last_updated))
      ∷ ("pdbs", pos (s.pdbs.last_updated))
      ∷ ("services", pos (s.services.last_updated))
      ∷ ("ingresses", pos (s.ingresses.last_updated))
      ∷ ("pvs", pos (s.pvs.last_updated))
      ∷ ("pvcs", pos (s.pvcs.last_updated))
      ∷ ("storageclasses", pos (s.storage_classes.last_updated))
      ∷ ("priorityclasses", pos (s.priority_classes.last_updated))
      ∷ ("limitranges", pos (s.limit_ranges.last_updated))
      ∷ ("resourcequotas", pos (s.resource_quotas.last_updated))
      ∷ ("nodepools", pos (s.node_pools.last_updated))
      ∷ []

  -- No resource is listed twice.
  pub last_updated_times-IsMap : (s : Store R) → IsMap (last_updated_times s)
  unfolding last_updated_times lookup
  last_updated_times-IsMap s = (
    refl,
    (
      refl,
      (
        refl,
        (
          refl,
          (
            refl,
            (
              refl,
              (
                refl,
                (
                  refl,
                  (
                    refl,
                    (
                      refl,
                      (
                        refl,
                        (
                          refl,
                          (
                            refl,
                            (
                              refl,
                              (refl, (refl, (refl, (refl, (refl, (refl, (refl, (refl, tt)))))))),
                            ),
                          ),
                        ),
                      ),
                    ),
                  ),
                ),
              ),
            ),
          ),
        ),
      ),
    ),
  )

  unfoldable pub item_counts : Store R → GoMap String ℕ
  item_counts s =
      ("nodes", len s.nodes)
      ∷ ("pods", len s.pods)
      ∷ ("namespaces", len s.namespaces)
      ∷ ("deployments", len s.deployments)
      ∷ ("statefulsets", len s.stateful_sets)
      ∷ ("daemonsets", len s.daemon_sets)
      ∷ ("replicasets", len s.replica_sets)
      ∷ ("jobs", len s.jobs)
      ∷ ("cronjobs", len s.cron_jobs)
      ∷ ("custom_workloads", len s.custom_workloads)
      ∷ ("hpas", len s.hpas)
      ∷ ("vpas", len s.vpas)
      ∷ ("pdbs", len s.pdbs)
      ∷ ("services", len s.services)
      ∷ ("ingresses", len s.ingresses)
      ∷ ("pvs", len s.pvs)
      ∷ ("pvcs", len s.pvcs)
      ∷ ("storageclasses", len s.storage_classes)
      ∷ ("priorityclasses", len s.priority_classes)
      ∷ ("limitranges", len s.limit_ranges)
      ∷ ("resourcequotas", len s.resource_quotas)
      ∷ ("nodepools", len s.node_pools)
      ∷ []
