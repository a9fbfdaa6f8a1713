-- ===== src/Model/Cluster.antt =====
-- pkg/model/snapshot.go: ClusterSnapshot, ClusterSummary and AgentHealth.
use kubeadapt_agent.Prelude.{ℕ, Bool, false, Option, none, List, String}
use kubeadapt_agent.Model.Health.{AgentHealth}
use kubeadapt_agent.Model.Node.{NodeInfo}
use kubeadapt_agent.Model.Pod.{PodInfo}
use kubeadapt_agent.Model.Workload.{WorkloadInfo, JobInfo, CronJobInfo, ServiceInfo}
use kubeadapt_agent.Model.Autoscaling.{HpaInfo, VpaInfo, PdbInfo}
use kubeadapt_agent.Model.Network.{IngressInfo}
use kubeadapt_agent.Model.Storage.{PvInfo, PvcInfo, StorageClassInfo}
use kubeadapt_agent.Model.Scheduling.{
  NamespaceInfo, PriorityClassInfo, LimitRangeInfo, ResourceQuotaInfo, NodePoolInfo,
}

-- A resource that the agent only counts: no collector writes it.
pub record CountedInfo : Type 0 where
  pub name : String

pub record ClusterSummary (R : Type 0) : Type 0 where
  pub node_count : ℕ
  pub pod_count : ℕ
  pub running_pod_count : ℕ
  pub pending_pod_count : ℕ
  pub failed_pod_count : ℕ
  pub succeeded_pod_count : ℕ
  pub namespace_count : ℕ
  pub deployment_count : ℕ
  pub stateful_set_count : ℕ
  pub daemon_set_count : ℕ
  pub job_count : ℕ
  pub cron_job_count : ℕ
  pub custom_workload_count : ℕ
  pub hpa_count : ℕ
  pub service_count : ℕ
  pub ingress_count : ℕ
  pub pv_count : ℕ
  pub pvc_count : ℕ
  pub container_count : ℕ
  pub total_cpu_capacity : R
  pub total_cpu_allocatable : R
  pub total_cpu_requested : R
  pub total_cpu_usage : Option R
  pub total_memory_capacity : ℕ
  pub total_memory_allocatable : ℕ
  pub total_memory_requested : ℕ
  pub total_memory_usage : Option ℕ
  pub total_gpu_capacity : ℕ
  pub total_gpu_requested : ℕ
  pub total_gpu_usage : Option R
  pub total_gpu_tensor_active : Option R
  pub total_gpu_memory_util : Option R
  pub total_gpu_memory_used : Option ℕ
  pub total_gpu_memory_total : Option ℕ
  pub gpu_metrics_available : Bool
  pub total_storage_capacity : ℕ
  pub total_storage_requested : ℕ
  pub metrics_available : Bool

-- The zero value of the struct.
abbrev pub zero_summary : {R : Type 0} → R → ClusterSummary R
zero_summary z = record {
  node_count = 0;
  pod_count = 0;
  running_pod_count = 0;
  pending_pod_count = 0;
  failed_pod_count = 0;
  succeeded_pod_count = 0;
  namespace_count = 0;
  deployment_count = 0;
  stateful_set_count = 0;
  daemon_set_count = 0;
  job_count = 0;
  cron_job_count = 0;
  custom_workload_count = 0;
  hpa_count = 0;
  service_count = 0;
  ingress_count = 0;
  pv_count = 0;
  pvc_count = 0;
  container_count = 0;
  total_cpu_capacity = z;
  total_cpu_allocatable = z;
  total_cpu_requested = z;
  total_cpu_usage = none;
  total_memory_capacity = 0;
  total_memory_allocatable = 0;
  total_memory_requested = 0;
  total_memory_usage = none;
  total_gpu_capacity = 0;
  total_gpu_requested = 0;
  total_gpu_usage = none;
  total_gpu_tensor_active = none;
  total_gpu_memory_util = none;
  total_gpu_memory_used = none;
  total_gpu_memory_total = none;
  gpu_metrics_available = false;
  total_storage_capacity = 0;
  total_storage_requested = 0;
  metrics_available = false;
}

pub record ClusterSnapshot (R : Type 0) : Type 0 where
  pub snapshot_id : String
  pub timestamp : ℕ
  pub agent_version : String
  pub kubernetes_version : String
  pub cloud_account_id : String
  pub provider : String
  pub region : List ℕ
  pub nodes : List (NodeInfo R)
  pub pods : List (PodInfo R)
  pub namespaces : List NamespaceInfo
  pub deployments : List (WorkloadInfo R)
  pub stateful_sets : List (WorkloadInfo R)
  pub daemon_sets : List (WorkloadInfo R)
  pub jobs : List (JobInfo R)
  pub cron_jobs : List (CronJobInfo R)
  pub custom_workloads : List CountedInfo
  pub hpas : List HpaInfo
  pub vpas : List (VpaInfo R)
  pub pdbs : List PdbInfo
  pub services : List ServiceInfo
  pub ingresses : List IngressInfo
  pub pvs : List PvInfo
  pub pvcs : List PvcInfo
  pub storage_classes : List StorageClassInfo
  pub priority_classes : List PriorityClassInfo
  pub limit_ranges : List LimitRangeInfo
  pub resource_quotas : List ResourceQuotaInfo
  pub node_pools : List NodePoolInfo
  pub summary : ClusterSummary R
  pub health : AgentHealth R
