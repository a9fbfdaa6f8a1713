-- ===== src/Model/Workload.antt =====
-- pkg/model/workload.go and job.go, and ServiceInfo of network.go.
use kubeadapt_agent.Prelude.{ℕ, Bool, Option, List, String}
use kubeadapt_agent.Prelude.Int.{ℤ}
use kubeadapt_agent.GoMap.{GoMap}
use kubeadapt_agent.Model.Condition.{ConditionInfo, WorkloadReference}
use kubeadapt_agent.Model.Network.{LoadBalancerInfo, ServicePortInfo}

pub record ContainerSpecInfo (R : Type 0) : Type 0 where
  pub name : String
  pub image : String
  pub cpu_request_cores : R
  pub memory_request_bytes : ℕ
  pub cpu_limit_cores : R
  pub memory_limit_bytes : ℕ
  pub gpu_request : ℕ
  pub gpu_limit : ℕ

pub record DeploymentDetails : Type 0 where
  pub replicas : ℤ
  pub ready_replicas : ℤ
  pub available_replicas : ℤ
  pub unavailable_replicas : ℤ
  pub updated_replicas : ℤ
  pub max_surge : String
  pub max_unavailable : String
  pub paused : Bool

pub record StatefulSetDetails : Type 0 where
  pub replicas : ℤ
  pub ready_replicas : ℤ
  pub available_replicas : ℤ
  pub updated_replicas : ℤ
  pub service_name : String
  pub pod_management_policy : String
  pub volume_claim_templates : List String
  pub partition : Option ℤ

pub record DaemonSetDetails : Type 0 where
  pub desired_number_scheduled : ℤ
  pub current_number_scheduled : ℤ
  pub number_ready : ℤ
  pub number_misscheduled : ℤ
  pub updated_number_scheduled : ℤ
  pub number_unavailable : ℤ
  pub number_available : ℤ

-- The fields that only one of the three structs has.
pub data WorkloadDetails : Type 0 where
  deployment : DeploymentDetails → WorkloadDetails
  stateful_set : StatefulSetDetails → WorkloadDetails
  daemon_set : DaemonSetDetails → WorkloadDetails

-- DeploymentInfo, StatefulSetInfo and DaemonSetInfo: the fields that all three have, and `details`
-- with the others.
pub record WorkloadInfo (R : Type 0) : Type 0 where
  pub name : String
  pub uid : String
  pub namespace : String
  pub strategy : String
  pub details : WorkloadDetails
  pub total_cpu_request : R
  pub total_memory_request : ℕ
  pub total_cpu_limit : R
  pub total_memory_limit : ℕ
  pub total_cpu_usage : Option R
  pub total_memory_usage : Option ℕ
  pub container_specs : List (ContainerSpecInfo R)
  pub selector : GoMap String String
  pub labels : GoMap String String
  pub annotations : GoMap (List ℕ) (List ℕ)
  pub creation_timestamp : ℤ
  pub conditions : List ConditionInfo

pub record ReplicaSetInfo : Type 0 where
  pub name : String
  pub namespace : String
  pub replicas : ℤ
  pub ready_replicas : ℤ
  pub owner_kind : String
  pub owner_name : String
  pub owner_uid : String
  pub selector : GoMap String String
  pub labels : GoMap String String
  pub creation_timestamp : ℤ

pub record JobInfo (R : Type 0) : Type 0 where
  pub name : String
  pub uid : String
  pub namespace : String
  pub owner_cron_job : String
  pub completions : Option ℤ
  pub parallelism : Option ℤ
  pub backoff_limit : Option ℤ
  pub active_deadline_seconds : Option ℤ
  pub ttl_seconds_after_finished : Option ℤ
  pub active : ℤ
  pub succeeded : ℤ
  pub failed : ℤ
  pub start_time : Option ℤ
  pub completion_time : Option ℤ
  pub duration_seconds : Option R
  pub total_cpu_request : R
  pub total_memory_request : ℕ
  pub total_cpu_usage : Option R
  pub total_memory_usage : Option ℕ
  pub container_specs : List (ContainerSpecInfo R)
  pub labels : GoMap String String
  pub annotations : GoMap (List ℕ) (List ℕ)
  pub creation_timestamp : ℤ
  pub conditions : List ConditionInfo

pub record CronJobInfo (R : Type 0) : Type 0 where
  pub name : String
  pub uid : String
  pub namespace : String
  pub schedule : String
  pub suspend : Bool
  pub concurrency_policy : String
  pub last_schedule_time : Option ℤ
  pub last_successful_time : Option ℤ
  pub active_jobs : List String
  pub container_specs : List (ContainerSpecInfo R)
  pub labels : GoMap String String
  pub annotations : GoMap (List ℕ) (List ℕ)
  pub creation_timestamp : ℤ

pub record ServiceInfo : Type 0 where
  pub name : String
  pub namespace : String
  pub kind : String
  pub cluster_ip : String
  pub cluster_ips : List String
  pub external_ips : List String
  pub load_balancer : Option LoadBalancerInfo
  pub ports : List ServicePortInfo
  pub selector : GoMap String String
  pub target_workloads : List WorkloadReference
  pub labels : GoMap String String
  pub annotations : GoMap (List ℕ) (List ℕ)
  pub creation_timestamp : ℤ
  pub session_affinity : String
