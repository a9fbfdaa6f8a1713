-- ===== src/Model/Pod.antt =====
-- pkg/model/pod.go.
use kubeadapt_agent.Prelude.{ℕ, Bool, Option, List, String}
use kubeadapt_agent.Prelude.Int.{ℤ}
use kubeadapt_agent.GoMap.{GoMap}

pub record ContainerPortInfo : Type 0 where
  pub name : String
  pub container_port : ℤ
  pub protocol : String

pub record PodConditionInfo : Type 0 where
  pub kind : String
  pub status : String
  pub reason : String
  pub message : String

pub record ContainerInfo (R : Type 0) : Type 0 where
  pub name : String
  pub image : String
  pub image_id : String
  pub cpu_request_cores : R
  pub memory_request_bytes : ℕ
  pub cpu_limit_cores : R
  pub memory_limit_bytes : ℕ
  pub ephemeral_storage_request : ℕ
  pub ephemeral_storage_limit : ℕ
  pub gpu_request : ℕ
  pub gpu_limit : ℕ
  pub cpu_usage_cores : Option R
  pub memory_usage_bytes : Option ℕ
  pub gpu_utilization_percent : Option R
  pub gpu_memory_used_bytes : Option ℕ
  pub ready : Bool
  pub started : Option Bool
  pub restart_count : ℤ
  pub state : String
  pub state_reason : String
  pub state_message : String
  pub last_termination_reason : String
  pub exit_code : Option ℤ
  pub ports : List ContainerPortInfo

-- The keys and values of annotations are cut by bytes, so they are lists of bytes.
pub record PodInfo (R : Type 0) : Type 0 where
  pub name : String
  pub uid : String
  pub namespace : String
  pub node_name : String
  pub phase : String
  pub reason : String
  pub qos_class : String
  pub owner_kind : String
  pub owner_name : String
  pub owner_uid : String
  pub containers : List (ContainerInfo R)
  pub init_containers : List (ContainerInfo R)
  pub labels : GoMap String String
  pub annotations : GoMap (List ℕ) (List ℕ)
  pub creation_timestamp : ℤ
  pub priority_class_name : String
  pub priority : Option ℤ
  pub scheduler_name : String
  pub service_account_name : String
  pub pod_ip : String
  pub host_ip : String
  pub host_network : Bool
  pub has_host_path : Bool
  pub has_empty_dir : Bool
  pub conditions : List PodConditionInfo

pub record ContainerMetrics (R : Type 0) : Type 0 where
  pub name : String
  pub cpu_usage_cores : R
  pub memory_usage_bytes : ℕ

pub record PodMetrics (R : Type 0) : Type 0 where
  pub name : String
  pub namespace : String
  pub containers : List (ContainerMetrics R)
  pub timestamp : ℤ
