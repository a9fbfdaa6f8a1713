-- ===== src/Model/Node.antt =====
-- pkg/model/node.go and the device part of pkg/model/gpu.go.
use kubeadapt_agent.Prelude.{List, ℕ, Bool, Option, String}
use kubeadapt_agent.Prelude.Int.{ℤ}
use kubeadapt_agent.GoMap.{GoMap}
use kubeadapt_agent.Model.Condition.{ConditionInfo}

pub record GpuDeviceInfo (R : Type 0) : Type 0 where
  pub uuid : List ℕ
  pub device_index : List ℕ
  pub model_name : List ℕ
  pub utilization_percent : Option R
  pub tensor_active_percent : Option R
  pub memory_util_percent : Option R
  pub memory_used_bytes : Option ℕ
  pub memory_total_bytes : Option ℕ
  pub temperature_celsius : Option R
  pub power_watts : Option R
  pub mig_profile : List ℕ
  pub mig_instance_id : List ℕ

pub record TaintInfo : Type 0 where
  pub key : String
  pub value : String
  pub effect : String

-- What comes from dcgm-exporter, from the provider id or from the labels is a list of bytes, since
-- the code cuts it. MIGDevices is left out: no code of the agent sets or reads it.
pub record NodeInfo (R : Type 0) : Type 0 where
  pub name : String
  pub uid : String
  pub provider_id : List ℕ
  pub instance_id : List ℕ
  pub instance_type : List ℕ
  pub region : List ℕ
  pub zone : List ℕ
  pub capacity_type : List ℕ
  pub node_group : List ℕ
  pub architecture : List ℕ
  pub os : List ℕ
  pub kubelet_version : String
  pub container_runtime : String
  pub pod_cidr : String
  pub pod_cidrs : List String
  pub os_image : String
  pub kernel_version : String
  pub kube_proxy_version : String
  pub cpu_capacity_cores : R
  pub memory_capacity_bytes : ℕ
  pub ephemeral_storage_bytes : ℕ
  pub ephemeral_storage_allocatable : ℕ
  pub pod_capacity : ℕ
  pub gpu_capacity : ℕ
  pub cpu_allocatable : R
  pub memory_allocatable : ℕ
  pub pod_allocatable : ℕ
  pub gpu_allocatable : ℕ
  pub gpu_model : List ℕ
  pub gpu_driver_version : List ℕ
  pub mig_enabled : Bool
  pub gpu_utilization_percent : Option R
  pub gpu_tensor_active_percent : Option R
  pub gpu_memory_util_percent : Option R
  pub gpu_memory_used_bytes : Option ℕ
  pub gpu_memory_total_bytes : Option ℕ
  pub gpu_temperature_celsius : Option R
  pub gpu_power_watts : Option R
  pub gpu_devices : List (GpuDeviceInfo R)
  pub cpu_usage_cores : Option R
  pub memory_usage_bytes : Option ℕ
  pub ready : Bool
  pub unschedulable : Bool
  pub taints : List TaintInfo
  pub conditions : List ConditionInfo
  pub labels : GoMap (List ℕ) (List ℕ)
  pub annotations : GoMap (List ℕ) (List ℕ)
  pub creation_timestamp : ℤ

pub record NodeMetrics (R : Type 0) : Type 0 where
  pub name : String
  pub cpu_usage_cores : R
  pub memory_usage_bytes : ℕ
  pub timestamp : ℤ
