-- ===== src/Snapshot/Gpu.antt =====
-- internal/snapshot/builder.go: mergeGPUNodeMetrics. The name of a node is compared with a label as
-- a list of bytes.
pub mod Containers
pub mod Readings
pub mod Direct
use kubeadapt_agent.Prelude.{
  ℕ, ◌+◌, ◌≡◌, ◌↔◌, Bool, true, false, not, ◌&&◌, ◌||◌, Option, none, some, List, [], ◌∷◌, ◌++◌,
  map, arith, if◌then◌else◌, ◌==◌, ℕ_eq, bytes_comparable, Comparable, is_empty, ltb, keep,
}
use kubeadapt_agent.Prelude.Int.{int64_half, add64}
use kubeadapt_agent.GoMap.{GoMap, lookup, insert, get_or}
use kubeadapt_agent.GoMap.Index.{group_from}
use kubeadapt_agent.Model.{Float64}
use kubeadapt_agent.Model.Node.{NodeInfo, GpuDeviceInfo}
use kubeadapt_agent.Model.Pod.{PodInfo, ContainerInfo}
use kubeadapt_agent.Transport.Message.{Text, text}
use kubeadapt_agent.Dcgm.Devices.{GpuDeviceMetrics}
use kubeadapt_agent.Snapshot.Summary.{
  plus_reading, count_reading, flag_reading, add_reading, average, when,
}

-- The variables of the loop over the devices of a node.
pub record GpuTotals (R : Type 0) : Type 0 where
  pub util_sum : R
  pub util_count : ℕ
  pub tensor_sum : R
  pub tensor_count : ℕ
  pub mem_util_sum : R
  pub mem_util_count : ℕ
  pub mem_used : ℕ
  pub mem_total : ℕ
  pub max_temp : R
  pub power_sum : R
  pub has_temp : Bool
  pub has_power : Bool
  pub mig_detected : Bool

abbrev pub device_info : {R : Type 0} → GpuDeviceMetrics R → GpuDeviceInfo R
device_info d = record {
  uuid = d.uuid;
  device_index = d.gpu;
  model_name = d.model_name;
  utilization_percent = d.gpu_utilization;
  tensor_active_percent = d.tensor_active_percent;
  memory_util_percent = d.mem_copy_util_percent;
  memory_used_bytes = d.memory_used_bytes;
  memory_total_bytes = d.memory_total_bytes;
  temperature_celsius = d.temperature;
  power_watts = d.power_usage;
  mig_profile = d.gpu_profile;
  mig_instance_id = d.gpu_instance_id;
}

abbrev pub is_enabled : Option Bool → Bool
is_enabled none = false
is_enabled (some b) = b

-- n > 0, of an int64 kept as its bit pattern
abbrev pub is_positive : ℕ → Bool
is_positive n = ltb 0 n && ltb n int64_half

abbrev pub or_else : {A : Type 0} → Option A → Option A → Option A
or_else (some a) old = some a
or_else none old = old

abbrev pub or_text : Text → Text → Text
or_text new old = if is_empty new then old else new

module _ {R : Type 0} (fl : Float64 R) where
  open fl use {zero_float, less}

  abbrev pub hotter : Option R → R → R
  hotter none max = max
  hotter (some v) max = if less max v then v else max

  abbrev pub no_gpu_totals : GpuTotals R
  no_gpu_totals = record {
    util_sum = zero_float;
    util_count = 0;
    tensor_sum = zero_float;
    tensor_count = 0;
    mem_util_sum = zero_float;
    mem_util_count = 0;
    mem_used = 0;
    mem_total = 0;
    max_temp = zero_float;
    power_sum = zero_float;
    has_temp = false;
    has_power = false;
    mig_detected = false;
  }

  unfoldable pub add_device : GpuDeviceMetrics R → GpuTotals R → GpuTotals R
  add_device d t = record {
    util_sum = plus_reading fl d.gpu_utilization t.util_sum;
    util_count = count_reading d.gpu_utilization t.util_count;
    tensor_sum = plus_reading fl d.tensor_active_percent t.tensor_sum;
    tensor_count = count_reading d.tensor_active_percent t.tensor_count;
    mem_util_sum = plus_reading fl d.mem_copy_util_percent t.mem_util_sum;
    mem_util_count = count_reading d.mem_copy_util_percent t.mem_util_count;
    mem_used = add_reading d.memory_used_bytes t.mem_used;
    mem_total = add_reading d.memory_total_bytes t.mem_total;
    max_temp = hotter d.temperature t.max_temp;
    power_sum = plus_reading fl d.power_usage t.power_sum;
    has_temp = flag_reading d.temperature t.has_temp;
    has_power = flag_reading d.power_usage t.has_power;
    mig_detected = t.mig_detected || is_enabled d.mig_enabled;
  }

  unfoldable pub add_devices : List (GpuDeviceMetrics R) → GpuTotals R → GpuTotals R
  add_devices [] t = t
  add_devices (d ∷ ds) t = add_devices ds (add_device d t)

  -- The body of the loop over the nodes.
  unfoldable pub with_devices : List (GpuDeviceMetrics R) → NodeInfo R → NodeInfo R
  with_devices [] n = n
  with_devices (d ∷ ds) n =
      let t = add_devices (d ∷ ds) no_gpu_totals in
      record n {
        gpu_devices = map device_info (d ∷ ds);
        gpu_model = or_text d.model_name n.gpu_model;
        gpu_driver_version = or_text d.driver_version n.gpu_driver_version;
        mig_enabled = t.mig_detected;
        gpu_utilization_percent =
            or_else (average fl t.util_sum t.util_count) n.gpu_utilization_percent;
        gpu_tensor_active_percent =
            or_else (average fl t.tensor_sum t.tensor_count) n.gpu_tensor_active_percent;
        gpu_memory_util_percent =
            or_else (average fl t.mem_util_sum t.mem_util_count) n.gpu_memory_util_percent;
        gpu_memory_used_bytes =
            or_else (if is_positive t.mem_used then some t.mem_used else none)
              n.gpu_memory_used_bytes;
        gpu_memory_total_bytes =
            or_else (if is_positive t.mem_total then some t.mem_total else none)
              n.gpu_memory_total_bytes;
        gpu_temperature_celsius =
            or_else (if t.has_temp then some t.max_temp else none) n.gpu_temperature_celsius;
        gpu_power_watts =
            or_else (if t.has_power then some t.power_sum else none) n.gpu_power_watts;
      }

  abbrev pub by_node : List (GpuDeviceMetrics R) → GoMap Text (List (GpuDeviceMetrics R))
  by_node ms = group_from (λ m. m.hostname) [] (keep (λ m. not (is_empty m.hostname)) ms)

  unfoldable pub merge_gpu_node_metrics :
      List (NodeInfo R) → List (GpuDeviceMetrics R) → List (NodeInfo R)
  merge_gpu_node_metrics nodes [] = nodes
  merge_gpu_node_metrics nodes (m ∷ ms) =
      let index = by_node (m ∷ ms) in
      map (λ n. with_devices (get_or [] (text n.name) index) n) nodes
