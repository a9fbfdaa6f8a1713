-- ===== src/Snapshot/Gpu/Readings/Nodes.antt =====
-- What a node gets from the readings of its devices.
use kubeadapt_agent.Prelude.{
  ◌+◌, ◌≡◌, refl, ◌∙◌, ◌||◌, List, [], ◌∷◌, map, any, if◌then◌else◌, is_empty, length,
}
use kubeadapt_agent.Model.{Float64}
use kubeadapt_agent.Model.Node.{NodeInfo}
use kubeadapt_agent.Dcgm.Devices.{GpuDeviceMetrics}
use kubeadapt_agent.Snapshot.Gpu.{GpuTotals, add_device, add_devices, no_gpu_totals, with_devices}
use kubeadapt_agent.Snapshot.Gpu.Readings.{
  readings, is_split, split_step, or_false, add_zero, positive_sum_or, add_all, flag_all, add_step,
  flag_step, count_step, positive_sum_lem, float_sum, mean_or, float_sum_or, largest, largest_or,
  plus_step, hotter_step, mean_lem, largest_lem, float_sum_lem,
}

module _ {R : Type 0} (fl : Float64 R) where
  open fl use {zero_float}

  -- A node with the readings of its devices: every device; model and driver of the first, if it
  -- tells them; whether one is split; the mean, sum or largest fl of the readings that there are, and
  -- what was there before where there are none.
  abbrev pub with_readings : List (GpuDeviceMetrics R) → NodeInfo R → NodeInfo R
  with_readings [] n = n
  with_readings (d ∷ ds) n = record n {
    gpu_devices =
        map
          (λ d. record {
            uuid = d.uuid;
            device_index = d.gpu;
            model_name = d.model_name;
            utilization_percent = d.gpu_utilization;
            tensor_active_percent = d.tensor_active_percent;
            memory_util_percent = d.mem_copy_util_percent;
            memory_used_bytes = d.memory_used_bytes;
            memory_total_bytes = d.memory_total_bytes;
            temperature_celsius = d.temperature;
            power_watts = d.power_usage;
            mig_profile = d.gpu_profile;
            mig_instance_id = d.gpu_instance_id;
          })
          (d ∷ ds);
    gpu_model = if is_empty d.model_name then n.gpu_model else d.model_name;
    gpu_driver_version =
        if is_empty d.driver_version then n.gpu_driver_version else d.driver_version;
    mig_enabled = any (λ d. is_split d.mig_enabled) (d ∷ ds);
    gpu_utilization_percent =
        mean_or fl (readings (λ d. d.gpu_utilization) (d ∷ ds)) n.gpu_utilization_percent;
    gpu_tensor_active_percent =
        mean_or fl (readings (λ d. d.tensor_active_percent) (d ∷ ds)) n.gpu_tensor_active_percent;
    gpu_memory_util_percent =
        mean_or fl (readings (λ d. d.mem_copy_util_percent) (d ∷ ds)) n.gpu_memory_util_percent;
    gpu_memory_used_bytes =
        positive_sum_or (readings (λ d. d.memory_used_bytes) (d ∷ ds)) n.gpu_memory_used_bytes;
    gpu_memory_total_bytes =
        positive_sum_or (readings (λ d. d.memory_total_bytes) (d ∷ ds)) n.gpu_memory_total_bytes;
    gpu_temperature_celsius =
        largest_or fl (readings (λ d. d.temperature) (d ∷ ds)) n.gpu_temperature_celsius;
    gpu_power_watts = float_sum_or fl (readings (λ d. d.power_usage) (d ∷ ds)) n.gpu_power_watts;
  }

  -- The totals of the loop from the given ones, by the readings.
  abbrev totals_of : List (GpuDeviceMetrics R) → GpuTotals R → GpuTotals R
  totals_of ds t = record {
    util_sum = float_sum fl t.util_sum (readings (λ d. d.gpu_utilization) ds);
    util_count = t.util_count + length (readings (λ d. d.gpu_utilization) ds);
    tensor_sum = float_sum fl t.tensor_sum (readings (λ d. d.tensor_active_percent) ds);
    tensor_count = t.tensor_count + length (readings (λ d. d.tensor_active_percent) ds);
    mem_util_sum = float_sum fl t.mem_util_sum (readings (λ d. d.mem_copy_util_percent) ds);
    mem_util_count = t.mem_util_count + length (readings (λ d. d.mem_copy_util_percent) ds);
    mem_used = add_all t.mem_used (readings (λ d. d.memory_used_bytes) ds);
    mem_total = add_all t.mem_total (readings (λ d. d.memory_total_bytes) ds);
    max_temp = largest fl t.max_temp (readings (λ d. d.temperature) ds);
    power_sum = float_sum fl t.power_sum (readings (λ d. d.power_usage) ds);
    has_temp = flag_all t.has_temp (readings (λ d. d.temperature) ds);
    has_power = flag_all t.has_power (readings (λ d. d.power_usage) ds);
    mig_detected = t.mig_detected || any (λ d. is_split d.mig_enabled) ds;
  }

  add_devices_lem :
      (ds : List (GpuDeviceMetrics R)) (t : GpuTotals R) → add_devices fl ds t ≡ totals_of ds t
  unfolding add_devices add_device
  add_devices_lem [] t = λ i. record t {
    util_count = add_zero t.util_count i;
    tensor_count = add_zero t.tensor_count i;
    mem_util_count = add_zero t.mem_util_count i;
    mig_detected = or_false t.mig_detected i;
  }
  add_devices_lem (d ∷ ds) t = add_devices_lem ds (add_device fl d t) ∙ λ i. record {
    util_sum = plus_step fl d.gpu_utilization t.util_sum (readings (λ d. d.gpu_utilization) ds) i;
    util_count = count_step d.gpu_utilization t.util_count (readings (λ d. d.gpu_utilization) ds) i;
    tensor_sum =
        plus_step fl d.tensor_active_percent t.tensor_sum
          (readings (λ d. d.tensor_active_percent) ds) i;
    tensor_count =
        count_step d.tensor_active_percent t.tensor_count
          (readings (λ d. d.tensor_active_percent) ds) i;
    mem_util_sum =
        plus_step fl d.mem_copy_util_percent t.mem_util_sum
          (readings (λ d. d.mem_copy_util_percent) ds) i;
    mem_util_count =
        count_step d.mem_copy_util_percent t.mem_util_count
          (readings (λ d. d.mem_copy_util_percent) ds) i;
    mem_used = add_step d.memory_used_bytes t.mem_used (readings (λ d. d.memory_used_bytes) ds) i;
    mem_total =
        add_step d.memory_total_bytes t.mem_total (readings (λ d. d.memory_total_bytes) ds) i;
    max_temp = hotter_step fl d.temperature t.max_temp (readings (λ d. d.temperature) ds) i;
    power_sum = plus_step fl d.power_usage t.power_sum (readings (λ d. d.power_usage) ds) i;
    has_temp = flag_step d.temperature t.has_temp (readings (λ d. d.temperature) ds) i;
    has_power = flag_step d.power_usage t.has_power (readings (λ d. d.power_usage) ds) i;
    mig_detected = split_step d.mig_enabled t.mig_detected (any (λ d. is_split d.mig_enabled) ds) i;
  }

  pub with_devices_lem :
      (ds : List (GpuDeviceMetrics R)) (n : NodeInfo R) → with_devices fl ds n ≡ with_readings ds n
  unfolding with_devices
  with_devices_lem [] n = refl
  with_devices_lem (d ∷ ds) n = rw (add_devices_lem (d ∷ ds) (no_gpu_totals fl)) (λ i.
      record (with_readings (d ∷ ds) n) {
        gpu_utilization_percent =
            mean_lem fl (readings (λ d. d.gpu_utilization) (d ∷ ds)) n.gpu_utilization_percent i;
        gpu_tensor_active_percent =
            mean_lem fl (readings (λ d. d.tensor_active_percent) (d ∷ ds))
              n.gpu_tensor_active_percent i;
        gpu_memory_util_percent =
            mean_lem fl (readings (λ d. d.mem_copy_util_percent) (d ∷ ds)) n.gpu_memory_util_percent
              i;
        gpu_memory_used_bytes =
            positive_sum_lem (readings (λ d. d.memory_used_bytes) (d ∷ ds)) n.gpu_memory_used_bytes
              i;
        gpu_memory_total_bytes =
            positive_sum_lem (readings (λ d. d.memory_total_bytes) (d ∷ ds))
              n.gpu_memory_total_bytes i;
        gpu_temperature_celsius =
            largest_lem fl (readings (λ d. d.temperature) (d ∷ ds)) n.gpu_temperature_celsius i;
        gpu_power_watts =
            float_sum_lem fl (readings (λ d. d.power_usage) (d ∷ ds)) n.gpu_power_watts i;
      })
