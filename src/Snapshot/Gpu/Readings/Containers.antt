-- ===== src/Snapshot/Gpu/Readings/Containers.antt =====
-- What a container gets from the readings of its devices.
use kubeadapt_agent.Prelude.{
  ◌+◌, ◌≡◌, refl, ap, ◌∙◌, false, Option, none, some, List, [], ◌∷◌, if◌then◌else◌, length,
}
use kubeadapt_agent.Model.{Float64}
use kubeadapt_agent.Model.Pod.{ContainerInfo}
use kubeadapt_agent.Dcgm.Devices.{GpuDeviceMetrics}
use kubeadapt_agent.Snapshot.Summary.{average}
use kubeadapt_agent.Snapshot.Gpu.{or_else}
use kubeadapt_agent.Snapshot.Gpu.Containers.{
  ContainerGpu, add_to_container, found_or_no_gpu, no_gpu, with_container_gpu,
}
use kubeadapt_agent.Snapshot.Gpu.Readings.{
  readings, add_zero, sum_or, add_all, flag_all, add_step, flag_step, count_step, sum_lem,
  float_sum, mean_or, plus_step, mean_lem,
}

module _ {R : Type 0} (fl : Float64 R) where
  open fl use {zero_float}

  -- A container with the readings of its devices.
  abbrev pub with_container_readings : List (GpuDeviceMetrics R) → ContainerInfo R → ContainerInfo R
  with_container_readings ds c = record c {
    gpu_utilization_percent =
        mean_or fl (readings (λ d. d.gpu_utilization) ds) c.gpu_utilization_percent;
    gpu_memory_used_bytes = sum_or (readings (λ d. d.memory_used_bytes) ds) c.gpu_memory_used_bytes;
  }

  -- The adding up of one container's devices, once it has begun.
  abbrev pub summed : Option (ContainerGpu R) → List (GpuDeviceMetrics R) → Option (ContainerGpu R)
  summed g [] = g
  summed g (m ∷ ms) = summed (some (add_to_container fl m (found_or_no_gpu fl g))) ms

  abbrev gpu_of : List (GpuDeviceMetrics R) → ContainerGpu R → ContainerGpu R
  gpu_of ds g = record {
    util_sum = float_sum fl g.util_sum (readings (λ d. d.gpu_utilization) ds);
    util_count = g.util_count + length (readings (λ d. d.gpu_utilization) ds);
    mem_used = add_all g.mem_used (readings (λ d. d.memory_used_bytes) ds);
    has_util = flag_all g.has_util (readings (λ d. d.gpu_utilization) ds);
    has_mem = flag_all g.has_mem (readings (λ d. d.memory_used_bytes) ds);
  }

  summed_lem :
      (ds : List (GpuDeviceMetrics R)) (g : ContainerGpu R)
      → summed (some g) ds ≡ some (gpu_of ds g)
  unfolding add_to_container
  summed_lem [] g = ap (λ n. some (record g { util_count = n })) (add_zero g.util_count)
  summed_lem (d ∷ ds) g = summed_lem ds (add_to_container fl d g) ∙ λ i. some (record {
    util_sum = plus_step fl d.gpu_utilization g.util_sum (readings (λ d. d.gpu_utilization) ds) i;
    util_count = count_step d.gpu_utilization g.util_count (readings (λ d. d.gpu_utilization) ds) i;
    mem_used = add_step d.memory_used_bytes g.mem_used (readings (λ d. d.memory_used_bytes) ds) i;
    has_util = flag_step d.gpu_utilization g.has_util (readings (λ d. d.gpu_utilization) ds) i;
    has_mem = flag_step d.memory_used_bytes g.has_mem (readings (λ d. d.memory_used_bytes) ds) i;
  })

  utilization_lem :
      (vs : List R) (old : Option R)
      → or_else
          (if flag_all false vs
            then average fl (float_sum fl zero_float vs) (0 + length vs)
            else none)
          old
        ≡ mean_or fl vs old
  utilization_lem [] old = refl
  utilization_lem (v ∷ vs) old = mean_lem fl (v ∷ vs) old

  summed_whole :
      (d : GpuDeviceMetrics R) (ds : List (GpuDeviceMetrics R))
      → summed none (d ∷ ds) ≡ some (gpu_of (d ∷ ds) (no_gpu fl))
  summed_whole d ds = summed_lem (d ∷ ds) (no_gpu fl)

  pub with_container_gpu_lem :
      (ds : List (GpuDeviceMetrics R)) (c : ContainerInfo R)
      → with_container_gpu fl (summed none ds) c ≡ with_container_readings ds c
  with_container_gpu_lem [] c = refl
  with_container_gpu_lem (d ∷ ds) c = ap (λ o. with_container_gpu fl o c) (summed_whole d ds) ∙ λ i.
      record c {
        gpu_utilization_percent =
            utilization_lem (readings (λ d. d.gpu_utilization) (d ∷ ds)) c.gpu_utilization_percent
              i;
        gpu_memory_used_bytes =
            sum_lem (readings (λ d. d.memory_used_bytes) (d ∷ ds)) c.gpu_memory_used_bytes i;
      }
