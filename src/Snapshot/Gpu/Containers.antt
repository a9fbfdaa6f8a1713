-- ===== src/Snapshot/Gpu/Containers.antt =====
-- internal/snapshot/builder.go: mergeGPUContainerMetrics. The name of a pod or a container is
-- compared with a label as a list of bytes.
use kubeadapt_agent.Prelude.{
  ℕ, ◌≡◌, ◌↔◌, Bool, true, false, not, ◌&&◌, ◌||◌, Option, none, some, List, [], ◌∷◌, map, arith,
  if◌then◌else◌, ◌==◌, ℕ_eq, bytes_comparable, Comparable, is_empty,
}
use kubeadapt_agent.GoMap.{GoMap, lookup, insert}
use kubeadapt_agent.Model.{Float64}
use kubeadapt_agent.Model.Pod.{PodInfo, ContainerInfo}
use kubeadapt_agent.Transport.Message.{Text, text}
use kubeadapt_agent.Dcgm.Devices.{GpuDeviceMetrics}
use kubeadapt_agent.Snapshot.Summary.{
  plus_reading, count_reading, flag_reading, add_reading, average,
}
use kubeadapt_agent.Snapshot.Gpu.{or_else}

pub record ContainerKey : Type 0 where
  pub namespace : Text
  pub pod : Text
  pub container : Text

abbrev pub same_container : ContainerKey → ContainerKey → Bool
same_container a b = a.namespace == b.namespace && a.pod == b.pod && a.container == b.container

pub same_container_iff : (a b : ContainerKey) → (same_container a b ≡ true) ↔ (a ≡ b)
same_container_iff a b = ground (
  arith,
  bytes_comparable.equal_iff a.namespace b.namespace,
  bytes_comparable.equal_iff a.pod b.pod,
  bytes_comparable.equal_iff a.container b.container,
)

instance abbrev pub ContainerKey_eq : Comparable ContainerKey
ContainerKey_eq = record { equal = same_container; equal_iff = same_container_iff }

pub record ContainerGpu (R : Type 0) : Type 0 where
  pub util_sum : R
  pub util_count : ℕ
  pub mem_used : ℕ
  pub has_util : Bool
  pub has_mem : Bool

module _ {R : Type 0} (fl : Float64 R) where
  abbrev pub no_gpu : ContainerGpu R
  no_gpu = record {
    util_sum = fl.zero_float;
    util_count = 0;
    mem_used = 0;
    has_util = false;
    has_mem = false;
  }

  abbrev pub container_key : GpuDeviceMetrics R → ContainerKey
  container_key m = record {
    namespace = m.namespace;
    pod = m.pod_name;
    container = m.container_name;
  }

  abbrev pub names_container : GpuDeviceMetrics R → Bool
  names_container m = not (is_empty m.pod_name || is_empty m.namespace || is_empty m.container_name)

  unfoldable pub add_to_container : GpuDeviceMetrics R → ContainerGpu R → ContainerGpu R
  add_to_container m g = record {
    util_sum = plus_reading fl m.gpu_utilization g.util_sum;
    util_count = count_reading m.gpu_utilization g.util_count;
    mem_used = add_reading m.memory_used_bytes g.mem_used;
    has_util = flag_reading m.gpu_utilization g.has_util;
    has_mem = flag_reading m.memory_used_bytes g.has_mem;
  }

  abbrev pub found_or_no_gpu : Option (ContainerGpu R) → ContainerGpu R
  found_or_no_gpu none = no_gpu
  found_or_no_gpu (some g) = g

  -- The loop that fills `lookup`.
  unfoldable pub container_index :
      GoMap ContainerKey (ContainerGpu R)
      → List (GpuDeviceMetrics R)
      → GoMap ContainerKey (ContainerGpu R)
  container_index index [] = index
  container_index index (m ∷ ms) =
      let key = container_key m in
      let g = add_to_container m (found_or_no_gpu (lookup key index)) in
      container_index (if names_container m then insert key g index else index) ms

  abbrev pub with_container_gpu : Option (ContainerGpu R) → ContainerInfo R → ContainerInfo R
  with_container_gpu none c = c
  with_container_gpu (some g) c = record c {
    gpu_utilization_percent =
        or_else (if g.has_util then average fl g.util_sum g.util_count else none)
          c.gpu_utilization_percent;
    gpu_memory_used_bytes =
        or_else (if g.has_mem then some g.mem_used else none) c.gpu_memory_used_bytes;
  }

  abbrev pub key_in : PodInfo R → ContainerInfo R → ContainerKey
  key_in p c = record { namespace = text p.namespace; pod = text p.name; container = text c.name }

  -- The body of the loop over the pods.
  unfoldable pub with_pod_gpu : GoMap ContainerKey (ContainerGpu R) → PodInfo R → PodInfo R
  with_pod_gpu index p = record p {
    containers = map (λ c. with_container_gpu (lookup (key_in p c) index) c) p.containers;
  }

  unfoldable pub merge_gpu_container_metrics :
      List (PodInfo R) → List (GpuDeviceMetrics R) → List (PodInfo R)
  merge_gpu_container_metrics pods [] = pods
  merge_gpu_container_metrics pods (m ∷ ms) =
      let index = container_index [] (m ∷ ms) in map (with_pod_gpu index) pods
