-- ===== src/Snapshot/Summary.antt =====
-- internal/snapshot/summary.go: ComputeSummary, one function for each of its loops.
pub mod Counts
use kubeadapt_agent.Prelude.{
  ℕ, ◌+◌, ◌≡◌, Bool, true, false, ◌&&◌, Option, none, some, List, [], ◌∷◌, String, String_eq,
  if◌then◌else◌, ◌==◌, ltb, length,
}
use kubeadapt_agent.Prelude.Int.{add64}
use kubeadapt_agent.Model.{Float64}
use kubeadapt_agent.Model.Node.{NodeInfo}
use kubeadapt_agent.Model.Pod.{PodInfo, ContainerInfo}
use kubeadapt_agent.Model.Cluster.{ClusterSnapshot, ClusterSummary}
use kubeadapt_agent.Model.Storage.{PvInfo, PvcInfo}

pub record PodCounts : Type 0 where
  pub running : ℕ
  pub pending : ℕ
  pub failed : ℕ
  pub succeeded : ℕ
  pub containers : ℕ

abbrev pub no_counts : PodCounts
no_counts = record { running = 0; pending = 0; failed = 0; succeeded = 0; containers = 0 }

abbrev pub count_phase : String → PodCounts → PodCounts
count_phase phase c =
    if phase == "Running"
    then record c { running = c.running + 1 }
    else if phase == "Pending"
    then record c { pending = c.pending + 1 }
    else if phase == "Failed"
    then record c { failed = c.failed + 1 }
    else if phase == "Succeeded"
    then record c { succeeded = c.succeeded + 1 }
    else c

abbrev pub count_pod : {R : Type 0} → PodInfo R → PodCounts → PodCounts
count_pod pod c =
    let c' = count_phase pod.phase c in
    record c' { containers = c'.containers + length pod.containers }

unfoldable pub count_pods : {R : Type 0} → List (PodInfo R) → PodCounts → PodCounts
count_pods [] c = c
count_pods (pod ∷ pods) c = count_pods pods (count_pod pod c)

-- The variables of the loop over the nodes.
pub record NodeTotals (R : Type 0) : Type 0 where
  pub cpu_capacity : R
  pub cpu_allocatable : R
  pub memory_capacity : ℕ
  pub memory_allocatable : ℕ
  pub gpu_capacity : ℕ
  pub cpu_usage_sum : R
  pub has_cpu_usage : Bool
  pub mem_usage_sum : ℕ
  pub has_mem_usage : Bool
  pub gpu_usage_sum : R
  pub gpu_node_count : ℕ
  pub gpu_tensor_sum : R
  pub gpu_tensor_count : ℕ
  pub gpu_mem_util_sum : R
  pub gpu_mem_util_count : ℕ
  pub gpu_mem_used_sum : ℕ
  pub gpu_mem_total_sum : ℕ

-- Of a sum of floats and a count, or of floats and a flag, after one more reading.
abbrev pub plus_reading : {R : Type 0} → Float64 R → Option R → R → R
plus_reading fl none s = s
plus_reading fl (some v) s = fl.plus s v

abbrev pub count_reading : {A : Type 0} → Option A → ℕ → ℕ
count_reading none n = n
count_reading (some v) n = n + 1

abbrev pub flag_reading : {A : Type 0} → Option A → Bool → Bool
flag_reading none b = b
flag_reading (some v) b = true

abbrev pub add_reading : Option ℕ → ℕ → ℕ
add_reading none s = s
add_reading (some v) s = add64 s v

pub record Requests (R : Type 0) : Type 0 where
  pub cpu : R
  pub memory : ℕ
  pub gpu : ℕ

module _ {R : Type 0} (fl : Float64 R) where
  open fl use {zero_float, plus, divide, of_int}

  abbrev pub no_totals : NodeTotals R
  no_totals = record {
    cpu_capacity = zero_float;
    cpu_allocatable = zero_float;
    memory_capacity = 0;
    memory_allocatable = 0;
    gpu_capacity = 0;
    cpu_usage_sum = zero_float;
    has_cpu_usage = false;
    mem_usage_sum = 0;
    has_mem_usage = false;
    gpu_usage_sum = zero_float;
    gpu_node_count = 0;
    gpu_tensor_sum = zero_float;
    gpu_tensor_count = 0;
    gpu_mem_util_sum = zero_float;
    gpu_mem_util_count = 0;
    gpu_mem_used_sum = 0;
    gpu_mem_total_sum = 0;
  }

  unfoldable pub add_node : NodeInfo R → NodeTotals R → NodeTotals R
  add_node n t = record {
    cpu_capacity = plus t.cpu_capacity n.cpu_capacity_cores;
    cpu_allocatable = plus t.cpu_allocatable n.cpu_allocatable;
    memory_capacity = add64 t.memory_capacity n.memory_capacity_bytes;
    memory_allocatable = add64 t.memory_allocatable n.memory_allocatable;
    gpu_capacity = add64 t.gpu_capacity n.gpu_capacity;
    cpu_usage_sum = plus_reading fl n.cpu_usage_cores t.cpu_usage_sum;
    has_cpu_usage = flag_reading n.cpu_usage_cores t.has_cpu_usage;
    mem_usage_sum = add_reading n.memory_usage_bytes t.mem_usage_sum;
    has_mem_usage = flag_reading n.memory_usage_bytes t.has_mem_usage;
    gpu_usage_sum = plus_reading fl n.gpu_utilization_percent t.gpu_usage_sum;
    gpu_node_count = count_reading n.gpu_utilization_percent t.gpu_node_count;
    gpu_tensor_sum = plus_reading fl n.gpu_tensor_active_percent t.gpu_tensor_sum;
    gpu_tensor_count = count_reading n.gpu_tensor_active_percent t.gpu_tensor_count;
    gpu_mem_util_sum = plus_reading fl n.gpu_memory_util_percent t.gpu_mem_util_sum;
    gpu_mem_util_count = count_reading n.gpu_memory_util_percent t.gpu_mem_util_count;
    gpu_mem_used_sum = add_reading n.gpu_memory_used_bytes t.gpu_mem_used_sum;
    gpu_mem_total_sum = add_reading n.gpu_memory_total_bytes t.gpu_mem_total_sum;
  }

  unfoldable pub add_nodes : List (NodeInfo R) → NodeTotals R → NodeTotals R
  add_nodes [] t = t
  add_nodes (n ∷ ns) t = add_nodes ns (add_node n t)

  unfoldable pub request_containers : List (ContainerInfo R) → Requests R → Requests R
  request_containers [] r = r
  request_containers (c ∷ cs) r = request_containers cs (record {
    cpu = plus r.cpu c.cpu_request_cores;
    memory = add64 r.memory c.memory_request_bytes;
    gpu = add64 r.gpu c.gpu_request;
  })

  unfoldable pub request_pods : List (PodInfo R) → Requests R → Requests R
  request_pods [] r = r
  request_pods (pod ∷ pods) r = request_pods pods (request_containers pod.containers r)

  unfoldable pub add_capacities : List PvInfo → ℕ → ℕ
  add_capacities [] s = s
  add_capacities (v ∷ vs) s = add_capacities vs (add64 s v.capacity)

  unfoldable pub add_requested : List PvcInfo → ℕ → ℕ
  add_requested [] s = s
  add_requested (v ∷ vs) s = add_requested vs (add64 s v.requested_bytes)

  abbrev pub average : R → ℕ → Option R
  average s n = if ltb 0 n then some (divide s (of_int n)) else none

  abbrev pub when : {A : Type 0} → Bool → A → Option A
  when b a = if b then some a else none

  unfoldable pub compute_summary : ClusterSnapshot R → ClusterSummary R
  compute_summary s =
      let c = count_pods s.pods no_counts in
      let t = add_nodes s.nodes no_totals in
      let r = request_pods s.pods (record { cpu = zero_float; memory = 0; gpu = 0 }) in
      record {
        node_count = length s.nodes;
        pod_count = length s.pods;
        running_pod_count = c.running;
        pending_pod_count = c.pending;
        failed_pod_count = c.failed;
        succeeded_pod_count = c.succeeded;
        namespace_count = length s.namespaces;
        deployment_count = length s.deployments;
        stateful_set_count = length s.stateful_sets;
        daemon_set_count = length s.daemon_sets;
        job_count = length s.jobs;
        cron_job_count = length s.cron_jobs;
        custom_workload_count = length s.custom_workloads;
        hpa_count = length s.hpas;
        service_count = length s.services;
        ingress_count = length s.ingresses;
        pv_count = length s.pvs;
        pvc_count = length s.pvcs;
        container_count = c.containers;
        total_cpu_capacity = t.cpu_capacity;
        total_cpu_allocatable = t.cpu_allocatable;
        total_cpu_requested = r.cpu;
        total_cpu_usage = when t.has_cpu_usage t.cpu_usage_sum;
        total_memory_capacity = t.memory_capacity;
        total_memory_allocatable = t.memory_allocatable;
        total_memory_requested = r.memory;
        total_memory_usage = when t.has_mem_usage t.mem_usage_sum;
        total_gpu_capacity = t.gpu_capacity;
        total_gpu_requested = r.gpu;
        total_gpu_usage = average t.gpu_usage_sum t.gpu_node_count;
        total_gpu_tensor_active = average t.gpu_tensor_sum t.gpu_tensor_count;
        total_gpu_memory_util = average t.gpu_mem_util_sum t.gpu_mem_util_count;
        total_gpu_memory_used = when (ltb 0 t.gpu_node_count) t.gpu_mem_used_sum;
        total_gpu_memory_total = when (ltb 0 t.gpu_node_count) t.gpu_mem_total_sum;
        gpu_metrics_available = ltb 0 t.gpu_node_count;
        total_storage_capacity = add_capacities s.pvs 0;
        total_storage_requested = add_requested s.pvcs 0;
        metrics_available = t.has_cpu_usage;
      }
