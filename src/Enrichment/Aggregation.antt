-- ===== src/Enrichment/Aggregation.antt =====
-- internal/enrichment/aggregation.go: the resources of the pods of each workload, summed.

pub mod Totals
use kubeadapt_agent.Prelude.{
  ℕ, ◌≡◌, ◌↔◌, Bool, true, false, not, ◌&&◌, ◌||◌, Option, none, some, List, [], ◌∷◌, ◌++◌, String,
  String_eq, map, arith, Comparable, if◌then◌else◌, ◌==◌, nat_eq, is_empty,
}
use kubeadapt_agent.Prelude.Int.{add64}
use kubeadapt_agent.GoMap.{GoMap, get_or, insert}
use kubeadapt_agent.Model.{Float64}
use kubeadapt_agent.Model.Pod.{PodInfo, ContainerInfo}
use kubeadapt_agent.Model.Workload.{WorkloadInfo, JobInfo, ContainerSpecInfo}
use kubeadapt_agent.Model.Cluster.{ClusterSnapshot}

pub record WorkloadKey : Type 0 where
  pub namespace : String
  pub kind : String
  pub name : String

abbrev pub key_beq : WorkloadKey → WorkloadKey → Bool
key_beq a b = a.namespace == b.namespace && a.kind == b.kind && a.name == b.name

pub key_beq_iff : (a b : WorkloadKey) → (key_beq a b ≡ true) ↔ (a ≡ b)
key_beq_iff a b = ground (
  arith,
  String_eq.equal_iff a.namespace b.namespace,
  String_eq.equal_iff a.kind b.kind,
  String_eq.equal_iff a.name b.name,
)

instance abbrev pub WorkloadKey_eq : Comparable WorkloadKey
WorkloadKey_eq = record { equal = key_beq; equal_iff = key_beq_iff }

abbrev pub is_batch_owner_kind : String → Bool
is_batch_owner_kind kind = kind == "Job" || kind == "CronJob"

-- The two `continue`s of the loop over the pods.
unfoldable pub is_skipped : {R : Type 0} → PodInfo R → Bool
is_skipped pod =
    if pod.owner_kind == ""
    then true
    else not (is_batch_owner_kind pod.owner_kind)
      && (pod.phase == "Succeeded" || pod.phase == "Failed")

abbrev pub workload_key : {R : Type 0} → PodInfo R → WorkloadKey
workload_key pod = record {
  namespace = pod.namespace;
  kind = pod.owner_kind;
  name = pod.owner_name;
}

unfoldable pub pods_by_workload :
    {R : Type 0}
    → GoMap WorkloadKey (List (PodInfo R))
    → List (PodInfo R)
    → GoMap WorkloadKey (List (PodInfo R))
pods_by_workload m [] = m
pods_by_workload m (pod ∷ pods) =
    let key = workload_key pod in
    pods_by_workload (if is_skipped pod then m else insert key (get_or [] key m ++ pod ∷ []) m) pods

-- The variables of sumPodResources.
pub record Sums (R : Type 0) : Type 0 where
  pub cpu_req : R
  pub mem_req : ℕ
  pub cpu_lim : R
  pub mem_lim : ℕ
  pub cpu_use_total : R
  pub mem_use_total : ℕ
  pub has_usage : Bool

module _ {R : Type 0} (fl : Float64 R) where
  open fl use {zero_float, plus, is_zero}

  abbrev pub no_sums : Sums R
  no_sums = record {
    cpu_req = zero_float;
    mem_req = 0;
    cpu_lim = zero_float;
    mem_lim = 0;
    cpu_use_total = zero_float;
    mem_use_total = 0;
    has_usage = false;
  }

  add_cpu_usage : Option R → Sums R → Sums R
  add_cpu_usage none s = s
  add_cpu_usage (some u) s = record s { cpu_use_total = plus s.cpu_use_total u; has_usage = true }

  add_mem_usage : Option ℕ → Sums R → Sums R
  add_mem_usage none s = s
  add_mem_usage (some u) s = record s { mem_use_total = add64 s.mem_use_total u; has_usage = true }

  unfoldable pub add_container : ContainerInfo R → Sums R → Sums R
  unfolding add_cpu_usage add_mem_usage
  add_container c s = add_mem_usage c.memory_usage_bytes (
      add_cpu_usage c.cpu_usage_cores (record s {
        cpu_req = plus s.cpu_req c.cpu_request_cores;
        mem_req = add64 s.mem_req c.memory_request_bytes;
        cpu_lim = plus s.cpu_lim c.cpu_limit_cores;
        mem_lim = add64 s.mem_lim c.memory_limit_bytes;
      }))

  unfoldable pub sum_containers : List (ContainerInfo R) → Sums R → Sums R
  sum_containers [] s = s
  sum_containers (c ∷ cs) s = sum_containers cs (add_container c s)

  unfoldable pub sum_pods : List (PodInfo R) → Sums R → Sums R
  sum_pods [] s = s
  sum_pods (pod ∷ pods) s = sum_pods pods (sum_containers pod.containers s)

  unfoldable pub sum_pod_resources : List (PodInfo R) → Sums R
  sum_pod_resources pods = sum_pods pods no_sums

  -- The usage pointers are set only if a container has metrics.
  abbrev pub usage_of : {A : Type 0} → Sums R → A → Option A
  usage_of s a = if s.has_usage then some a else none

  unfoldable pub sum_container_spec_requests : R → ℕ → List (ContainerSpecInfo R) → R × ℕ
  sum_container_spec_requests cpu mem [] = (cpu, mem)
  sum_container_spec_requests cpu mem (c ∷ cs) =
      sum_container_spec_requests (plus cpu c.cpu_request_cores) (add64 mem c.memory_request_bytes)
        cs

  -- The body of the loops over Deployments, StatefulSets and DaemonSets, which differ in `kind`.
  unfoldable pub aggregate_workload :
      GoMap WorkloadKey (List (PodInfo R)) → String → WorkloadInfo R → WorkloadInfo R
  aggregate_workload by_workload kind d =
      let key : WorkloadKey = record { namespace = d.namespace; kind = kind; name = d.name } in
      let s = sum_pod_resources (get_or [] key by_workload) in
      record d {
        total_cpu_request = s.cpu_req;
        total_memory_request = s.mem_req;
        total_cpu_limit = s.cpu_lim;
        total_memory_limit = s.mem_lim;
        total_cpu_usage = usage_of s s.cpu_use_total;
        total_memory_usage = usage_of s s.mem_use_total;
      }

  -- The loop over Jobs, with its fall back on the template.
  unfoldable pub aggregate_job : GoMap WorkloadKey (List (PodInfo R)) → JobInfo R → JobInfo R
  aggregate_job by_workload j =
      let key : WorkloadKey = record { namespace = j.namespace; kind = "Job"; name = j.name } in
      let s = sum_pod_resources (get_or [] key by_workload) in
      let request : R × ℕ =
        if is_zero s.cpu_req && nat_eq s.mem_req 0 && not (is_empty j.container_specs)
        then sum_container_spec_requests zero_float 0 j.container_specs
        else (s.cpu_req, s.mem_req) in
      record j {
        total_cpu_request = request.0;
        total_memory_request = request.1;
        total_cpu_usage = usage_of s s.cpu_use_total;
        total_memory_usage = usage_of s s.mem_use_total;
      }

  unfoldable pub enrich_aggregation : ClusterSnapshot R → ClusterSnapshot R
  enrich_aggregation s =
      let by_workload = pods_by_workload [] s.pods in
      record s {
        deployments = map (aggregate_workload by_workload "Deployment") s.deployments;
        stateful_sets = map (aggregate_workload by_workload "StatefulSet") s.stateful_sets;
        daemon_sets = map (aggregate_workload by_workload "DaemonSet") s.daemon_sets;
        jobs = map (aggregate_job by_workload) s.jobs;
      }
