-- ===== src/Snapshot/Summary/Counts.antt =====
-- The counts and the memory totals of a summary against the snapshot.
use kubeadapt_agent.Prelude.{
  ℕ, ◌+◌, ◌%◌, ◌<◌, ◌≡◌, refl, ◌∙◌, Bool, true, false, Option, none, some, List, [], ◌∷◌, String,
  String_eq, arith, if◌then◌else◌, Bool-cases, inl, inr, ◌==◌, length, keep, any,
}
use kubeadapt_agent.Prelude.Int.{add64, uint64_mod}
use kubeadapt_agent.Model.{Float64}
use kubeadapt_agent.Model.Node.{NodeInfo}
use kubeadapt_agent.Model.Pod.{PodInfo, ContainerInfo}
use kubeadapt_agent.Model.Cluster.{ClusterSnapshot}
use kubeadapt_agent.Enrichment.Aggregation.Totals.{over_containers, over_pods}
use kubeadapt_agent.Snapshot.Summary.{
  PodCounts, no_counts, count_pods, NodeTotals, add_node, add_nodes, no_totals, Requests, count_pod,
  request_containers, request_pods, compute_summary,
}

abbrev pub phase_count : {R : Type 0} → String → List (PodInfo R) → ℕ
phase_count phase pods = length (keep (λ p. p.phase == phase) pods)

abbrev pub container_total : {R : Type 0} → List (PodInfo R) → ℕ
container_total [] = 0
container_total (p ∷ ps) = length p.containers + container_total ps

-- A text is equal to one of two different texts at most.
at_most_one : (x a b : String) → (a == b) ≡ false → (x == a) ≡ true → (x == b) ≡ false
at_most_one x a b d h = elim (Bool-cases (x == b)) [
  | inl e ↦
      ground (arith, String_eq.equal_iff x a, String_eq.equal_iff x b, String_eq.equal_iff a b)
  | inr e ↦ e
]

count_pods_lem :
    {R : Type 0} (pods : List (PodInfo R)) (c : PodCounts)
    → ((count_pods pods c).running ≡ c.running + phase_count "Running" pods)
      × ((count_pods pods c).pending ≡ c.pending + phase_count "Pending" pods)
      × ((count_pods pods c).failed ≡ c.failed + phase_count "Failed" pods)
      × ((count_pods pods c).succeeded ≡ c.succeeded + phase_count "Succeeded" pods)
      × ((count_pods pods c).containers ≡ c.containers + container_total pods)
unfolding count_pods
count_pods_lem [] c = omega arith
count_pods_lem (pod ∷ pods) c =
    let ih = count_pods_lem pods (count_pod pod c) in
    let rp = at_most_one pod.phase "Running" "Pending" refl in
    let rf = at_most_one pod.phase "Running" "Failed" refl in
    let rs = at_most_one pod.phase "Running" "Succeeded" refl in
    let pf = at_most_one pod.phase "Pending" "Failed" refl in
    let ps = at_most_one pod.phase "Pending" "Succeeded" refl in
    let fs = at_most_one pod.phase "Failed" "Succeeded" refl in
    (
      ground (arith, ih.0, rp, rf, rs, pf, ps, fs),
      ground (arith, ih.1, rp, rf, rs, pf, ps, fs),
      ground (arith, ih.2, rp, rf, rs, pf, ps, fs),
      ground (arith, ih.3, rp, rf, rs, pf, ps, fs),
      ground (arith, ih.4),
    )

-- The sum of a number over a list, with no bound.
abbrev pub total : {A : Type 0} → (A → ℕ) → List A → ℕ
total f [] = 0
total f (x ∷ xs) = f x + total f xs

abbrev pub reported : {A : Type 0} → Option A → Bool
reported none = false
reported (some a) = true

module _ {R : Type 0} (fl : Float64 R) where
  add_nodes-memory :
      (ns : List (NodeInfo R)) (t : NodeTotals R)
      → t.memory_capacity < uint64_mod
      → (add_nodes fl ns t).memory_capacity
        ≡ (t.memory_capacity + total (λ n. n.memory_capacity_bytes) ns) % uint64_mod
  unfolding add_nodes add_node add64
  add_nodes-memory [] t h = omega arith
  add_nodes-memory (n ∷ ns) t h =
      add_nodes-memory ns (add_node fl n t) (omega arith) ∙ (omega arith)

  add_nodes-cpu_flag :
      (ns : List (NodeInfo R)) (t : NodeTotals R)
      → (add_nodes fl ns t).has_cpu_usage
        ≡ (if t.has_cpu_usage then true else any (λ n. reported n.cpu_usage_cores) ns)
  unfolding add_nodes add_node
  add_nodes-cpu_flag [] t = ground arith
  add_nodes-cpu_flag (n ∷ ns) t = ground (arith, add_nodes-cpu_flag ns (add_node fl n t))

  request_containers-memory :
      (cs : List (ContainerInfo R)) (r : Requests R)
      → r.memory < uint64_mod
      → ((request_containers fl cs r).memory < uint64_mod)
        × ((request_containers fl cs r).memory
            ≡ (r.memory + over_containers (λ c. c.memory_request_bytes) cs) % uint64_mod)
  unfolding request_containers add64
  request_containers-memory [] r h = (h, omega arith)
  request_containers-memory (c ∷ cs) r h =
      let ih =
        request_containers-memory cs
          (record {
            cpu = fl.plus r.cpu c.cpu_request_cores;
            memory = add64 r.memory c.memory_request_bytes;
            gpu = add64 r.gpu c.gpu_request;
          })
          (omega arith) in
      (ih.0, ih.1 ∙ (omega arith))

  request_pods-memory :
      (pods : List (PodInfo R)) (r : Requests R)
      → r.memory < uint64_mod
      → (request_pods fl pods r).memory
        ≡ (r.memory + over_pods (λ c. c.memory_request_bytes) pods) % uint64_mod
  unfolding request_pods
  request_pods-memory [] r h = omega arith
  request_pods-memory (p ∷ ps) r h =
      let one = request_containers-memory p.containers r h in
      request_pods-memory ps (request_containers fl p.containers r) one.0 ∙ (omega (arith, one.1))

  -- Whatever the snapshot, its summary counts the running, pending, failed and succeeded pods as
  -- a filter by phase does, and it counts the containers of all pods.
  pub summary_counts :
      (s : ClusterSnapshot R)
      → ((compute_summary fl s).running_pod_count ≡ phase_count "Running" s.pods)
        × ((compute_summary fl s).pending_pod_count ≡ phase_count "Pending" s.pods)
        × ((compute_summary fl s).failed_pod_count ≡ phase_count "Failed" s.pods)
        × ((compute_summary fl s).succeeded_pod_count ≡ phase_count "Succeeded" s.pods)
        × ((compute_summary fl s).container_count ≡ container_total s.pods)
  unfolding compute_summary
  summary_counts s =
      let h = count_pods_lem s.pods no_counts in
      (
        omega (arith, h.0),
        omega (arith, h.1),
        omega (arith, h.2),
        omega (arith, h.3),
        omega (arith, h.4),
      )

  -- Whatever the snapshot, the memory capacity of its summary is the sum over the nodes and the
  -- requested memory is the sum over the containers of all pods, both as 64-bit patterns; the
  -- metrics are called available exactly when some node reports a CPU usage, and then and only
  -- then the summary has a total CPU usage.
  pub summary_totals :
      (s : ClusterSnapshot R)
      → ((compute_summary fl s).total_memory_capacity
          ≡ total (λ n. n.memory_capacity_bytes) s.nodes % uint64_mod)
        × ((compute_summary fl s).total_memory_requested
            ≡ over_pods (λ c. c.memory_request_bytes) s.pods % uint64_mod)
        × ((compute_summary fl s).metrics_available ≡ any (λ n. reported n.cpu_usage_cores) s.nodes)
        × ((compute_summary fl s).metrics_available
            ≡ reported (compute_summary fl s).total_cpu_usage)
  unfolding compute_summary
  summary_totals s =
      let r : Requests R = record { cpu = fl.zero_float; memory = 0; gpu = 0 } in
      (
        omega (arith, add_nodes-memory s.nodes (no_totals fl) (omega arith)),
        omega (arith, request_pods-memory s.pods r (omega arith)),
        add_nodes-cpu_flag s.nodes (no_totals fl),
        ground arith,
      )
