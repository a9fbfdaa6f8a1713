-- ===== src/Enrichment/Aggregation/Totals.antt =====
-- The totals of a workload are the sums over the pods that it owns, found by a direct search.
use native.Mathlib.Nat.{zero-add}
use mathlib.Core.List.{append_assoc, append-nil}
use kubeadapt_agent.Prelude.{
  ℕ, ◌+◌, ◌%◌, ◌<◌, ◌≡◌, refl, ap, ◌∙◌, Bool, true, false, not, ◌&&◌, ◌||◌, none, some, List, [],
  ◌∷◌, ◌++◌, String, inl, inr, String_eq, arith, if◌then◌else◌, ◌==◌, keep, any, Bool-cases,
}
use kubeadapt_agent.Prelude.Int.{add64, uint64_mod}
use kubeadapt_agent.GoMap.{GoMap, get_or, insert}
use kubeadapt_agent.GoMap.Index.{get_or-insert}
use kubeadapt_agent.Model.{Float64}
use kubeadapt_agent.Model.Pod.{PodInfo, ContainerInfo}
use kubeadapt_agent.Model.Workload.{WorkloadInfo}
use kubeadapt_agent.Enrichment.Aggregation.{
  WorkloadKey, WorkloadKey_eq, is_skipped, workload_key, pods_by_workload, Sums, add_container,
  sum_containers, sum_pods, sum_pod_resources, no_sums, aggregate_workload,
}

-- The pods that the loop of Enrich files under a key.
abbrev filed : {R : Type 0} → WorkloadKey → PodInfo R → Bool
filed k pod = if is_skipped pod then false else workload_key pod == k

abbrev pub is_finished : {R : Type 0} → PodInfo R → Bool
is_finished pod = pod.phase == "Succeeded" || pod.phase == "Failed"

-- A pod lies in the workload's namespace and names it as its owner, by a kind and a name, and,
-- unless the kind is Job or CronJob, has not finished.
abbrev pub owns : {R : Type 0} → WorkloadKey → PodInfo R → Bool
owns k pod =
    workload_key pod == k
    && not (k.kind == "")
    && (k.kind == "Job" || k.kind == "CronJob" || not (is_finished pod))

filed-owns : {R : Type 0} (k : WorkloadKey) (pod : PodInfo R) → filed k pod ≡ owns k pod
unfolding is_skipped
filed-owns k pod = elim (Bool-cases (workload_key pod == k)) [
  | inl p ↦
      let e : pod.owner_kind ≡ k.kind = ap (λ x. x.kind) ((WorkloadKey_eq.equal_iff _ k).0 p) in
      rw (p, e) (ground arith)
  | inr p ↦ rw p (ground arith)
]

keep_same :
    {A : Type 0} (p q : A → Bool) → ((a : A) → p a ≡ q a) → (xs : List A) → keep p xs ≡ keep q xs
keep_same p q h [] = refl
keep_same p q h (x ∷ xs) = rw (h x, keep_same p q h xs) refl

get_or-pods_by_workload :
    {R : Type 0} (k : WorkloadKey) (m : GoMap WorkloadKey (List (PodInfo R)))
    (pods : List (PodInfo R))
    → get_or [] k (pods_by_workload m pods) ≡ get_or [] k m ++ keep (filed k) pods
unfolding pods_by_workload
get_or-pods_by_workload k m [] = rw append-nil
get_or-pods_by_workload k m (pod ∷ pods) = elim (Bool-cases (is_skipped pod)) [
  | inl p ↦ rw (p) (get_or-pods_by_workload k m pods)
  | inr p ↦
      let key = workload_key pod in
      let v = get_or [] key m ++ pod ∷ [] in
      rw p (
        get_or-pods_by_workload k (insert key v m) pods ∙ elim (Bool-cases (key == k)) [
          | inl q ↦
              rw (get_or-insert key k v m, q)
                (rw ((WorkloadKey_eq.equal_iff key k).0 q, append_assoc) refl)
          | inr q ↦ rw (get_or-insert key k v m, q) refl
        ])
]

-- The sum of a number over all containers of some pods, with no bound.
abbrev pub over_containers : {R : Type 0} → (ContainerInfo R → ℕ) → List (ContainerInfo R) → ℕ
over_containers f [] = 0
over_containers f (c ∷ cs) = f c + over_containers f cs

abbrev pub over_pods : {R : Type 0} → (ContainerInfo R → ℕ) → List (PodInfo R) → ℕ
over_pods f [] = 0
over_pods f (p ∷ ps) = over_containers f p.containers + over_pods f ps

abbrev pub has_metrics : {R : Type 0} → ContainerInfo R → Bool
has_metrics c = elim c.cpu_usage_cores [
  | some u ↦ true
  | none ↦ elim c.memory_usage_bytes [ some u ↦ true | none ↦ false ]
]

abbrev pub any_metrics : {R : Type 0} → List (PodInfo R) → Bool
any_metrics = any (λ p. any has_metrics p.containers)

abbrev pub usage_bytes : {R : Type 0} → ContainerInfo R → ℕ
usage_bytes c = elim c.memory_usage_bytes [ some u ↦ u | none ↦ 0 ]

-- The four sums that the model computes on numbers.
abbrev InRange : {R : Type 0} → Sums R → Type 0
InRange s = (s.mem_req < uint64_mod) × (s.mem_lim < uint64_mod) × (s.mem_use_total < uint64_mod)

abbrev Adds : {R : Type 0} → Sums R → Sums R → ℕ → ℕ → ℕ → Bool → Type 0
Adds s t req lim used metrics =
    (t.mem_req ≡ (s.mem_req + req) % uint64_mod)
    × (t.mem_lim ≡ (s.mem_lim + lim) % uint64_mod)
    × (t.mem_use_total ≡ (s.mem_use_total + used) % uint64_mod)
    × (t.has_usage ≡ (if s.has_usage then true else metrics))

module _ {R : Type 0} (fl : Float64 R) where
  add_container_lem :
      (c : ContainerInfo R) (s : Sums R)
      → InRange s
      → Adds s
          (add_container fl c s)
          c.memory_request_bytes
          c.memory_limit_bytes
          (usage_bytes c)
          (has_metrics c)
  unfolding add_container add64
  add_container_lem c s h = ground arith

  sum_containers_lem :
      (cs : List (ContainerInfo R)) (s : Sums R)
      → InRange s
      → Adds s
          (sum_containers fl cs s)
          (over_containers (λ c. c.memory_request_bytes) cs)
          (over_containers (λ c. c.memory_limit_bytes) cs)
          (over_containers usage_bytes cs)
          (any has_metrics cs)
  unfolding sum_containers
  sum_containers_lem [] s h = (omega arith, omega arith, omega arith, ground arith)
  sum_containers_lem (c ∷ cs) s h =
      let a = add_container_lem c s h in
      let b = sum_containers_lem cs (add_container fl c s) (omega arith) in
      (omega arith, omega arith, omega arith, b.3 ∙ ground (arith, a.3))

  sum_pods_lem :
      (ps : List (PodInfo R)) (s : Sums R)
      → InRange s
      → Adds s
          (sum_pods fl ps s)
          (over_pods (λ c. c.memory_request_bytes) ps)
          (over_pods (λ c. c.memory_limit_bytes) ps)
          (over_pods usage_bytes ps)
          (any_metrics ps)
  unfolding sum_pods
  sum_pods_lem [] s h = (omega arith, omega arith, omega arith, ground arith)
  sum_pods_lem (p ∷ ps) s h =
      let a = sum_containers_lem p.containers s h in
      let b = sum_pods_lem ps (sum_containers fl p.containers s) (omega arith) in
      (omega arith, omega arith, omega arith, b.3 ∙ ground (arith, a.3))

  -- The memory totals of a workload are the sums, modulo 2 ^ 64, over the containers of the pods
  -- that it owns (finished pods left out, but for a Job); its memory usage is set exactly if one
  -- of these containers has metrics; its name, namespace and selector stay.
  pub aggregate_workload_lem :
      (pods : List (PodInfo R)) (kind : String) (d : WorkloadInfo R)
      → let key : WorkloadKey = record { namespace = d.namespace; kind = kind; name = d.name } in
        let owned = keep (owns key) pods in
        let d' = aggregate_workload fl (pods_by_workload [] pods) kind d in
        (d'.total_memory_request ≡ over_pods (λ c. c.memory_request_bytes) owned % uint64_mod)
        × (d'.total_memory_limit ≡ over_pods (λ c. c.memory_limit_bytes) owned % uint64_mod)
        × (d'.total_memory_usage
            ≡ (if any_metrics owned then some (over_pods usage_bytes owned % uint64_mod) else none))
        × (d'.name ≡ d.name)
        × (d'.namespace ≡ d.namespace)
        × (d'.selector ≡ d.selector)
  unfolding aggregate_workload sum_pod_resources get_or
  aggregate_workload_lem pods kind d =
      let key : WorkloadKey = record { namespace = d.namespace; kind = kind; name = d.name } in
      let owned = keep (owns key) pods in
      let a = sum_pods_lem owned (no_sums fl) (omega arith) in
      rw
        (
          get_or-pods_by_workload key [] pods,
          keep_same (filed key) (owns key) (filed-owns key) pods,
        )
        (rw zero-add at a.0, rw zero-add at a.1, ground (arith, a.2, a.3), refl, refl, refl)
