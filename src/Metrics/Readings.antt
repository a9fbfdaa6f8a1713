-- ===== src/Metrics/Readings.antt =====
-- What the store of the metrics collector holds, and what it counts, after any polls.
use mathlib.Core.List.{map-append}
use kubeadapt_agent.Prelude.{
  ℕ, ◌+◌, ◌≡◌, refl, sym, ap, ◌∙◌, Option, none, some, List, [], ◌∷◌, ◌++◌, String, String_eq, map,
  Comparable, ◌==◌, if◌then◌else◌,
}
use kubeadapt_agent.GoMap.{lookup-insert}
use kubeadapt_agent.GoMap.Index.{find_last}
use kubeadapt_agent.Model.Node.{NodeMetrics}
use kubeadapt_agent.Model.Pod.{PodMetrics}
use kubeadapt_agent.TypedStore.{TypedStore, set, get}
use kubeadapt_agent.Snapshot.Merge.{pod_key}
use kubeadapt_agent.Convert.Api.{Quantities}
use kubeadapt_agent.Metrics.{
  NodeUsage, PodUsage, MetricsCollector, Poll, Event, tick, stop, context_done, node_metrics_of,
  pod_metrics_of, set_nodes, set_pods, note_node_list, poll_node_metrics, note_pod_list,
  poll_pod_metrics, poll, run_loop, run,
}

module _ {ℓ κ} {K : Type ℓ} {A : Type κ} ⦃e : Comparable K⦄ where
  find_last-append :
      (key : A → K) (k : K) (found : Option A) (xs ys : List A)
      → find_last key k found (xs ++ ys) ≡ find_last key k (find_last key k found xs) ys
  unfolding find_last
  find_last-append key k found [] ys = refl
  find_last-append key k found (x ∷ xs) ys =
      find_last-append key k (if key x == k then some x else found) xs ys

abbrev pub listed {ℓ} : {A : Type ℓ} → Option (List A) → List A
listed none = []
listed (some list) = list

abbrev pub concat {ℓ} : {A : Type ℓ} → List (Option (List A)) → List A
concat [] = []
concat (answer ∷ answers) = listed answer ++ concat answers

-- The polls before the first event that ends the loop.
abbrev pub polls : {Q : Type 0} → List (Event Q) → List (Poll Q)
polls [] = []
polls (tick p ∷ es) = p ∷ polls es
polls (stop ∷ es) = []
polls (context_done ∷ es) = []

module _ {Q R : Type 0} (q : Quantities Q R) where
  -- What the calls that succeeded listed, in order.
  abbrev pub node_readings : List (Poll Q) → List (NodeMetrics R)
  node_readings ps = map (node_metrics_of q) (concat (map (λ p. p.node_list) ps))

  abbrev pub pod_readings : List (Poll Q) → List (PodMetrics R)
  pod_readings ps = map (pod_metrics_of q) (concat (map (λ p. p.pod_list) ps))

  abbrev node_name : NodeMetrics R → String
  node_name m = m.name

  abbrev pod_name : PodMetrics R → String
  pod_name m = pod_key m.namespace m.name

  get-set_nodes :
      (now : ℕ → ℕ) (i : ℕ) (list : List (NodeUsage Q)) (s : TypedStore (NodeMetrics R))
      (j : String)
      → get j (set_nodes q now i list s)
        ≡ find_last node_name j (get j s) (map (node_metrics_of q) list)
  unfolding set_nodes find_last
  get-set_nodes now i [] s j = refl
  get-set_nodes now i (nm ∷ list) s j =
      get-set_nodes now (i + 1) list (set (now i) nm.name (node_metrics_of q nm) s) j
      ∙ ap (λ found. find_last node_name j found (map (node_metrics_of q) list))
          (unfold get in
            unfold set in
            unfold node_metrics_of in lookup-insert nm.name j (node_metrics_of q nm) s.items)

  get-set_pods :
      (now : ℕ → ℕ) (i : ℕ) (list : List (PodUsage Q)) (s : TypedStore (PodMetrics R)) (j : String)
      → get j (set_pods q now i list s)
        ≡ find_last pod_name j (get j s) (map (pod_metrics_of q) list)
  unfolding set_pods find_last
  get-set_pods now i [] s j = refl
  get-set_pods now i (pm ∷ list) s j =
      get-set_pods now (i + 1) list
        (set (now i) (pod_key pm.namespace pm.name) (pod_metrics_of q pm) s) j
      ∙ ap (λ found. find_last pod_name j found (map (pod_metrics_of q) list))
          (unfold get in
            unfold set in
            unfold pod_metrics_of in
            lookup-insert (pod_key pm.namespace pm.name) j (pod_metrics_of q pm) s.items)

  abbrev pub nodes_of : MetricsCollector R → TypedStore (NodeMetrics R)
  nodes_of c = c.metrics_store.node_metrics

  abbrev pub pods_of : MetricsCollector R → TypedStore (PodMetrics R)
  pods_of c = c.metrics_store.pod_metrics

  get-poll_nodes :
      (p : Poll Q) (c : MetricsCollector R) (j : String)
      → get j (nodes_of (poll q p c))
        ≡ find_last node_name j (get j (nodes_of c)) (map (node_metrics_of q) (listed p.node_list))
  unfolding poll
  get-poll_nodes p c j =
      kept p.pod_list (poll_node_metrics q p.node_now p.node_list c) ∙ noted p.node_list
    where
      kept :
          (answer : Option (List (PodUsage Q))) (d : MetricsCollector R)
          → get j (nodes_of (poll_pod_metrics q p.pod_now answer d)) ≡ get j (nodes_of d)
      kept none d = unfold poll_pod_metrics in unfold note_pod_list in refl
      kept (some list) d = unfold poll_pod_metrics in unfold note_pod_list in refl

      noted :
          (answer : Option (List (NodeUsage Q)))
          → get j (nodes_of (poll_node_metrics q p.node_now answer c))
            ≡ find_last node_name j (get j (nodes_of c)) (map (node_metrics_of q) (listed answer))
      noted none = unfold poll_node_metrics in unfold note_node_list in unfold find_last in refl
      noted (some list) =
          unfold poll_node_metrics in
          unfold note_node_list in get-set_nodes p.node_now 0 list c.metrics_store.node_metrics j

  get-poll_pods :
      (p : Poll Q) (c : MetricsCollector R) (j : String)
      → get j (pods_of (poll q p c))
        ≡ find_last pod_name j (get j (pods_of c)) (map (pod_metrics_of q) (listed p.pod_list))
  unfolding poll
  get-poll_pods p c j =
      noted p.pod_list (poll_node_metrics q p.node_now p.node_list c)
      ∙ ap (λ found. find_last pod_name j found (map (pod_metrics_of q) (listed p.pod_list)))
          (kept p.node_list)
    where
      kept :
          (answer : Option (List (NodeUsage Q)))
          → get j (pods_of (poll_node_metrics q p.node_now answer c)) ≡ get j (pods_of c)
      kept none = unfold poll_node_metrics in unfold note_node_list in refl
      kept (some list) = unfold poll_node_metrics in unfold note_node_list in refl

      noted :
          (answer : Option (List (PodUsage Q))) (d : MetricsCollector R)
          → get j (pods_of (poll_pod_metrics q p.pod_now answer d))
            ≡ find_last pod_name j (get j (pods_of d)) (map (pod_metrics_of q) (listed answer))
      noted none d = unfold poll_pod_metrics in unfold note_pod_list in unfold find_last in refl
      noted (some list) d =
          unfold poll_pod_metrics in
          unfold note_pod_list in get-set_pods p.pod_now 0 list d.metrics_store.pod_metrics j

  get-run_loop_nodes :
      (es : List (Event Q)) (c : MetricsCollector R) (j : String)
      → get j (nodes_of (run_loop q es c).0)
        ≡ find_last node_name j (get j (nodes_of c)) (node_readings (polls es))
  unfolding run_loop
  get-run_loop_nodes [] c j = unfold find_last in refl
  get-run_loop_nodes (stop ∷ es) c j = unfold find_last in refl
  get-run_loop_nodes (context_done ∷ es) c j = unfold find_last in refl
  get-run_loop_nodes (tick p ∷ es) c j =
      get-run_loop_nodes es (poll q p c) j
      ∙ ap (λ found. find_last node_name j found (node_readings (polls es))) (get-poll_nodes p c j)
      ∙ sym (
          rw
            (map-append (node_metrics_of q) (listed p.node_list)
              (concat (map (λ p. p.node_list) (polls es))))
            (find_last-append node_name j (get j (nodes_of c))
              (map (node_metrics_of q) (listed p.node_list)) (node_readings (polls es))))

  get-run_loop_pods :
      (es : List (Event Q)) (c : MetricsCollector R) (j : String)
      → get j (pods_of (run_loop q es c).0)
        ≡ find_last pod_name j (get j (pods_of c)) (pod_readings (polls es))
  unfolding run_loop
  get-run_loop_pods [] c j = unfold find_last in refl
  get-run_loop_pods (stop ∷ es) c j = unfold find_last in refl
  get-run_loop_pods (context_done ∷ es) c j = unfold find_last in refl
  get-run_loop_pods (tick p ∷ es) c j =
      get-run_loop_pods es (poll q p c) j
      ∙ ap (λ found. find_last pod_name j found (pod_readings (polls es))) (get-poll_pods p c j)
      ∙ sym (
          rw
            (map-append (pod_metrics_of q) (listed p.pod_list)
              (concat (map (λ p. p.pod_list) (polls es))))
            (find_last-append pod_name j (get j (pods_of c))
              (map (pod_metrics_of q) (listed p.pod_list)) (pod_readings (polls es))))

  -- However long the collector runs, the store answers for a node, and for a pod by namespace and
  -- name, with the last reading that a call which succeeded listed for it, and with what it held
  -- at the start if there is none. A call that fails takes nothing away and does not keep the
  -- other call of its poll from counting; polls after the collector is stopped, or its context is
  -- done, do not count.
  pub get-run :
      (first : Poll Q) (es : List (Event Q)) (c : MetricsCollector R) (j : String)
      → (get j (run q first es c).0.metrics_store.node_metrics
          ≡ find_last
              (λ m. m.name)
              j
              (get j c.metrics_store.node_metrics)
              (node_readings (first ∷ polls es)))
        × (get j (run q first es c).0.metrics_store.pod_metrics
            ≡ find_last
                (λ m. pod_key m.namespace m.name)
                j
                (get j c.metrics_store.pod_metrics)
                (pod_readings (first ∷ polls es)))
  unfolding run
  get-run first es c j = (
    unfold run_loop in get-run_loop_nodes (tick first ∷ es) c j,
    unfold run_loop in get-run_loop_pods (tick first ∷ es) c j,
  )
