-- ===== src/Metrics.antt =====
-- internal/collector/metrics/server.go: the collector that polls metrics-server. What the API
-- answers is `none` for an error; the events of run's select come as a list.
pub mod Readings
pub mod Counts
use kubeadapt_agent.Prelude.{
  ℕ, suc, ◌+◌, Bool, true, false, Option, none, some, List, [], ◌∷◌, String, String_eq, map,
  if◌then◌else◌,
}
use kubeadapt_agent.Prelude.Int.{ℤ, add64}
use kubeadapt_agent.GoMap.{GoMap, lookup}
use kubeadapt_agent.Model.Node.{NodeMetrics}
use kubeadapt_agent.Model.Pod.{ContainerMetrics, PodMetrics}
use kubeadapt_agent.TypedStore.{TypedStore, set}
use kubeadapt_agent.Store.{MetricsStore}
use kubeadapt_agent.Snapshot.Merge.{pod_key}
use kubeadapt_agent.Convert.Api.{Quantities}
use kubeadapt_agent.Convert.Pods.{quantity_or_zero}

-- The objects of the metrics API.
pub record NodeUsage (Q : Type 0) : Type 0 where
  pub name : String
  pub usage : GoMap String Q
  pub timestamp_millis : ℤ

pub record ContainerUsage (Q : Type 0) : Type 0 where
  pub name : String
  pub usage : GoMap String Q

pub record PodUsage (Q : Type 0) : Type 0 where
  pub name : String
  pub namespace : String
  pub containers : List (ContainerUsage Q)
  pub timestamp_millis : ℤ

-- The counters, and the store that the collector writes.
pub record MetricsCollector (R : Type 0) : Type 0 where
  pub metrics_store : MetricsStore R
  pub poll_total : ℕ
  pub poll_failed : ℕ

unfoldable pub new_metrics_collector : {R : Type 0} → MetricsStore R → MetricsCollector R
new_metrics_collector s = record { metrics_store = s; poll_total = 0; poll_failed = 0 }

unfoldable pub api_call_stats : {R : Type 0} → MetricsCollector R → ℕ × ℕ
api_call_stats c = (c.poll_total, c.poll_failed)

-- For the channels stopCh and done, whether each is closed.
unfoldable pub is_healthy : Bool → Bool → Bool × String
is_healthy stopped done =
    let exited : Bool × String =
      if stopped then (true, "") else (false, "metrics polling goroutine exited unexpectedly") in
    if done then exited else (true, "")

-- A poll: what the two calls answer, and the instant that the i-th Set of each loop reads.
pub record Poll (Q : Type 0) : Type 0 where
  pub node_list : Option (List (NodeUsage Q))
  pub pod_list : Option (List (PodUsage Q))
  pub node_now : ℕ → ℕ
  pub pod_now : ℕ → ℕ

-- An event of run's select.
pub data Event (Q : Type 0) : Type 0 where
  tick : Poll Q → Event Q
  stop : Event Q
  context_done : Event Q

module _ {Q R : Type 0} (q : Quantities Q R) where
  open q use {as_approximate_float, value_of}

  unfoldable pub node_metrics_of : NodeUsage Q → NodeMetrics R
  node_metrics_of nm = record {
    name = nm.name;
    cpu_usage_cores = as_approximate_float (quantity_or_zero q (lookup "cpu" nm.usage));
    memory_usage_bytes = value_of (quantity_or_zero q (lookup "memory" nm.usage));
    timestamp = nm.timestamp_millis;
  }

  unfoldable pub container_metrics_of : ContainerUsage Q → ContainerMetrics R
  container_metrics_of cm = record {
    name = cm.name;
    cpu_usage_cores = as_approximate_float (quantity_or_zero q (lookup "cpu" cm.usage));
    memory_usage_bytes = value_of (quantity_or_zero q (lookup "memory" cm.usage));
  }

  unfoldable pub pod_metrics_of : PodUsage Q → PodMetrics R
  pod_metrics_of pm = record {
    name = pm.name;
    namespace = pm.namespace;
    containers = map container_metrics_of pm.containers;
    timestamp = pm.timestamp_millis;
  }

  -- The loops over the lists; `i` counts the calls of Set.
  unfoldable pub set_nodes :
      (ℕ → ℕ) → ℕ → List (NodeUsage Q) → TypedStore (NodeMetrics R) → TypedStore (NodeMetrics R)
  set_nodes now i [] s = s
  set_nodes now i (nm ∷ list) s =
      set_nodes now (i + 1) list (set (now i) nm.name (node_metrics_of nm) s)

  unfoldable pub set_pods :
      (ℕ → ℕ) → ℕ → List (PodUsage Q) → TypedStore (PodMetrics R) → TypedStore (PodMetrics R)
  set_pods now i [] s = s
  set_pods now i (pm ∷ list) s =
      set_pods now (i + 1) list (set (now i) (pod_key pm.namespace pm.name) (pod_metrics_of pm) s)

  -- What pollNodeMetrics does with the answer, once the call is counted.
  unfoldable pub note_node_list :
      (ℕ → ℕ) → Option (List (NodeUsage Q)) → MetricsCollector R → MetricsCollector R
  note_node_list now none c = record c { poll_failed = add64 c.poll_failed 1 }
  note_node_list now (some list) c =
      let nodes = set_nodes now 0 list c.metrics_store.node_metrics in
      record c { metrics_store = record c.metrics_store { node_metrics = nodes } }

  unfoldable pub poll_node_metrics :
      (ℕ → ℕ) → Option (List (NodeUsage Q)) → MetricsCollector R → MetricsCollector R
  poll_node_metrics now answer c =
      note_node_list now answer (record c { poll_total = add64 c.poll_total 1 })

  unfoldable pub note_pod_list :
      (ℕ → ℕ) → Option (List (PodUsage Q)) → MetricsCollector R → MetricsCollector R
  note_pod_list now none c = record c { poll_failed = add64 c.poll_failed 1 }
  note_pod_list now (some list) c =
      let pods = set_pods now 0 list c.metrics_store.pod_metrics in
      record c { metrics_store = record c.metrics_store { pod_metrics = pods } }

  unfoldable pub poll_pod_metrics :
      (ℕ → ℕ) → Option (List (PodUsage Q)) → MetricsCollector R → MetricsCollector R
  poll_pod_metrics now answer c =
      note_pod_list now answer (record c { poll_total = add64 c.poll_total 1 })

  unfoldable pub poll : Poll Q → MetricsCollector R → MetricsCollector R
  poll p c = poll_pod_metrics p.pod_now p.pod_list (poll_node_metrics p.node_now p.node_list c)

  -- The loop of run, and whether it returned.
  unfoldable pub run_loop : List (Event Q) → MetricsCollector R → MetricsCollector R × Bool
  run_loop [] c = (c, false)
  run_loop (tick p ∷ es) c = run_loop es (poll p c)
  run_loop (stop ∷ es) c = (c, true)
  run_loop (context_done ∷ es) c = (c, true)

  -- run: it polls at once.
  unfoldable pub run : Poll Q → List (Event Q) → MetricsCollector R → MetricsCollector R × Bool
  run first es c = run_loop es (poll first c)
