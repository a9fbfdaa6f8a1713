-- ===== src/Snapshot/Merge.antt =====
-- internal/snapshot/builder.go: mergeNodeMetrics and mergePodMetrics, which put the usage that
-- the metrics server reports on the nodes and on the containers of the pods.
pub mod Latest
use kubeadapt_agent.Prelude.{Option, none, some, List, [], ◌∷◌, ◌++◌, String, String_eq, map}
use kubeadapt_agent.GoMap.{lookup}
use kubeadapt_agent.GoMap.Index.{index_from}
use kubeadapt_agent.Model.Node.{NodeInfo, NodeMetrics}
use kubeadapt_agent.Model.Pod.{ContainerInfo, PodInfo, ContainerMetrics, PodMetrics}
use Prim.Native.String.{◌++◌ as append}

-- fmt.Sprintf("%s/%s", namespace, name)
abbrev pub pod_key : String → String → String
pod_key namespace name = append namespace (append "/" name)

module _ {R : Type 0} where
  abbrev pub with_node_metrics : Option (NodeMetrics R) → NodeInfo R → NodeInfo R
  with_node_metrics none n = n
  with_node_metrics (some m) n = record n {
    cpu_usage_cores = some m.cpu_usage_cores;
    memory_usage_bytes = some m.memory_usage_bytes;
  }

  unfoldable pub merge_node_metrics : List (NodeInfo R) → List (NodeMetrics R) → List (NodeInfo R)
  merge_node_metrics nodes [] = nodes
  merge_node_metrics nodes (m ∷ ms) =
      let index = index_from (λ x. x.name) [] (m ∷ ms) in
      map (λ n. with_node_metrics (lookup n.name index) n) nodes

  abbrev pub with_container_metrics :
      Option (ContainerMetrics R) → ContainerInfo R → ContainerInfo R
  with_container_metrics none c = c
  with_container_metrics (some m) c = record c {
    cpu_usage_cores = some m.cpu_usage_cores;
    memory_usage_bytes = some m.memory_usage_bytes;
  }

  abbrev pub with_pod_metrics : Option (PodMetrics R) → PodInfo R → PodInfo R
  with_pod_metrics none p = p
  with_pod_metrics (some m) p =
      let index = index_from (λ x. x.name) [] m.containers in
      record p {
        containers = map (λ c. with_container_metrics (lookup c.name index) c) p.containers;
      }

  unfoldable pub merge_pod_metrics : List (PodInfo R) → List (PodMetrics R) → List (PodInfo R)
  merge_pod_metrics pods [] = pods
  merge_pod_metrics pods (m ∷ ms) =
      let index = index_from (λ x. pod_key x.namespace x.name) [] (m ∷ ms) in
      map (λ p. with_pod_metrics (lookup (pod_key p.namespace p.name) index) p) pods
