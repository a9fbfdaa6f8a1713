-- ===== src/Snapshot/Merge/Latest.antt =====
-- A merged node or container has the usage of the last reading with its name.
use kubeadapt_agent.Prelude.{
  ◌≡◌, refl, sym, ap, ◌∙◌, Option, none, some, List, [], ◌∷◌, String_eq, map, map_same, map_id,
}
use kubeadapt_agent.GoMap.{lookup}
use kubeadapt_agent.GoMap.Index.{find_last, lookup-index_from}
use kubeadapt_agent.Model.Node.{NodeInfo, NodeMetrics}
use kubeadapt_agent.Model.Pod.{PodInfo, PodMetrics}
use kubeadapt_agent.Snapshot.Merge.{
  with_node_metrics, merge_node_metrics, with_container_metrics, with_pod_metrics, pod_key,
  merge_pod_metrics,
}

module _ {R : Type 0} where
  -- For every list of nodes and of readings, the merged nodes are the nodes in order, each with
  -- the CPU and memory usage of the last reading of its name, and unchanged without one.
  pub merge_node_metrics_lem :
      (nodes : List (NodeInfo R)) (ms : List (NodeMetrics R))
      → merge_node_metrics nodes ms
        ≡ map (λ n. with_node_metrics (find_last (λ m. m.name) n.name none ms) n) nodes
  unfolding merge_node_metrics lookup find_last
  merge_node_metrics_lem nodes [] = sym (map_id nodes)
  merge_node_metrics_lem nodes (m ∷ ms) =
      map_same _ _
        (λ n. ap (λ o. with_node_metrics o n) (lookup-index_from (λ x. x.name) n.name [] (m ∷ ms)))
        nodes

  -- The container readings that a pod takes from the last pod reading of its key.
  abbrev pub with_last : Option (PodMetrics R) → PodInfo R → PodInfo R
  with_last none p = p
  with_last (some m) p = record p {
    containers =
        map (λ c. with_container_metrics (find_last (λ x. x.name) c.name none m.containers) c)
          p.containers;
  }

  with_last_same :
      (o : Option (PodMetrics R)) (p : PodInfo R) → with_pod_metrics o p ≡ with_last o p
  unfolding lookup
  with_last_same none p = refl
  with_last_same (some m) p =
      ap (λ cs. record p { containers = cs })
        (map_same _ _
          (λ c.
            ap (λ o. with_container_metrics o c)
              (lookup-index_from (λ x. x.name) c.name [] m.containers))
          p.containers)

  -- For every list of pods and of readings, the merged pods are the pods in order; in each, a
  -- container has the usage of the last container reading of its name within the last pod reading
  -- of the pod's namespace and name, and everything else is unchanged.
  pub merge_pod_metrics_lem :
      (pods : List (PodInfo R)) (ms : List (PodMetrics R))
      → merge_pod_metrics pods ms
        ≡ map
            (λ p.
              with_last
                (find_last (λ m. pod_key m.namespace m.name) (pod_key p.namespace p.name) none ms)
                p)
            pods
  unfolding merge_pod_metrics lookup find_last
  merge_pod_metrics_lem pods [] = sym (map_id pods)
  merge_pod_metrics_lem pods (m ∷ ms) =
      map_same _ _
        (λ p.
          ap (λ o. with_pod_metrics o p)
            (lookup-index_from (λ x. pod_key x.namespace x.name) (pod_key p.namespace p.name) []
              (m ∷ ms))
          ∙ with_last_same _ p)
        pods
