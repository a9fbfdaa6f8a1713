-- ===== src/Snapshot/Backfill.antt =====
-- internal/snapshot/builder.go: backfillReferencedNodes. A Go map with empty values is the list of
-- its keys; the log line and the orphan counter of the metrics are the list of orphans returned.
pub mod Present
use kubeadapt_agent.Prelude.{
  Bool, true, false, Option, none, some, List, [], ◌∷◌, ◌++◌, String, String_eq, if◌then◌else◌,
  ◌==◌, contains, is_empty, map,
}
use kubeadapt_agent.GoMap.{GoMap, lookup}
use kubeadapt_agent.GoMap.Index.{index_from}
use kubeadapt_agent.Model.Node.{NodeInfo}
use kubeadapt_agent.Model.Pod.{PodInfo}

-- referenced[name] = struct{}{}
abbrev pub add_name : String → List String → List String
add_name name names = if contains name names then names else name ∷ names

pub record Filled (R : Type 0) : Type 0 where
  pub nodes : List (NodeInfo R)
  pub orphans : List String

module _ {R : Type 0} where
  -- The loop over the pods, that collects the names to look for.
  unfoldable pub referenced_from : List String → List String → List (PodInfo R) → List String
  referenced_from present names [] = names
  referenced_from present names (p ∷ ps) =
      referenced_from present
        (if p.node_name == ""
          then names
          else if contains p.node_name present
          then names
          else add_name p.node_name names)
        ps

  -- if n, ok := storeIndex[name]; ok
  abbrev pub fill_one : Option (NodeInfo R) → String → Filled R → Filled R
  fill_one (some n) name f = record f { nodes = f.nodes ++ n ∷ [] }
  fill_one none name f = record f { orphans = f.orphans ++ name ∷ [] }

  -- The loop over the names.
  unfoldable pub fill : GoMap String (NodeInfo R) → List String → Filled R → Filled R
  fill index [] f = f
  fill index (name ∷ names) f = fill index names (fill_one (lookup name index) name f)

  unfoldable pub backfill_referenced_nodes :
      List (NodeInfo R) → List (PodInfo R) → List (NodeInfo R) → Filled R
  backfill_referenced_nodes store_nodes pods nodes =
      let names = referenced_from (map (λ n. n.name) nodes) [] pods in
      let filled =
        fill (index_from (λ n. n.name) [] store_nodes) names
          (record { nodes = nodes; orphans = [] }) in
      let unchanged : Filled R = record { nodes = nodes; orphans = [] } in
      if is_empty pods then unchanged else if is_empty names then unchanged else filled
