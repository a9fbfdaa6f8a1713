-- ===== src/Enrichment/Targets.antt =====
-- internal/enrichment/targets.go: the workloads that a PDB or a Service selects.
pub mod Matching
use kubeadapt_agent.Prelude.{
  ℕ, ◌≡◌, Bool, true, false, Option, none, some, List, [], ◌∷◌, ◌++◌, String, String_eq, map,
  if◌then◌else◌, ◌==◌, is_empty,
}
use kubeadapt_agent.GoMap.{GoMap, get_or}
use kubeadapt_agent.GoMap.Index.{group_from}
use kubeadapt_agent.Model.Condition.{WorkloadReference}
use kubeadapt_agent.Model.Autoscaling.{PdbInfo}
use kubeadapt_agent.Model.Workload.{WorkloadInfo, ServiceInfo}
use kubeadapt_agent.Model.Cluster.{ClusterSnapshot}

pub record WorkloadEntry : Type 0 where
  pub kind : String
  pub name : String
  pub namespace : String
  pub selector : GoMap String String

-- One of the three loops of collectWorkloads.
unfoldable pub collect_from : {R : Type 0} → String → List (WorkloadInfo R) → List WorkloadEntry
collect_from kind [] = []
collect_from kind (d ∷ ds) =
    let rest = collect_from kind ds in
    if is_empty d.selector
    then rest
    else (record { kind = kind; name = d.name; namespace = d.namespace; selector = d.selector })
      ∷ rest

unfoldable pub collect_workloads : {R : Type 0} → ClusterSnapshot R → List WorkloadEntry
collect_workloads s =
    collect_from "Deployment" s.deployments
    ++ (collect_from "StatefulSet" s.stateful_sets ++ collect_from "DaemonSet" s.daemon_sets)

-- A missing key of `target` reads as the empty string.
unfoldable pub labels_match : GoMap String String → GoMap String String → Bool
labels_match [] target = true
labels_match ((k, v) ∷ selector) target =
    let rest = labels_match selector target in if get_or "" k target == v then rest else false

abbrev pub reference : WorkloadEntry → WorkloadReference
reference w = record { kind = w.kind; name = w.name; namespace = w.namespace }

unfoldable pub match_workloads : GoMap String String → List WorkloadEntry → List WorkloadReference
match_workloads selector [] = []
match_workloads selector (w ∷ ws) =
    let rest = match_workloads selector ws in
    if labels_match selector w.selector then reference w ∷ rest else rest

abbrev pub by_namespace : List WorkloadEntry → GoMap String (List WorkloadEntry)
by_namespace = group_from (λ w. w.namespace) []

unfoldable pub target_pdb : GoMap String (List WorkloadEntry) → PdbInfo → PdbInfo
target_pdb index pdb = if is_empty pdb.match_labels then pdb else record pdb {
  target_workloads = match_workloads pdb.match_labels (get_or [] pdb.namespace index);
}

unfoldable pub target_service : GoMap String (List WorkloadEntry) → ServiceInfo → ServiceInfo
target_service index svc = if is_empty svc.selector then svc else record svc {
  target_workloads = match_workloads svc.selector (get_or [] svc.namespace index);
}

unfoldable pub enrich_targets : {R : Type 0} → ClusterSnapshot R → ClusterSnapshot R
enrich_targets s =
    let index = by_namespace (collect_workloads s) in
    record s {
      pdbs = map (target_pdb index) s.pdbs;
      services = map (target_service index) s.services;
    }
