-- ===== src/Enrichment/Targets/Matching.antt =====
-- What a selector selects, and where that differs from the comment on labelsMatch.
use kubeadapt_agent.Prelude.{
  ◌≡◌, ◌↔◌, refl, Bool, true, false, Option, none, some, List, [], ◌∷◌, String, String_eq, arith,
  if◌then◌else◌, ◌==◌, is_empty, keep, ◌&&◌,
}
use kubeadapt_agent.GoMap.{GoMap, get_or, lookup}
use kubeadapt_agent.GoMap.Index.{get_or-group_from}
use kubeadapt_agent.Model.Condition.{WorkloadReference}
use kubeadapt_agent.Model.Autoscaling.{PdbInfo}
use kubeadapt_agent.Model.Workload.{ServiceInfo}
use kubeadapt_agent.Enrichment.Targets.{
  WorkloadEntry, labels_match, reference, match_workloads, by_namespace, target_pdb, target_service,
}

abbrev pub selects : String → GoMap String String → WorkloadEntry → Bool
selects namespace selector w = w.namespace == namespace && labels_match selector w.selector

abbrev pub references : List WorkloadEntry → List WorkloadReference
references [] = []
references (w ∷ ws) = reference w ∷ references ws

match_workloads-keep :
    (namespace : String) (selector : GoMap String String) (ws : List WorkloadEntry)
    → match_workloads selector (keep (λ w. w.namespace == namespace) ws)
      ≡ references (keep (selects namespace selector) ws)
unfolding match_workloads
match_workloads-keep namespace selector [] = refl
match_workloads-keep namespace selector (w ∷ ws) =
    ground (arith, match_workloads-keep namespace selector ws)

indexed :
    (namespace : String) (selector : GoMap String String) (ws : List WorkloadEntry)
    → match_workloads selector (get_or [] namespace (by_namespace ws))
      ≡ references (keep (selects namespace selector) ws)
indexed namespace selector ws =
    rw (get_or-group_from (λ w. w.namespace) namespace [] ws)
      (unfold get_or lookup in match_workloads-keep namespace selector ws)

-- A PDB or a Service with a selector gets references to exactly the workloads of its namespace
-- whose selector it matches, in the order of collection; one without a selector is left alone.
pub targets_lem :
    (ws : List WorkloadEntry) (pdb : PdbInfo) (svc : ServiceInfo)
    → (target_pdb (by_namespace ws) pdb ≡ (
        if is_empty pdb.match_labels then pdb else record pdb {
          target_workloads = references (keep (selects pdb.namespace pdb.match_labels) ws);
        }))
      × (target_service (by_namespace ws) svc ≡ (
          if is_empty svc.selector then svc else record svc {
            target_workloads = references (keep (selects svc.namespace svc.selector) ws);
          }))
unfolding target_pdb target_service
targets_lem ws pdb svc = (
  rw (indexed pdb.namespace pdb.match_labels ws) refl,
  rw (indexed svc.namespace svc.selector ws) refl,
)

-- Every key of the selector has its value in the target.
abbrev pub IsContained : GoMap String String → GoMap String String → Type 0
IsContained [] target = Unit
IsContained ((k, v) ∷ selector) target = (lookup k target ≡ some v) × IsContained selector target

abbrev pub HasNoEmpty : GoMap String String → Type 0
HasNoEmpty [] = Unit
HasNoEmpty ((k, v) ∷ selector) = ((v == "") ≡ false) × HasNoEmpty selector

or_empty : Option String → String
or_empty none = ""
or_empty (some x) = x

or_empty_iff :
    (o : Option String) (v : String) → (v == "") ≡ false → ((or_empty o == v) ≡ true) ↔ (o ≡ some v)
unfolding or_empty
or_empty_iff none v h = ground (arith, String_eq.equal_iff "" v, String_eq.equal_iff v "")
or_empty_iff (some x) v h = ground (arith, String_eq.equal_iff x v)

get_or-eq-or_empty :
    (k : String) (target : GoMap String String) → get_or "" k target ≡ or_empty (lookup k target)
unfolding get_or or_empty
get_or-eq-or_empty k target = ground arith

-- For a selector with no empty value, labelsMatch says whether the target contains the selector.
pub labels_match_iff :
    (selector target : GoMap String String)
    → HasNoEmpty selector
    → (labels_match selector target ≡ true) ↔ IsContained selector target
unfolding labels_match
labels_match_iff [] target h = ((λ e. tt), (λ c. refl))
labels_match_iff ((k, v) ∷ selector) target h =
    rw (get_or-eq-or_empty k target)
      (ground (arith, or_empty_iff (lookup k target) v, labels_match_iff selector target h.1))

-- A selector that asks for an empty value matches a target that does not have the key.
pub empty_value_matches :
    (k : String) (target : GoMap String String)
    → lookup k target ≡ none
    → (labels_match ((k, "") ∷ []) target ≡ true) × (lookup k target ≡ some "" → ⊥)
unfolding labels_match or_empty
empty_value_matches k target h = (rw (get_or-eq-or_empty k target, h) refl, λ e. cc)
