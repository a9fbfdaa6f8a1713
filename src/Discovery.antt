-- ===== src/Discovery.antt =====
-- internal/discovery: capabilities.go, provider.go and rbac.go. What the API of the cluster answers
-- comes as values, `none` for an error.
pub mod Exporter
pub mod Access
use kubeadapt_agent.Prelude.{
  ℕ, Bool, true, false, ◌&&◌, Option, none, some, List, [], ◌∷◌, ◌++◌, String, String_eq,
  bytes_comparable, if◌then◌else◌, ◌==◌, ltb, is_empty,
}
use kubeadapt_agent.Prelude.Int.{int64_half}
use kubeadapt_agent.GoMap.{GoMap, lookup, insert, get_or}
use kubeadapt_agent.Transport.Message.{Text, text, has_prefix}
use kubeadapt_agent.Convert.Api.{Quantities}
use kubeadapt_agent.Convert.Cloud.{Labels}
use kubeadapt_agent.Convert.Nodes.{Node, is_mig}

pub record Capabilities : Type 0 where
  pub metrics_server : Bool
  pub vpa : Bool
  pub karpenter : Bool
  pub provider : String
  pub dcgm_exporter : Bool
  pub dcgm_exporter_endpoints : List String

-- What the cluster answers to Detect: the names of the API groups, the list of one node, the list
-- of all nodes, and the addresses of the pods that a label selector selects.
pub record Cluster (Q : Type 0) : Type 0 where
  pub groups : Option (List String)
  pub one_node : Option (List (Node Q))
  pub all_nodes : Option (List (Node Q))
  pub pod_ips : String → Option (List String)

unfoldable pub provider_from_id : Text → String
provider_from_id id =
    if has_prefix (text "aws://") id
    then "aws"
    else if has_prefix (text "gce://") id
    then "gcp"
    else if has_prefix (text "azure://") id
    then "azure"
    else ""

-- if _, ok := labels[label]; ok
abbrev pub if_label : Option Text → String → String → String
if_label none found rest = rest
if_label (some v) found rest = found

unfoldable pub provider_from_labels : Labels → String
provider_from_labels labels = if_label (lookup (text "eks.amazonaws.com/nodegroup") labels) "aws" (
    if_label (lookup (text "eks.amazonaws.com/capacityType") labels) "aws" (
      if_label (lookup (text "cloud.google.com/gke-nodepool") labels) "gcp"
        (if_label (lookup (text "kubernetes.azure.com/agentpool") labels) "azure" "")))

unfoldable pub detect_provider : {Q : Type 0} → List (Node Q) → String
detect_provider [] = "unknown"
detect_provider (node ∷ nodes) =
    let by_id = provider_from_id node.provider_id in
    let by_labels = provider_from_labels node.labels in
    if by_id == "" then if by_labels == "" then "unknown" else by_labels else by_id

-- The loop that fills groupSet.
unfoldable pub group_set : GoMap String Bool → List String → GoMap String Bool
group_set set [] = set
group_set set (g ∷ groups) = group_set (insert g true set) groups

abbrev pub provider_of_nodes : {Q : Type 0} → Option (List (Node Q)) → String
provider_of_nodes none = "unknown"
provider_of_nodes (some []) = "unknown"
provider_of_nodes (some (node ∷ nodes)) = detect_provider (node ∷ [])

-- The loop over the addresses of the pods.
unfoldable pub endpoints_loop : List String → List String → List String
endpoints_loop endpoints [] = endpoints
endpoints_loop endpoints (ip ∷ ips) =
    endpoints_loop (if ip == "" then endpoints else endpoints ++ ip ∷ []) ips

abbrev pub endpoints_of : Option (List String) → List String
endpoints_of none = []
endpoints_of (some ips) = endpoints_loop [] ips

-- The loop over the selectors.
unfoldable pub selectors_loop : (String → Option (List String)) → List String → Bool × List String
selectors_loop pod_ips [] = (false, [])
selectors_loop pod_ips (sel ∷ selectors) =
    let rest = selectors_loop pod_ips selectors in
    let endpoints = endpoints_of (pod_ips sel) in
    if is_empty endpoints then rest else (true, endpoints)

abbrev pub dcgm_selectors : List String
dcgm_selectors = "app=nvidia-dcgm-exporter" ∷ "app.kubernetes.io/name=dcgm-exporter" ∷ []

-- The loop over the resources of a node.
unfoldable pub mig_name_loop : {Q : Type 0} → GoMap String Q → Bool
mig_name_loop [] = false
mig_name_loop ((name, v) ∷ rl) = if is_mig name then true else mig_name_loop rl

module _ {Q R : Type 0} (q : Quantities Q R) where
  open q use {value_of}

  -- q, ok := Allocatable["nvidia.com/gpu"]; ok && q.Value() > 0
  abbrev pub positive : Option Q → Bool
  positive none = false
  positive (some a) = ltb 0 (value_of a) && ltb (value_of a) int64_half

  -- The loop over the nodes.
  unfoldable pub has_gpu_loop : List (Node Q) → Bool
  has_gpu_loop [] = false
  has_gpu_loop (node ∷ nodes) =
      let rest = has_gpu_loop nodes in
      if positive (lookup "nvidia.com/gpu" node.allocatable)
      then true
      else if mig_name_loop node.allocatable
      then true
      else rest

  abbrev pub has_gpu : Option (List (Node Q)) → Bool
  has_gpu none = false
  has_gpu (some nodes) = has_gpu_loop nodes

  unfoldable pub detect_dcgm_exporter : Cluster Q → Bool × List String
  detect_dcgm_exporter c =
      let found = selectors_loop c.pod_ips dcgm_selectors in
      let nothing : Bool × List String = (false, []) in
      if has_gpu c.all_nodes then found else nothing

  abbrev pub capabilities : Cluster Q → List String → Capabilities
  capabilities c groups =
      let set = group_set [] groups in
      let exporter = detect_dcgm_exporter c in
      record {
        metrics_server = get_or false "metrics.k8s.io" set;
        vpa = get_or false "autoscaling.k8s.io" set;
        karpenter = get_or false "karpenter.sh" set;
        provider = provider_of_nodes c.one_node;
        dcgm_exporter = exporter.0;
        dcgm_exporter_endpoints = exporter.1;
      }

  abbrev pub detected : Cluster Q → Option (List String) → Option Capabilities
  detected c none = none
  detected c (some groups) = some (capabilities c groups)

  unfoldable pub detect : Cluster Q → Option Capabilities
  detect c = detected c c.groups

-- What CheckResource returns; an error with its phase.
pub data Checked : Type 0 where
  checked : Bool → Checked
  check_failed : (phase : ℕ) → Checked

unfoldable pub has_name : String → List String → Bool
has_name name [] = false
has_name name (g ∷ groups) = if g == name then true else has_name name groups

unfoldable pub has_api_group : Option (List String) → String → Option Bool
has_api_group none group = none
has_api_group (some groups) group = some (has_name group groups)

-- hasResource, for what ServerResourcesForGroupVersion answers: it never fails.
unfoldable pub has_resource : Option (List String) → String → Bool
has_resource none resource = false
has_resource (some resources) resource = has_name resource resources

-- A verb: an error or a refusal ends the loop.
abbrev pub after_verb : Option Bool → Option Bool → Option Bool
after_verb none rest = none
after_verb (some allowed) rest = if allowed then rest else some false

-- The loop over the verbs; `access` is what the review of a verb answers.
unfoldable pub can_list_watch_loop : (String → Option Bool) → List String → Option Bool
can_list_watch_loop access [] = some true
can_list_watch_loop access (verb ∷ verbs) =
    after_verb (access verb) (can_list_watch_loop access verbs)

unfoldable pub can_list_watch : (String → Option Bool) → Option Bool
can_list_watch access = can_list_watch_loop access ("list" ∷ "watch" ∷ [])

abbrev pub phase_3 : Option Bool → Checked
phase_3 none = check_failed 3
phase_3 (some allowed) = checked allowed

abbrev pub phase_1 : Option Bool → Checked → Checked
phase_1 none rest = check_failed 1
phase_1 (some exists) rest = if exists then rest else checked false

unfoldable pub check_resource :
    Option (List String) → Option (List String) → (String → Option Bool) → String → String → Checked
check_resource groups resources access group resource =
    let reviewed = phase_3 (can_list_watch access) in
    phase_1 (has_api_group groups group)
      (if has_resource resources resource then reviewed else checked false)
