-- ===== src/Convert/Cloud.antt =====
-- internal/convert/cloud.go: the cloud instance of a node, from its provider id and its labels.
-- Label values of Kubernetes are ASCII, for which ToUpper and ToLower change letters only.
pub mod Ids
pub mod Lower
use kubeadapt_agent.Prelude.{
  ℕ, ◌+◌, ◌-◌, Bool, true, false, ◌&&◌, Option, none, some, List, [], ◌∷◌, ◌++◌, ℕ_eq,
  bytes_comparable, if◌then◌else◌, ◌==◌, leb, is_empty, map,
}
use kubeadapt_agent.GoMap.{GoMap, lookup}
use kubeadapt_agent.Transport.Message.{Text, text, has_prefix}
use kubeadapt_agent.Dcgm.Labels.{cut}
use kubeadapt_agent.Dcgm.Lines.{last_cut}
use kubeadapt_agent.Config.{split_from}

pub record CloudId : Type 0 where
  pub instance_id : Text
  pub az : Text
  pub region : Text

-- providerID, "", ""
abbrev pub only_id : Text → CloudId
only_id id = record { instance_id = id; az = []; region = [] }

-- strings.TrimPrefix; `all` is the whole text.
unfoldable pub trim_from : Text → Text → Text → Text
trim_from all [] s = s
trim_from all (p ∷ ps) [] = all
trim_from all (p ∷ ps) (c ∷ cs) = let rest = trim_from all ps cs in if p == c then rest else all

abbrev pub trim_prefix : Text → Text → Text
trim_prefix p s = trim_from s p s

-- az[:len(az)-1], if there is a last byte
unfoldable pub drop_last : Text → Text
drop_last [] = []
drop_last (c ∷ []) = []
drop_last (c ∷ d ∷ s) = c ∷ drop_last (d ∷ s)

abbrev pub aws_parts : Text → Option (Text × Text) → CloudId
aws_parts id none = only_id id
aws_parts id (some (az, instance_id)) = record {
  instance_id = instance_id;
  az = az;
  region = drop_last az;
}

unfoldable pub parse_aws_provider_id : Text → CloudId
parse_aws_provider_id id = aws_parts id (cut b'/' (trim_prefix (text "aws:///") id))

-- The text before the last "-", unless that is the first byte or missing.
abbrev pub zone_region : Option (Text × Text) → Text
zone_region none = []
zone_region (some (region, suffix)) = region

abbrev pub gce_parts : Text → List Text → CloudId
gce_parts id (project ∷ zone ∷ instance_id ∷ more) = record {
  instance_id = instance_id;
  az = zone;
  region = zone_region (last_cut b'-' zone);
}
gce_parts id (project ∷ zone ∷ []) = only_id id
gce_parts id (project ∷ []) = only_id id
gce_parts id [] = only_id id

unfoldable pub parse_gce_provider_id : Text → CloudId
parse_gce_provider_id id = gce_parts id (split_from b'/' [] (trim_prefix (text "gce://") id))

abbrev pub last_segment : Text → Option (Text × Text) → Text
last_segment all none = all
last_segment all (some (path, segment)) = segment

unfoldable pub parse_azure_provider_id : Text → CloudId
parse_azure_provider_id id =
    let trimmed = trim_prefix (text "azure:///") id in
    only_id (last_segment trimmed (last_cut b'/' trimmed))

unfoldable pub parse_provider_id : Text → CloudId
parse_provider_id id =
    if is_empty id
    then only_id []
    else if has_prefix (text "aws://") id
    then parse_aws_provider_id id
    else if has_prefix (text "gce://") id
    then parse_gce_provider_id id
    else if has_prefix (text "azure://") id
    then parse_azure_provider_id id
    else only_id id

unfoldable pub lower : ℕ → ℕ
lower c = if leb b'A' c && leb c b'Z' then c + 32 else c

unfoldable pub upper : ℕ → ℕ
upper c = if leb b'a' c && leb c b'z' then c - 32 else c

abbrev pub Labels : Type 0
Labels = GoMap Text Text

-- The cases that return, in order; `none` goes on to the next.
abbrev pub fargate : Option Text → Option Text
fargate none = none
fargate (some v) = if v == text "fargate" then some (text "fargate") else none

abbrev pub eks_capacity : Option Text → Option Text
eks_capacity none = none
eks_capacity (some v) =
    if map upper v == text "ON_DEMAND"
    then some (text "on-demand")
    else if map upper v == text "SPOT"
    then some (text "spot")
    else some (map lower v)

abbrev pub karpenter_capacity : Option Text → Option Text
karpenter_capacity none = none
karpenter_capacity (some v) = some (map lower v)

abbrev pub spot_if : Text → Option Text → Option Text
spot_if wanted none = none
spot_if wanted (some v) = if map lower v == wanted then some (text "spot") else none

abbrev pub preemptible : Option Text → Option Text
preemptible none = none
preemptible (some v) = some (text "preemptible")

abbrev pub lifecycle : Option Text → Option Text
lifecycle none = none
lifecycle (some v) =
    if map lower v == text "spot"
    then some (text "spot")
    else if map lower v == text "normal"
    then some (text "on-demand")
    else some (map lower v)

-- The first of the cases that returns; the empty text without one.
abbrev pub first_of : List (Option Text) → Text
first_of [] = []
first_of (some v ∷ cases) = v
first_of (none ∷ cases) = first_of cases

unfoldable pub extract_capacity_type : Labels → Text
extract_capacity_type labels = first_of (
    fargate (lookup (text "eks.amazonaws.com/compute-type") labels)
    ∷ eks_capacity (lookup (text "eks.amazonaws.com/capacityType") labels)
    ∷ karpenter_capacity (lookup (text "karpenter.sh/capacity-type") labels)
    ∷ spot_if (text "spot") (lookup (text "kubernetes.azure.com/scalesetpriority") labels)
    ∷ preemptible (lookup (text "cloud.google.com/gke-preemptible") labels)
    ∷ spot_if (text "true") (lookup (text "cloud.google.com/gke-spot") labels)
    ∷ lifecycle (lookup (text "node.kubernetes.io/lifecycle") labels)
    ∷ [])

unfoldable pub extract_node_group : Labels → Text
extract_node_group labels = first_of (
    lookup (text "eks.amazonaws.com/nodegroup") labels
    ∷ lookup (text "karpenter.sh/nodepool") labels
    ∷ lookup (text "cloud.google.com/gke-nodepool") labels
    ∷ lookup (text "kubernetes.azure.com/agentpool") labels
    ∷ [])
