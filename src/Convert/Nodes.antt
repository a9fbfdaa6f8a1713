-- ===== src/Convert/Nodes.antt =====
-- internal/convert/node.go: NodeToModel and DetectMIGResources.

pub mod Mig
pub mod Places
use kubeadapt_agent.Prelude.{
  ℕ, Bool, true, false, Option, none, some, List, [], ◌∷◌, String, String_eq, bytes_comparable, map,
  if◌then◌else◌, ◌==◌,
}
use kubeadapt_agent.Prelude.Int.{ℤ}
use kubeadapt_agent.GoMap.{GoMap, lookup, insert, get_or}
use kubeadapt_agent.Transport.Message.{Text, text, has_prefix}
use kubeadapt_agent.Model.Node.{NodeInfo, TaintInfo}
use kubeadapt_agent.Convert.Api.{Quantities, Condition}
use kubeadapt_agent.Convert.Annotations.{filter_annotations}
use kubeadapt_agent.Convert.Cloud.{
  Labels, parse_provider_id, extract_capacity_type, extract_node_group,
}
use kubeadapt_agent.Convert.Pods.{cores, quantity_value}
use kubeadapt_agent.Convert.Shared.{deref_or, convert_conditions}

pub record Taint : Type 0 where
  pub key : String
  pub value : String
  pub effect : String

-- The keys and values of the labels are bytes, since the code cuts and lowers some of them.
pub record Node (Q : Type 0) : Type 0 where
  pub name : String
  pub uid : String
  pub labels : Labels
  pub annotations : GoMap Text Text
  pub creation_millis : ℤ
  pub provider_id : Text
  pub pod_cidr : String
  pub pod_cidrs : List String
  pub unschedulable : Bool
  pub taints : List Taint
  pub kubelet_version : String
  pub container_runtime_version : String
  pub os_image : String
  pub kernel_version : String
  pub kube_proxy_version : String
  pub capacity : GoMap String Q
  pub allocatable : GoMap String Q
  pub conditions : List Condition

unfoldable pub node_ready : List Condition → Bool
node_ready [] = false
node_ready (c ∷ conditions) =
    if c.kind == "Ready" then c.status == "True" else node_ready conditions

abbrev pub taint_info : Taint → TaintInfo
taint_info t = record { key = t.key; value = t.value; effect = t.effect }

unfoldable pub convert_taints : List Taint → List TaintInfo
convert_taints = map taint_info

unfoldable pub is_mig : String → Bool
is_mig name = has_prefix (text "nvidia.com/mig-") (text name)

module _ {Q R : Type 0} (q : Quantities Q R) where
  open q use {value_of}

  unfoldable pub node_to_model : Node Q → NodeInfo R
  node_to_model node =
      let labels = node.labels in
      let place = parse_provider_id node.provider_id in
      record {
        name = node.name;
        uid = node.uid;
        provider_id = node.provider_id;
        instance_id = place.instance_id;
        instance_type = get_or [] (text "node.kubernetes.io/instance-type") labels;
        region = deref_or place.region (lookup (text "topology.kubernetes.io/region") labels);
        zone = deref_or place.az (lookup (text "topology.kubernetes.io/zone") labels);
        capacity_type = extract_capacity_type labels;
        node_group = extract_node_group labels;
        architecture = get_or [] (text "kubernetes.io/arch") labels;
        os = get_or [] (text "kubernetes.io/os") labels;
        kubelet_version = node.kubelet_version;
        container_runtime = node.container_runtime_version;
        pod_cidr = node.pod_cidr;
        pod_cidrs = node.pod_cidrs;
        os_image = node.os_image;
        kernel_version = node.kernel_version;
        kube_proxy_version = node.kube_proxy_version;
        cpu_capacity_cores = cores q "cpu" node.capacity;
        memory_capacity_bytes = quantity_value q node.capacity "memory";
        ephemeral_storage_bytes = quantity_value q node.capacity "ephemeral-storage";
        ephemeral_storage_allocatable = quantity_value q node.allocatable "ephemeral-storage";
        pod_capacity = quantity_value q node.capacity "pods";
        gpu_capacity = quantity_value q node.capacity "nvidia.com/gpu";
        cpu_allocatable = cores q "cpu" node.allocatable;
        memory_allocatable = quantity_value q node.allocatable "memory";
        pod_allocatable = quantity_value q node.allocatable "pods";
        gpu_allocatable = quantity_value q node.allocatable "nvidia.com/gpu";
        gpu_model = [];
        gpu_driver_version = [];
        mig_enabled = false;
        gpu_utilization_percent = none;
        gpu_tensor_active_percent = none;
        gpu_memory_util_percent = none;
        gpu_memory_used_bytes = none;
        gpu_memory_total_bytes = none;
        gpu_temperature_celsius = none;
        gpu_power_watts = none;
        gpu_devices = [];
        cpu_usage_cores = none;
        memory_usage_bytes = none;
        ready = node_ready node.conditions;
        unschedulable = node.unschedulable;
        taints = convert_taints node.taints;
        conditions = convert_conditions node.conditions;
        labels = labels;
        annotations = filter_annotations node.annotations;
        creation_timestamp = node.creation_millis;
      }

  -- The loop over Allocatable; `found` is migEnabled with migDevices.
  unfoldable pub mig_loop : Bool × GoMap String ℕ → GoMap String Q → Bool × GoMap String ℕ
  mig_loop found [] = found
  mig_loop found ((name, v) ∷ rl) =
      mig_loop (if is_mig name then (true, insert name (value_of v) found.1) else found) rl

  unfoldable pub detect_mig_resources : Node Q → Bool × GoMap String ℕ
  detect_mig_resources node = mig_loop (false, []) node.allocatable
