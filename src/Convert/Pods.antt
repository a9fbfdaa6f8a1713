-- ===== src/Convert/Pods.antt =====
-- internal/convert/pod.go: PodToModel.
pub mod Statuses
use kubeadapt_agent.Prelude.{
  ℕ, Bool, true, false, Option, none, some, List, [], ◌∷◌, String, String_eq, map, if◌then◌else◌,
  any,
}
use kubeadapt_agent.Prelude.Int.{ℤ, pos}
use kubeadapt_agent.GoMap.{GoMap, lookup}
use kubeadapt_agent.GoMap.Index.{index_from}
use kubeadapt_agent.Model.Pod.{PodInfo, ContainerInfo, ContainerPortInfo, PodConditionInfo}
use kubeadapt_agent.Convert.Api.{
  Quantities, OwnerReference, Terminated, Waiting, ContainerState, ContainerStatus, ContainerSpec,
  Volume, Pod,
}
use kubeadapt_agent.Convert.Annotations.{filter_annotations}

unfoldable pub build_status_map : List ContainerStatus → GoMap String ContainerStatus
build_status_map = index_from (λ s. s.name) []

-- The switch on the state, and what it sets.
pub record StateFields : Type 0 where
  pub state : String
  pub reason : String
  pub message : String
  pub exit_code : Option ℤ

abbrev pub of_terminated : Option Terminated → StateFields
of_terminated none = record { state = ""; reason = ""; message = ""; exit_code = none }
of_terminated (some t) = record {
  state = "terminated";
  reason = t.reason;
  message = t.message;
  exit_code = some t.exit_code;
}

abbrev pub of_waiting : Option Waiting → Option Terminated → StateFields
of_waiting none t = of_terminated t
of_waiting (some w) t = record {
  state = "waiting";
  reason = w.reason;
  message = w.message;
  exit_code = none;
}

abbrev pub state_fields : ContainerState → StateFields
state_fields s =
    let running : StateFields = record {
      state = "running";
      reason = "";
      message = "";
      exit_code = none;
    } in
    if s.running then running else of_waiting s.waiting s.terminated

abbrev pub termination_reason : Option Terminated → String
termination_reason none = ""
termination_reason (some t) = t.reason

unfoldable pub with_status :
    {R : Type 0} → Option ContainerStatus → ContainerInfo R → ContainerInfo R
with_status none c = record c { state = "waiting" }
with_status (some s) c =
    let f = state_fields s.state in
    record c {
      image_id = s.image_id;
      ready = s.ready;
      started = s.started;
      restart_count = s.restart_count;
      state = f.state;
      state_reason = f.reason;
      state_message = f.message;
      exit_code = f.exit_code;
      last_termination_reason = termination_reason s.last_terminated;
    }

abbrev pub first_owner : List OwnerReference → OwnerReference
first_owner [] = record { kind = ""; name = ""; uid = "" }
first_owner (o ∷ os) = o

module _ {Q R : Type 0} (q : Quantities Q R) where
  open q use {zero_quantity, as_approximate_float, value_of}

  abbrev pub quantity_or_zero : Option Q → Q
  quantity_or_zero none = zero_quantity
  quantity_or_zero (some a) = a

  -- ParseQuantity of resourceQuantity
  abbrev pub cores : String → GoMap String Q → R
  cores name list = as_approximate_float (quantity_or_zero (lookup name list))

  abbrev pub value_or_zero : Option Q → ℕ
  value_or_zero none = 0
  value_or_zero (some a) = value_of a

  abbrev pub quantity_value : GoMap String Q → String → ℕ
  quantity_value list name = value_or_zero (lookup name list)

  unfoldable pub container_to_model : Option ContainerStatus → ContainerSpec Q → ContainerInfo R
  container_to_model status spec = with_status status (record {
    name = spec.name;
    image = spec.image;
    image_id = "";
    cpu_request_cores = cores "cpu" spec.requests;
    memory_request_bytes = quantity_value spec.requests "memory";
    cpu_limit_cores = cores "cpu" spec.limits;
    memory_limit_bytes = quantity_value spec.limits "memory";
    ephemeral_storage_request = quantity_value spec.requests "ephemeral-storage";
    ephemeral_storage_limit = quantity_value spec.limits "ephemeral-storage";
    gpu_request = quantity_value spec.requests "nvidia.com/gpu";
    gpu_limit = quantity_value spec.limits "nvidia.com/gpu";
    cpu_usage_cores = none;
    memory_usage_bytes = none;
    gpu_utilization_percent = none;
    gpu_memory_used_bytes = none;
    ready = false;
    started = none;
    restart_count = pos 0;
    state = "";
    state_reason = "";
    state_message = "";
    last_termination_reason = "";
    exit_code = none;
    ports = spec.ports;
  })

  unfoldable pub convert_containers :
      List (ContainerSpec Q) → GoMap String ContainerStatus → List (ContainerInfo R)
  convert_containers specs statuses =
      map (λ spec. container_to_model (lookup spec.name statuses) spec) specs

  unfoldable pub pod_to_model : Pod Q → PodInfo R
  pod_to_model pod =
      let owner = first_owner pod.owner_references in
      record {
        name = pod.name;
        uid = pod.uid;
        namespace = pod.namespace;
        node_name = pod.node_name;
        phase = pod.phase;
        reason = pod.reason;
        qos_class = pod.qos_class;
        owner_kind = owner.kind;
        owner_name = owner.name;
        owner_uid = owner.uid;
        containers = convert_containers pod.containers (build_status_map pod.container_statuses);
        init_containers =
            convert_containers pod.init_containers (build_status_map pod.init_container_statuses);
        labels = pod.labels;
        annotations = filter_annotations pod.annotations;
        creation_timestamp = pod.creation_millis;
        priority_class_name = pod.priority_class_name;
        priority = pod.priority;
        scheduler_name = pod.scheduler_name;
        service_account_name = pod.service_account_name;
        pod_ip = pod.pod_ip;
        host_ip = pod.host_ip;
        host_network = pod.host_network;
        has_host_path = any (λ v. v.host_path) pod.volumes;
        has_empty_dir = any (λ v. v.empty_dir) pod.volumes;
        conditions = pod.conditions;
      }
