-- ===== src/Convert/Shared.antt =====
-- What several conversions of internal/convert share: resource lists, containers, conditions and
-- the zero values that a nil pointer stands for.
pub mod Maps
use kubeadapt_agent.Prelude.{
  ℕ, Bool, Option, none, some, List, [], ◌∷◌, String, String_eq, map, if◌then◌else◌, ◌==◌,
}
use kubeadapt_agent.GoMap.{GoMap, lookup, insert}
use kubeadapt_agent.Transport.Message.{Text}
use kubeadapt_agent.Model.Condition.{ConditionInfo}
use kubeadapt_agent.Model.Workload.{ContainerSpecInfo}
use kubeadapt_agent.Convert.Api.{Quantities, ContainerSpec, Condition}
use kubeadapt_agent.Convert.Pods.{cores, quantity_value}

-- *p, or the value for a nil p
abbrev pub deref_or {ℓ} : {A : Type ℓ} → A → Option A → A
deref_or zero_value none = zero_value
deref_or zero_value (some a) = a

abbrev pub condition_info : Condition → ConditionInfo
condition_info c = record {
  kind = c.kind;
  status = c.status;
  reason = c.reason;
  message = c.message;
}

-- The loops that convert the conditions of each kind of resource, all alike.
unfoldable pub convert_conditions : List Condition → List ConditionInfo
convert_conditions = map condition_info

module _ {Q R : Type 0} (q : Quantities Q R) where
  open q use {string_of, parse_quantity, as_approximate_float}

  abbrev pub container_spec_info : ContainerSpec Q → ContainerSpecInfo R
  container_spec_info c = record {
    name = c.name;
    image = c.image;
    cpu_request_cores = cores q "cpu" c.requests;
    memory_request_bytes = quantity_value q c.requests "memory";
    cpu_limit_cores = cores q "cpu" c.limits;
    memory_limit_bytes = quantity_value q c.limits "memory";
    gpu_request = quantity_value q c.requests "nvidia.com/gpu";
    gpu_limit = quantity_value q c.limits "nvidia.com/gpu";
  }

  unfoldable pub extract_container_specs : List (ContainerSpec Q) → List (ContainerSpecInfo R)
  extract_container_specs = map container_spec_info

  -- The loop over the resources; `m` is what it has filled so far.
  unfoldable pub string_map_loop : GoMap String Text → GoMap String Q → GoMap String Text
  string_map_loop m [] = m
  string_map_loop m ((k, v) ∷ rl) = string_map_loop (insert k (string_of v) m) rl

  unfoldable pub resource_list_to_string_map : GoMap String Q → GoMap String Text
  resource_list_to_string_map rl = string_map_loop [] rl

  abbrev pub parsed_or : R → Option Q → R
  parsed_or zero_float none = zero_float
  parsed_or zero_float (some a) = as_approximate_float a

  -- The zero of float64 first.
  unfoldable pub parse_quantity_string : R → String → R
  parse_quantity_string zero_float s = parsed_or zero_float (parse_quantity s)
