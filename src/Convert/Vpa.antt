-- ===== src/Convert/Vpa.antt =====
-- internal/convert/autoscaling.go: VPAToModel, which reads a dynamic object.
use kubeadapt_agent.Prelude.{ℕ, Option, none, some, List, String, map}
use kubeadapt_agent.Model.{Float64}
use kubeadapt_agent.Model.Condition.{ConditionInfo}
use kubeadapt_agent.Model.Autoscaling.{VpaInfo, VpaContainerRecommendation, ResourceValues}
use kubeadapt_agent.Convert.Api.{Quantities}
use kubeadapt_agent.Convert.Shared.{parse_quantity_string}
use kubeadapt_agent.Convert.Unstructured.{
  Fields, Items, Unstructured, field_of, as_string, nested_map, string_val, nested_map_of,
  nested_slice_of, string_val_of, maps_of_slice,
}

module _ {R : Type 0} where
  abbrev pub vpa_condition_info : Fields R → ConditionInfo
  vpa_condition_info cm = record {
    kind = string_val cm "type";
    status = string_val cm "status";
    reason = string_val cm "reason";
    message = string_val cm "message";
  }

  -- The conditions of the slice, if there is one.
  unfoldable pub parse_vpa_conditions : Option (Items R) → List ConditionInfo
  parse_vpa_conditions conditions = map vpa_condition_info (maps_of_slice conditions)

module _ {Q R : Type 0} (fl : Float64 R) (q : Quantities Q R) where
  open fl use {zero_float, to_int64}

  abbrev pub cores_of : Option String → R
  cores_of none = zero_float
  cores_of (some s) = parse_quantity_string q zero_float s

  abbrev pub bytes_of : Option String → ℕ
  bytes_of none = 0
  bytes_of (some s) = to_int64 (parse_quantity_string q zero_float s)

  abbrev pub resource_values : Option (Fields R) → ResourceValues R
  resource_values none = record { cpu_cores = zero_float; memory_bytes = 0 }
  resource_values (some bound) = record {
    cpu_cores = cores_of (as_string (field_of bound "cpu"));
    memory_bytes = bytes_of (as_string (field_of bound "memory"));
  }

  unfoldable pub parse_resource_values : Fields R → String → ResourceValues R
  parse_resource_values m key = resource_values (nested_map m key)

  abbrev pub container_recommendation : Fields R → VpaContainerRecommendation R
  container_recommendation cm = record {
    container_name = string_val cm "containerName";
    lower_bound = parse_resource_values cm "lowerBound";
    target = parse_resource_values cm "target";
    uncapped_target = parse_resource_values cm "uncappedTarget";
    upper_bound = parse_resource_values cm "upperBound";
  }

  unfoldable pub parse_vpa_container_recommendations :
      Option (Items R) → List (VpaContainerRecommendation R)
  parse_vpa_container_recommendations containers =
      map container_recommendation (maps_of_slice containers)

  unfoldable pub vpa_to_model : Unstructured R → VpaInfo R
  vpa_to_model obj =
      let spec = nested_map obj.object "spec" in
      let target_ref = nested_map_of spec "targetRef" in
      let status = nested_map obj.object "status" in
      let recommendation = nested_map_of status "recommendation" in
      record {
        name = obj.meta.name;
        namespace = obj.meta.namespace;
        target_kind = string_val_of target_ref "kind";
        target_name = string_val_of target_ref "name";
        target_api_version = string_val_of target_ref "apiVersion";
        update_mode = string_val_of (nested_map_of spec "updatePolicy") "updateMode";
        container_recommendations =
            parse_vpa_container_recommendations
              (nested_slice_of recommendation "containerRecommendations");
        conditions = parse_vpa_conditions (nested_slice_of status "conditions");
        labels = obj.meta.labels;
        creation_timestamp = obj.meta.creation_millis;
      }
