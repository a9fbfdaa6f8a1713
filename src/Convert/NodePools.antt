-- ===== src/Convert/NodePools.antt =====
-- internal/collector/resource/nodepools.go: nodePoolToModel, which reads a dynamic object.
use kubeadapt_agent.Prelude.{Option, none, some, String, map}
use kubeadapt_agent.Prelude.Int.{ℤ}
use kubeadapt_agent.Model.Node.{TaintInfo}
use kubeadapt_agent.Model.Scheduling.{NodePoolInfo, NodeSelectorRequirement}
use kubeadapt_agent.Convert.Unstructured.{
  Json, json_string, json_int, json_float, json_bool, json_null, json_object, json_array, Fields,
  Unstructured, field_of, nested_map, nested_slice, string_val, nested_map_of, nested_slice_of,
  string_val_of, maps_of_slice, strings_of_slice,
}

module _ {R : Type 0} where
  abbrev pub requirement : Fields R → NodeSelectorRequirement
  requirement rm = record {
    key = string_val rm "key";
    operator = string_val rm "operator";
    values = strings_of_slice (nested_slice rm "values");
  }

  abbrev pub pool_taint : Fields R → TaintInfo
  pool_taint tm = record {
    key = string_val tm "key";
    value = string_val tm "value";
    effect = string_val tm "effect";
  }

module _ {R : Type 0} (int_of_float : R → ℤ) where
  -- An int is 64 bits wide, and the decoder makes int64 and float64 of numbers.
  unfoldable pub to_int : Json R → Option ℤ
  to_int (json_int n) = some n
  to_int (json_float f) = some (int_of_float f)
  to_int (json_string s) = none
  to_int (json_bool b) = none
  to_int json_null = none
  to_int (json_object m) = none
  to_int (json_array l) = none

  abbrev pub limit_of : Option (Fields R) → String → Option ℤ
  limit_of none key = none
  limit_of (some limits) key = to_int (field_of limits key)

  unfoldable pub node_pool_to_model : Unstructured R → NodePoolInfo
  node_pool_to_model obj =
      let spec = nested_map obj.object "spec" in
      let template_spec = nested_map_of (nested_map_of spec "template") "spec" in
      let limits = nested_map_of spec "limits" in
      record {
        name = obj.meta.name;
        uid = obj.meta.uid;
        min_replicas = limit_of limits "minReplicas";
        max_replicas = limit_of limits "maxReplicas";
        node_class_name = string_val_of (nested_map_of template_spec "nodeClassRef") "name";
        labels = obj.meta.labels;
        annotations = obj.meta.annotations;
        taints = map pool_taint (maps_of_slice (nested_slice_of template_spec "taints"));
        requirements =
            map requirement (maps_of_slice (nested_slice_of template_spec "requirements"));
        creation_timestamp = obj.meta.creation_millis;
      }
