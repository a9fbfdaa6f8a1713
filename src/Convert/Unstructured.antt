-- ===== src/Convert/Unstructured.antt =====
-- The dynamic objects of the Kubernetes API, as the decoder of JSON makes them, and the reads with
-- a type assertion that internal/convert/autoscaling.go and
-- internal/collector/resource/nodepools.go make of them. A missing key reads as a nil interface,
-- which fails every assertion.
use kubeadapt_agent.Prelude.{
  Bool, Option, none, some, List, [], ◌∷◌, String, String_eq, if◌then◌else◌, ◌==◌,
}
use kubeadapt_agent.Prelude.Int.{ℤ}
use kubeadapt_agent.Convert.Api.{ObjectMeta}

-- A value of the interface type, with the maps and slices that hold such values.
mutual
  pub data Json (R : Type 0) : Type 0 where
    json_string : String → Json R
    json_int : ℤ → Json R
    json_float : R → Json R
    json_bool : Bool → Json R
    json_null : Json R
    json_object : Fields R → Json R
    json_array : Items R → Json R

  pub data Fields (R : Type 0) : Type 0 where
    no_fields : Fields R
    field : String → Json R → Fields R → Fields R

  pub data Items (R : Type 0) : Type 0 where
    no_items : Items R
    item : Json R → Items R → Items R

pub record Unstructured (R : Type 0) : Type 0 where
  pub meta : ObjectMeta
  pub object : Fields R

abbrev pub string_or_empty : Option String → String
string_or_empty none = ""
string_or_empty (some s) = s

abbrev pub cons_some {ℓ} : {A : Type ℓ} → Option A → List A → List A
cons_some none l = l
cons_some (some a) l = a ∷ l

module _ {R : Type 0} where
  -- m[key]
  unfoldable pub field_of : Fields R → String → Json R
  field_of no_fields key = json_null
  field_of (field k v m) key = let rest = field_of m key in if k == key then v else rest

  -- v.(string), v.(map[string]interface{}) and v.([]interface{})
  abbrev pub as_string : Json R → Option String
  as_string (json_string s) = some s
  as_string _ = none

  abbrev pub as_object : Json R → Option (Fields R)
  as_object (json_object m) = some m
  as_object _ = none

  abbrev pub as_array : Json R → Option (Items R)
  as_array (json_array l) = some l
  as_array _ = none

  -- nestedMap, and obj[key].(map[string]interface{})
  unfoldable pub nested_map : Fields R → String → Option (Fields R)
  nested_map m key = as_object (field_of m key)

  abbrev pub nested_slice : Fields R → String → Option (Items R)
  nested_slice m key = as_array (field_of m key)

  -- stringVal and stringField
  unfoldable pub string_val : Fields R → String → String
  string_val m key = string_or_empty (as_string (field_of m key))

  -- The two reads of a map that may not be there.
  abbrev pub nested_map_of : Option (Fields R) → String → Option (Fields R)
  nested_map_of none key = none
  nested_map_of (some m) key = nested_map m key

  abbrev pub nested_slice_of : Option (Fields R) → String → Option (Items R)
  nested_slice_of none key = none
  nested_slice_of (some m) key = nested_slice m key

  abbrev pub string_val_of : Option (Fields R) → String → String
  string_val_of none key = ""
  string_val_of (some m) key = string_val m key

  -- The elements of a slice that are maps, or strings, in order: the others are skipped.
  unfoldable pub maps_of : Items R → List (Fields R)
  maps_of no_items = []
  maps_of (item v l) = cons_some (as_object v) (maps_of l)

  unfoldable pub strings_of : Items R → List String
  strings_of no_items = []
  strings_of (item v l) = cons_some (as_string v) (strings_of l)

  abbrev pub maps_of_slice : Option (Items R) → List (Fields R)
  maps_of_slice none = []
  maps_of_slice (some l) = maps_of l

  abbrev pub strings_of_slice : Option (Items R) → List String
  strings_of_slice none = []
  strings_of_slice (some l) = strings_of l
