-- ===== src/Convert/Scheduling.antt =====
-- internal/convert/scheduling.go: Namespaces, PriorityClasses, LimitRanges and ResourceQuotas.
use kubeadapt_agent.Prelude.{Bool, Option, List, String, map}
use kubeadapt_agent.Prelude.Int.{ℤ}
use kubeadapt_agent.GoMap.{GoMap}
use kubeadapt_agent.Model.Scheduling.{
  NamespaceInfo, PriorityClassInfo, LimitRangeItemInfo, LimitRangeInfo, ResourceQuotaInfo,
}
use kubeadapt_agent.Convert.Api.{Quantities, ObjectMeta}
use kubeadapt_agent.Convert.Annotations.{filter_annotations}
use kubeadapt_agent.Convert.Shared.{deref_or, resource_list_to_string_map}

pub record Namespace : Type 0 where
  pub meta : ObjectMeta
  pub phase : String

pub record PriorityClass : Type 0 where
  pub meta : ObjectMeta
  pub value : ℤ
  pub global_default : Bool
  pub description : String
  pub preemption_policy : Option String

pub record LimitRangeItem (Q : Type 0) : Type 0 where
  pub kind : String
  pub default : GoMap String Q
  pub default_request : GoMap String Q
  pub max : GoMap String Q
  pub min : GoMap String Q
  pub max_limit_request_ratio : GoMap String Q

pub record LimitRange (Q : Type 0) : Type 0 where
  pub meta : ObjectMeta
  pub limits : List (LimitRangeItem Q)

pub record ResourceQuota (Q : Type 0) : Type 0 where
  pub meta : ObjectMeta
  pub hard : GoMap String Q
  pub used : GoMap String Q

unfoldable pub namespace_to_model : Namespace → NamespaceInfo
namespace_to_model ns = record {
  name = ns.meta.name;
  phase = ns.phase;
  labels = ns.meta.labels;
  annotations = filter_annotations ns.meta.annotations;
  creation_timestamp = ns.meta.creation_millis;
}

unfoldable pub priority_class_to_model : PriorityClass → PriorityClassInfo
priority_class_to_model pc = record {
  name = pc.meta.name;
  value = pc.value;
  global_default = pc.global_default;
  preemption_policy = deref_or "" pc.preemption_policy;
  description = pc.description;
}

module _ {Q R : Type 0} (q : Quantities Q R) where
  abbrev pub limit_range_item_info : LimitRangeItem Q → LimitRangeItemInfo
  limit_range_item_info l = record {
    kind = l.kind;
    default = resource_list_to_string_map q l.default;
    default_request = resource_list_to_string_map q l.default_request;
    max = resource_list_to_string_map q l.max;
    min = resource_list_to_string_map q l.min;
    max_limit_request_ratio = resource_list_to_string_map q l.max_limit_request_ratio;
  }

  unfoldable pub limit_range_to_model : LimitRange Q → LimitRangeInfo
  limit_range_to_model lr = record {
    name = lr.meta.name;
    namespace = lr.meta.namespace;
    limits = map limit_range_item_info lr.limits;
  }

  unfoldable pub resource_quota_to_model : ResourceQuota Q → ResourceQuotaInfo
  resource_quota_to_model rq = record {
    name = rq.meta.name;
    namespace = rq.meta.namespace;
    hard = resource_list_to_string_map q rq.hard;
    used = resource_list_to_string_map q rq.used;
    labels = rq.meta.labels;
  }
