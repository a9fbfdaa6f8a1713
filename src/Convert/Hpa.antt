-- ===== src/Convert/Hpa.antt =====
-- internal/convert/autoscaling.go: HPAToModel.
use kubeadapt_agent.Prelude.{Option, none, some, [], String, String_eq, map, if◌then◌else◌, ◌==◌}
use kubeadapt_agent.Prelude.Int.{ℤ}
use kubeadapt_agent.Transport.Message.{Text, decimal_ℤ}
use kubeadapt_agent.Model.Autoscaling.{
  HpaInfo, HpaMetricInfo, HpaCurrentMetricInfo, HpaScalingBehavior, HpaScalingPolicy,
}
use kubeadapt_agent.Convert.Api.{Quantities}
use kubeadapt_agent.Convert.HpaApi.{
  MetricTarget, MetricSource, ContainerMetricSource, MetricSpec, MetricValue, ResourceStatus,
  MetricStatus, ScalingPolicy, ScalingRules, Behavior, HorizontalPodAutoscaler,
}
use kubeadapt_agent.Convert.Annotations.{filter_annotations}
use kubeadapt_agent.Convert.Shared.{deref_or, convert_conditions}

abbrev pub scaling_policy : ScalingPolicy → HpaScalingPolicy
scaling_policy p = record { kind = p.kind; value = p.value; period_seconds = p.period_seconds }

unfoldable pub convert_hpa_scaling_rules : ScalingRules → HpaScalingBehavior
convert_hpa_scaling_rules rules = record {
  stabilization_window_seconds = rules.stabilization_window_seconds;
  policies = map scaling_policy rules.policies;
  select_policy = deref_or "" rules.select_policy;
}

abbrev pub rules_info : Option ScalingRules → Option HpaScalingBehavior
rules_info none = none
rules_info (some rules) = some (convert_hpa_scaling_rules rules)

abbrev pub scale_up_of : Option Behavior → Option HpaScalingBehavior
scale_up_of none = none
scale_up_of (some b) = rules_info b.scale_up

abbrev pub scale_down_of : Option Behavior → Option HpaScalingBehavior
scale_down_of none = none
scale_down_of (some b) = rules_info b.scale_down

abbrev pub print_int : Option ℤ → Text
print_int none = []
print_int (some n) = decimal_ℤ n

abbrev pub blank_metric : String → HpaMetricInfo
blank_metric kind = record {
  kind = kind;
  resource_name = "";
  container_name = "";
  metric_name = "";
  target_type = "";
  target_value = [];
}

abbrev pub blank_current : String → HpaCurrentMetricInfo
blank_current kind = record {
  kind = kind;
  resource_name = "";
  current_value = [];
  current_average_value = [];
  current_utilization = none;
}

module _ {Q R : Type 0} (q : Quantities Q R) where
  open q use {string_of}

  abbrev pub print_quantity : Option Q → Text
  print_quantity none = []
  print_quantity (some a) = string_of a

  unfoldable pub metric_target_value : MetricTarget Q → Text
  metric_target_value t =
      if t.kind == "Utilization"
      then print_int t.average_utilization
      else if t.kind == "AverageValue"
      then print_quantity t.average_value
      else if t.kind == "Value"
      then print_quantity t.value
      else []

  abbrev pub of_resource : HpaMetricInfo → Option (MetricSource Q) → HpaMetricInfo
  of_resource mi none = mi
  of_resource mi (some m) = record mi {
    resource_name = m.name;
    target_type = m.target.kind;
    target_value = metric_target_value m.target;
  }

  abbrev pub of_container : HpaMetricInfo → Option (ContainerMetricSource Q) → HpaMetricInfo
  of_container mi none = mi
  of_container mi (some m) = record mi {
    container_name = m.container;
    resource_name = m.name;
    target_type = m.target.kind;
    target_value = metric_target_value m.target;
  }

  -- Pods, Object and External.
  abbrev pub of_metric : HpaMetricInfo → Option (MetricSource Q) → HpaMetricInfo
  of_metric mi none = mi
  of_metric mi (some m) = record mi {
    metric_name = m.name;
    target_type = m.target.kind;
    target_value = metric_target_value m.target;
  }

  unfoldable pub hpa_metric_info : MetricSpec Q → HpaMetricInfo
  hpa_metric_info m =
      let mi = blank_metric m.kind in
      if m.kind == "Resource"
      then of_resource mi m.resource
      else if m.kind == "ContainerResource"
      then of_container mi m.container_resource
      else if m.kind == "Pods"
      then of_metric mi m.pods
      else if m.kind == "Object"
      then of_metric mi m.object
      else if m.kind == "External"
      then of_metric mi m.external
      else mi

  abbrev pub current_of_resource :
      HpaCurrentMetricInfo → Option (ResourceStatus Q) → HpaCurrentMetricInfo
  current_of_resource cm none = cm
  current_of_resource cm (some m) = record cm {
    resource_name = m.name;
    current_average_value = print_quantity m.current.average_value;
    current_value = print_quantity m.current.value;
    current_utilization = m.current.average_utilization;
  }

  abbrev pub current_of_pods : HpaCurrentMetricInfo → Option (MetricValue Q) → HpaCurrentMetricInfo
  current_of_pods cm none = cm
  current_of_pods cm (some m) = record cm { current_average_value = print_quantity m.average_value }

  abbrev pub current_of_object :
      HpaCurrentMetricInfo → Option (MetricValue Q) → HpaCurrentMetricInfo
  current_of_object cm none = cm
  current_of_object cm (some m) = record cm { current_value = print_quantity m.value }

  abbrev pub current_of_external :
      HpaCurrentMetricInfo → Option (MetricValue Q) → HpaCurrentMetricInfo
  current_of_external cm none = cm
  current_of_external cm (some m) = record cm {
    current_value = print_quantity m.value;
    current_average_value = print_quantity m.average_value;
  }

  unfoldable pub hpa_current_metric_info : MetricStatus Q → HpaCurrentMetricInfo
  hpa_current_metric_info m =
      let cm = blank_current m.kind in
      if m.kind == "Resource"
      then current_of_resource cm m.resource
      else if m.kind == "Pods"
      then current_of_pods cm m.pods
      else if m.kind == "Object"
      then current_of_object cm m.object
      else if m.kind == "External"
      then current_of_external cm m.external
      else cm

  unfoldable pub hpa_to_model : HorizontalPodAutoscaler Q → HpaInfo
  hpa_to_model hpa = record {
    name = hpa.meta.name;
    uid = hpa.meta.uid;
    namespace = hpa.meta.namespace;
    target_kind = hpa.target_kind;
    target_name = hpa.target_name;
    target_api_version = hpa.target_api_version;
    min_replicas = hpa.min_replicas;
    max_replicas = hpa.max_replicas;
    current_replicas = hpa.current_replicas;
    desired_replicas = hpa.desired_replicas;
    metrics = map hpa_metric_info hpa.metrics;
    current_metrics = map hpa_current_metric_info hpa.current_metrics;
    scale_up_behavior = scale_up_of hpa.behavior;
    scale_down_behavior = scale_down_of hpa.behavior;
    conditions = convert_conditions hpa.conditions;
    labels = hpa.meta.labels;
    annotations = filter_annotations hpa.meta.annotations;
    creation_timestamp = hpa.meta.creation_millis;
    last_scale_time = hpa.last_scale_millis;
  }
