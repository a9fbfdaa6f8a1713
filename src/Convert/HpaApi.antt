-- ===== src/Convert/HpaApi.antt =====
-- The HorizontalPodAutoscaler of the Kubernetes API, as records of the fields that HPAToModel of
-- internal/convert/autoscaling.go reads.
use kubeadapt_agent.Prelude.{Option, List, String}
use kubeadapt_agent.Prelude.Int.{ℤ}
use kubeadapt_agent.Convert.Api.{ObjectMeta, Condition}

pub record MetricTarget (Q : Type 0) : Type 0 where
  pub kind : String
  pub average_utilization : Option ℤ
  pub average_value : Option Q
  pub value : Option Q

-- A source of a metric; `name` is that of the resource or of the metric.
pub record MetricSource (Q : Type 0) : Type 0 where
  pub name : String
  pub target : MetricTarget Q

pub record ContainerMetricSource (Q : Type 0) : Type 0 where
  pub container : String
  pub name : String
  pub target : MetricTarget Q

pub record MetricSpec (Q : Type 0) : Type 0 where
  pub kind : String
  pub resource : Option (MetricSource Q)
  pub container_resource : Option (ContainerMetricSource Q)
  pub pods : Option (MetricSource Q)
  pub object : Option (MetricSource Q)
  pub external : Option (MetricSource Q)

pub record MetricValue (Q : Type 0) : Type 0 where
  pub average_value : Option Q
  pub value : Option Q
  pub average_utilization : Option ℤ

pub record ResourceStatus (Q : Type 0) : Type 0 where
  pub name : String
  pub current : MetricValue Q

-- Of the other sources, `current`; ContainerResource is not read.
pub record MetricStatus (Q : Type 0) : Type 0 where
  pub kind : String
  pub resource : Option (ResourceStatus Q)
  pub container_resource : Option (ResourceStatus Q)
  pub pods : Option (MetricValue Q)
  pub object : Option (MetricValue Q)
  pub external : Option (MetricValue Q)

pub record ScalingPolicy : Type 0 where
  pub kind : String
  pub value : ℤ
  pub period_seconds : ℤ

pub record ScalingRules : Type 0 where
  pub stabilization_window_seconds : Option ℤ
  pub select_policy : Option String
  pub policies : List ScalingPolicy

pub record Behavior : Type 0 where
  pub scale_up : Option ScalingRules
  pub scale_down : Option ScalingRules

pub record HorizontalPodAutoscaler (Q : Type 0) : Type 0 where
  pub meta : ObjectMeta
  pub target_kind : String
  pub target_name : String
  pub target_api_version : String
  pub min_replicas : Option ℤ
  pub max_replicas : ℤ
  pub metrics : List (MetricSpec Q)
  pub behavior : Option Behavior
  pub current_replicas : ℤ
  pub desired_replicas : ℤ
  pub current_metrics : List (MetricStatus Q)
  pub conditions : List Condition
  pub last_scale_millis : Option ℤ
