-- ===== src/Model/Autoscaling.antt =====
-- pkg/model/autoscaling.go. A printed quantity or number is a list of bytes.
use kubeadapt_agent.Prelude.{ℕ, Option, List, String}
use kubeadapt_agent.Prelude.Int.{ℤ}
use kubeadapt_agent.GoMap.{GoMap}
use kubeadapt_agent.Model.Condition.{ConditionInfo, WorkloadReference}

pub record HpaMetricInfo : Type 0 where
  pub kind : String
  pub resource_name : String
  pub container_name : String
  pub metric_name : String
  pub target_type : String
  pub target_value : List ℕ

pub record HpaCurrentMetricInfo : Type 0 where
  pub kind : String
  pub resource_name : String
  pub current_value : List ℕ
  pub current_average_value : List ℕ
  pub current_utilization : Option ℤ

pub record HpaScalingPolicy : Type 0 where
  pub kind : String
  pub value : ℤ
  pub period_seconds : ℤ

pub record HpaScalingBehavior : Type 0 where
  pub stabilization_window_seconds : Option ℤ
  pub policies : List HpaScalingPolicy
  pub select_policy : String

pub record HpaInfo : Type 0 where
  pub name : String
  pub uid : String
  pub namespace : String
  pub target_kind : String
  pub target_name : String
  pub target_api_version : String
  pub min_replicas : Option ℤ
  pub max_replicas : ℤ
  pub current_replicas : ℤ
  pub desired_replicas : ℤ
  pub metrics : List HpaMetricInfo
  pub current_metrics : List HpaCurrentMetricInfo
  pub scale_up_behavior : Option HpaScalingBehavior
  pub scale_down_behavior : Option HpaScalingBehavior
  pub conditions : List ConditionInfo
  pub labels : GoMap String String
  pub annotations : GoMap (List ℕ) (List ℕ)
  pub creation_timestamp : ℤ
  pub last_scale_time : Option ℤ

pub record LabelSelectorRequirement : Type 0 where
  pub key : String
  pub operator : String
  pub values : List String

pub record PdbInfo : Type 0 where
  pub name : String
  pub uid : String
  pub namespace : String
  pub match_labels : GoMap String String
  pub match_expressions : List LabelSelectorRequirement
  pub target_workloads : List WorkloadReference
  pub min_available : String
  pub max_unavailable : String
  pub current_healthy : ℤ
  pub desired_healthy : ℤ
  pub disruptions_allowed : ℤ
  pub expected_pods : ℤ
  pub conditions : List ConditionInfo
  pub labels : GoMap String String
  pub annotations : GoMap (List ℕ) (List ℕ)
  pub creation_timestamp : ℤ

pub record ResourceValues (R : Type 0) : Type 0 where
  pub cpu_cores : R
  pub memory_bytes : ℕ

pub record VpaContainerRecommendation (R : Type 0) : Type 0 where
  pub container_name : String
  pub lower_bound : ResourceValues R
  pub target : ResourceValues R
  pub uncapped_target : ResourceValues R
  pub upper_bound : ResourceValues R

pub record VpaInfo (R : Type 0) : Type 0 where
  pub name : String
  pub namespace : String
  pub target_kind : String
  pub target_name : String
  pub target_api_version : String
  pub update_mode : String
  pub container_recommendations : List (VpaContainerRecommendation R)
  pub conditions : List ConditionInfo
  pub labels : GoMap String String
  pub creation_timestamp : ℤ
