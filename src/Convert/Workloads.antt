-- ===== src/Convert/Workloads.antt =====
-- internal/convert/workload.go: Deployments, StatefulSets, DaemonSets and ReplicaSets.
use kubeadapt_agent.Prelude.{Bool, Option, none, some, List, [], String, String_eq, map}
use kubeadapt_agent.Prelude.Int.{ℤ, pos}
use kubeadapt_agent.GoMap.{GoMap}
use kubeadapt_agent.Model.{Float64}
use kubeadapt_agent.Model.Workload.{
  WorkloadInfo, WorkloadDetails, deployment, stateful_set, daemon_set, ReplicaSetInfo,
}
use kubeadapt_agent.Convert.Api.{Quantities, ObjectMeta, ContainerSpec, Condition}
use kubeadapt_agent.Convert.Annotations.{filter_annotations}
use kubeadapt_agent.Convert.Pods.{first_owner}
use kubeadapt_agent.Convert.Shared.{deref_or, convert_conditions, extract_container_specs}

-- RollingUpdate of a Deployment.
pub record RollingUpdate : Type 0 where
  pub max_surge : Option String
  pub max_unavailable : Option String

pub record Deployment (Q : Type 0) : Type 0 where
  pub meta : ObjectMeta
  pub spec_replicas : Option ℤ
  pub ready_replicas : ℤ
  pub available_replicas : ℤ
  pub unavailable_replicas : ℤ
  pub updated_replicas : ℤ
  pub strategy_type : String
  pub rolling_update : Option RollingUpdate
  pub containers : List (ContainerSpec Q)
  -- MatchLabels of the selector, if there is one
  pub selector : Option (GoMap String String)
  pub paused : Bool
  pub conditions : List Condition

pub record StatefulSet (Q : Type 0) : Type 0 where
  pub meta : ObjectMeta
  pub spec_replicas : Option ℤ
  pub ready_replicas : ℤ
  pub available_replicas : ℤ
  pub updated_replicas : ℤ
  pub update_strategy_type : String
  -- RollingUpdate with its Partition
  pub rolling_update : Option (Option ℤ)
  pub service_name : String
  pub pod_management_policy : String
  pub containers : List (ContainerSpec Q)
  pub selector : Option (GoMap String String)
  pub volume_claim_templates : List ObjectMeta
  pub conditions : List Condition

pub record DaemonSetStatus : Type 0 where
  pub desired_number_scheduled : ℤ
  pub current_number_scheduled : ℤ
  pub number_ready : ℤ
  pub number_misscheduled : ℤ
  pub updated_number_scheduled : ℤ
  pub number_unavailable : ℤ
  pub number_available : ℤ

pub record DaemonSet (Q : Type 0) : Type 0 where
  pub meta : ObjectMeta
  pub status : DaemonSetStatus
  pub update_strategy_type : String
  pub containers : List (ContainerSpec Q)
  pub selector : Option (GoMap String String)
  pub conditions : List Condition

pub record ReplicaSet : Type 0 where
  pub meta : ObjectMeta
  pub spec_replicas : Option ℤ
  pub ready_replicas : ℤ
  pub selector : Option (GoMap String String)

abbrev pub surge_of : Option RollingUpdate → String
surge_of none = ""
surge_of (some ru) = deref_or "" ru.max_surge

abbrev pub unavailable_of : Option RollingUpdate → String
unavailable_of none = ""
unavailable_of (some ru) = deref_or "" ru.max_unavailable

unfoldable pub replica_set_to_model : ReplicaSet → ReplicaSetInfo
replica_set_to_model rs =
    let owner = first_owner rs.meta.owner_references in
    record {
      name = rs.meta.name;
      namespace = rs.meta.namespace;
      replicas = deref_or (pos 1) rs.spec_replicas;
      ready_replicas = rs.ready_replicas;
      owner_kind = owner.kind;
      owner_name = owner.name;
      owner_uid = owner.uid;
      selector = deref_or [] rs.selector;
      labels = rs.meta.labels;
      creation_timestamp = rs.meta.creation_millis;
    }

module _ {Q R : Type 0} (fl : Float64 R) (q : Quantities Q R) where
  open fl use {zero_float}

  -- The fields that the three conversions fill alike.
  abbrev pub workload_info :
      ObjectMeta
      → String
      → WorkloadDetails
      → List (ContainerSpec Q)
      → Option (GoMap String String)
      → List Condition
      → WorkloadInfo R
  workload_info meta strategy details containers selector conditions = record {
    name = meta.name;
    uid = meta.uid;
    namespace = meta.namespace;
    strategy = strategy;
    details = details;
    total_cpu_request = zero_float;
    total_memory_request = 0;
    total_cpu_limit = zero_float;
    total_memory_limit = 0;
    total_cpu_usage = none;
    total_memory_usage = none;
    container_specs = extract_container_specs q containers;
    selector = deref_or [] selector;
    labels = meta.labels;
    annotations = filter_annotations meta.annotations;
    creation_timestamp = meta.creation_millis;
    conditions = convert_conditions conditions;
  }

  unfoldable pub deployment_to_model : Deployment Q → WorkloadInfo R
  deployment_to_model dep =
      workload_info dep.meta dep.strategy_type
        (deployment (record {
          replicas = deref_or (pos 1) dep.spec_replicas;
          ready_replicas = dep.ready_replicas;
          available_replicas = dep.available_replicas;
          unavailable_replicas = dep.unavailable_replicas;
          updated_replicas = dep.updated_replicas;
          max_surge = surge_of dep.rolling_update;
          max_unavailable = unavailable_of dep.rolling_update;
          paused = dep.paused;
        }))
        dep.containers dep.selector dep.conditions

  unfoldable pub stateful_set_to_model : StatefulSet Q → WorkloadInfo R
  stateful_set_to_model ss =
      workload_info ss.meta ss.update_strategy_type
        (stateful_set (record {
          replicas = deref_or (pos 1) ss.spec_replicas;
          ready_replicas = ss.ready_replicas;
          available_replicas = ss.available_replicas;
          updated_replicas = ss.updated_replicas;
          service_name = ss.service_name;
          pod_management_policy = ss.pod_management_policy;
          volume_claim_templates = map (λ pvc. pvc.name) ss.volume_claim_templates;
          partition = deref_or none ss.rolling_update;
        }))
        ss.containers ss.selector ss.conditions

  unfoldable pub daemon_set_to_model : DaemonSet Q → WorkloadInfo R
  daemon_set_to_model ds =
      workload_info ds.meta ds.update_strategy_type
        (daemon_set (record {
          desired_number_scheduled = ds.status.desired_number_scheduled;
          current_number_scheduled = ds.status.current_number_scheduled;
          number_ready = ds.status.number_ready;
          number_misscheduled = ds.status.number_misscheduled;
          updated_number_scheduled = ds.status.updated_number_scheduled;
          number_unavailable = ds.status.number_unavailable;
          number_available = ds.status.number_available;
        }))
        ds.containers ds.selector ds.conditions
