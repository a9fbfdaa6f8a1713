-- ===== src/Model/Scheduling.antt =====
-- pkg/model/scheduling.go, and NodePoolInfo of pkg/model/custom.go. A quantity is printed as a
-- list of bytes.
use kubeadapt_agent.Prelude.{ℕ, Bool, Option, List, String}
use kubeadapt_agent.Prelude.Int.{ℤ}
use kubeadapt_agent.GoMap.{GoMap}
use kubeadapt_agent.Model.Node.{TaintInfo}

pub record NamespaceInfo : Type 0 where
  pub name : String
  pub phase : String
  pub labels : GoMap String String
  pub annotations : GoMap (List ℕ) (List ℕ)
  pub creation_timestamp : ℤ

pub record PriorityClassInfo : Type 0 where
  pub name : String
  pub value : ℤ
  pub global_default : Bool
  pub preemption_policy : String
  pub description : String

pub record LimitRangeItemInfo : Type 0 where
  pub kind : String
  pub default : GoMap String (List ℕ)
  pub default_request : GoMap String (List ℕ)
  pub max : GoMap String (List ℕ)
  pub min : GoMap String (List ℕ)
  pub max_limit_request_ratio : GoMap String (List ℕ)

pub record LimitRangeInfo : Type 0 where
  pub name : String
  pub namespace : String
  pub limits : List LimitRangeItemInfo

pub record ResourceQuotaInfo : Type 0 where
  pub name : String
  pub namespace : String
  pub hard : GoMap String (List ℕ)
  pub used : GoMap String (List ℕ)
  pub labels : GoMap String String

pub record NodeSelectorRequirement : Type 0 where
  pub key : String
  pub operator : String
  pub values : List String

pub record NodePoolInfo : Type 0 where
  pub name : String
  pub uid : String
  pub min_replicas : Option ℤ
  pub max_replicas : Option ℤ
  pub node_class_name : String
  pub labels : GoMap String String
  pub annotations : GoMap (List ℕ) (List ℕ)
  pub taints : List TaintInfo
  pub requirements : List NodeSelectorRequirement
  pub creation_timestamp : ℤ
