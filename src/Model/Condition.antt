-- ===== src/Model/Condition.antt =====
-- The types of pkg/model that several resources share: the ConditionInfo of each kind of resource,
-- all with these four fields, and WorkloadReference.
use kubeadapt_agent.Prelude.{String}

pub record ConditionInfo : Type 0 where
  pub kind : String
  pub status : String
  pub reason : String
  pub message : String

pub record WorkloadReference : Type 0 where
  pub kind : String
  pub name : String
  pub namespace : String
