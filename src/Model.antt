-- ===== src/Model.antt =====
-- pkg/model: the payload and its parts. A record has the fields that the modelled code reads or
-- writes. `R` is the carrier of float64. An int64 or int that is summed is its 64-bit pattern.
pub mod Condition
pub mod Node
pub mod Pod
pub mod Network
pub mod Storage
pub mod Scheduling
pub mod Autoscaling
pub mod Workload
pub mod Health
pub mod Cluster
use kubeadapt_agent.Prelude.{ℕ, Bool}

-- The operations of float64 that the agent uses, over a carrier: the numbers' meaning is left
-- to Go.
pub record Float64 (R : Type 0) : Type 0 where
  pub zero_float : R
  pub plus : R → R → R
  pub divide : R → R → R
  pub of_int : ℕ → R
  pub is_zero : R → Bool
  pub times : R → R → R
  pub less : R → R → Bool
  pub same : R → R → Bool
  -- int64(f), as a 64-bit pattern
  pub to_int64 : R → ℕ
