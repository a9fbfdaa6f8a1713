-- ===== src/Convert/Api.antt =====
-- What the objects of the Kubernetes API share, and pods, as records of the fields that
-- internal/convert reads. A resource.Quantity is a parameter with the functions that read, print
-- and parse it; an IntOrString is the text that its String method gives.
use kubeadapt_agent.Prelude.{ℕ, Bool, Option, List, String}
use kubeadapt_agent.Prelude.Int.{ℤ}
use kubeadapt_agent.GoMap.{GoMap}
use kubeadapt_agent.Model.Pod.{ContainerPortInfo, PodConditionInfo}

pub record Quantities (Q R : Type 0) : Type 0 where
  pub zero_quantity : Q
  pub as_approximate_float : Q → R
  pub value_of : Q → ℕ
  -- String, as bytes
  pub string_of : Q → List ℕ
  -- resource.ParseQuantity; none for an error
  pub parse_quantity : String → Option Q

pub record OwnerReference : Type 0 where
  pub kind : String
  pub name : String
  pub uid : String

pub record ObjectMeta : Type 0 where
  pub name : String
  pub uid : String
  pub namespace : String
  pub labels : GoMap String String
  pub annotations : GoMap (List ℕ) (List ℕ)
  pub creation_millis : ℤ
  pub owner_references : List OwnerReference

pub record Condition : Type 0 where
  pub kind : String
  pub status : String
  pub reason : String
  pub message : String

pub record Terminated : Type 0 where
  pub reason : String
  pub message : String
  pub exit_code : ℤ

pub record Waiting : Type 0 where
  pub reason : String
  pub message : String

pub record ContainerState : Type 0 where
  pub running : Bool
  pub waiting : Option Waiting
  pub terminated : Option Terminated

pub record ContainerStatus : Type 0 where
  pub name : String
  pub image_id : String
  pub ready : Bool
  pub started : Option Bool
  pub restart_count : ℤ
  pub state : ContainerState
  pub last_terminated : Option Terminated

pub record ContainerSpec (Q : Type 0) : Type 0 where
  pub name : String
  pub image : String
  pub requests : GoMap String Q
  pub limits : GoMap String Q
  pub ports : List ContainerPortInfo

pub record Volume : Type 0 where
  pub host_path : Bool
  pub empty_dir : Bool

pub record Pod (Q : Type 0) : Type 0 where
  pub name : String
  pub uid : String
  pub namespace : String
  pub labels : GoMap String String
  pub annotations : GoMap (List ℕ) (List ℕ)
  pub creation_millis : ℤ
  pub owner_references : List OwnerReference
  pub node_name : String
  pub priority_class_name : String
  pub priority : Option ℤ
  pub scheduler_name : String
  pub service_account_name : String
  pub host_network : Bool
  pub volumes : List Volume
  pub containers : List (ContainerSpec Q)
  pub init_containers : List (ContainerSpec Q)
  pub phase : String
  pub reason : String
  pub qos_class : String
  pub pod_ip : String
  pub host_ip : String
  pub container_statuses : List ContainerStatus
  pub init_container_statuses : List ContainerStatus
  pub conditions : List PodConditionInfo
