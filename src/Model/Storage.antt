-- ===== src/Model/Storage.antt =====
-- pkg/model/storage.go.
use kubeadapt_agent.Prelude.{ℕ, Bool, Option, List, String}
use kubeadapt_agent.Prelude.Int.{ℤ}
use kubeadapt_agent.GoMap.{GoMap}
use kubeadapt_agent.Model.Condition.{ConditionInfo}

pub record PvSourceInfo : Type 0 where
  pub kind : String
  pub csi_driver : String
  pub csi_volume_handle : String
  pub csi_fs_type : String
  pub aws_volume_id : String
  pub aws_partition : ℤ
  pub nfs_server : String
  pub nfs_path : String

pub record PvClaimRefInfo : Type 0 where
  pub namespace : String
  pub name : String
  pub uid : String

pub record PvInfo : Type 0 where
  pub name : String
  pub capacity : ℕ
  pub access_modes : List String
  pub reclaim_policy : String
  pub storage_class_name : String
  pub volume_mode : String
  pub phase : String
  pub mount_options : List String
  pub source : PvSourceInfo
  pub claim_ref : Option PvClaimRefInfo
  pub labels : GoMap String String
  pub annotations : GoMap (List ℕ) (List ℕ)
  pub creation_timestamp : ℤ

pub record PvcInfo : Type 0 where
  pub name : String
  pub namespace : String
  pub phase : String
  pub access_modes : List String
  pub storage_class_name : String
  pub volume_mode : String
  pub volume_name : String
  pub requested_bytes : ℕ
  pub capacity_bytes : ℕ
  pub mounted_by_pods : List String
  pub labels : GoMap String String
  pub annotations : GoMap (List ℕ) (List ℕ)
  pub creation_timestamp : ℤ
  pub conditions : List ConditionInfo

pub record StorageClassInfo : Type 0 where
  pub name : String
  pub provisioner : String
  pub reclaim_policy : String
  pub volume_binding_mode : String
  pub allow_volume_expansion : Bool
  pub parameters : GoMap String String
  pub mount_options : List String
  pub labels : GoMap String String
  pub annotations : GoMap (List ℕ) (List ℕ)
  pub is_default : Bool
