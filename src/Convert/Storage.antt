-- ===== src/Convert/Storage.antt =====
-- internal/convert/storage.go: PersistentVolumes, their claims and StorageClasses.
use kubeadapt_agent.Prelude.{
  Bool, false, Option, none, some, List, [], String, String_eq, bytes_comparable, if◌then◌else◌,
  ◌==◌,
}
use kubeadapt_agent.Prelude.Int.{ℤ, pos}
use kubeadapt_agent.GoMap.{GoMap, get_or}
use kubeadapt_agent.Transport.Message.{text}
use kubeadapt_agent.Model.Storage.{PvInfo, PvSourceInfo, PvClaimRefInfo, PvcInfo, StorageClassInfo}
use kubeadapt_agent.Convert.Api.{Quantities, ObjectMeta, Condition}
use kubeadapt_agent.Convert.Annotations.{filter_annotations}
use kubeadapt_agent.Convert.Pods.{quantity_value}
use kubeadapt_agent.Convert.Shared.{deref_or, convert_conditions}

pub record CsiSource : Type 0 where
  pub driver : String
  pub volume_handle : String
  pub fs_type : String

pub record AwsSource : Type 0 where
  pub volume_id : String
  pub partition : ℤ

pub record NfsSource : Type 0 where
  pub server : String
  pub path : String

-- The pointers of the volume's source; of those that are only tested, whether they are set.
pub record PvSource : Type 0 where
  pub csi : Option CsiSource
  pub aws_elastic_block_store : Option AwsSource
  pub nfs : Option NfsSource
  pub host_path : Bool
  pub gce_persistent_disk : Bool
  pub azure_disk : Bool
  pub azure_file : Bool
  pub fc : Bool
  pub iscsi : Bool
  pub local : Bool

pub record ClaimRef : Type 0 where
  pub namespace : String
  pub name : String
  pub uid : String

pub record PersistentVolume (Q : Type 0) : Type 0 where
  pub meta : ObjectMeta
  pub storage_class_name : String
  pub phase : String
  pub mount_options : List String
  pub capacity : GoMap String Q
  pub access_modes : List String
  pub reclaim_policy : String
  pub volume_mode : Option String
  pub source : PvSource
  pub claim_ref : Option ClaimRef

pub record PersistentVolumeClaim (Q : Type 0) : Type 0 where
  pub meta : ObjectMeta
  pub phase : String
  pub volume_name : String
  pub access_modes : List String
  pub storage_class_name : Option String
  pub volume_mode : Option String
  pub requests : GoMap String Q
  pub capacity : GoMap String Q
  pub conditions : List Condition

pub record StorageClass : Type 0 where
  pub meta : ObjectMeta
  pub provisioner : String
  pub parameters : GoMap String String
  pub mount_options : List String
  pub reclaim_policy : Option String
  pub volume_binding_mode : Option String
  pub allow_volume_expansion : Option Bool

-- A source of which only the type is told.
abbrev pub only_type : String → PvSourceInfo
only_type kind = record {
  kind = kind;
  csi_driver = "";
  csi_volume_handle = "";
  csi_fs_type = "";
  aws_volume_id = "";
  aws_partition = pos 0;
  nfs_server = "";
  nfs_path = "";
}

-- The cases of the switch from HostPath on.
abbrev pub plain_source : PvSource → PvSourceInfo
plain_source s = only_type (
    if s.host_path
    then "hostPath"
    else if s.gce_persistent_disk
    then "gcePersistentDisk"
    else if s.azure_disk
    then "azureDisk"
    else if s.azure_file
    then "azureFile"
    else if s.fc
    then "fc"
    else if s.iscsi
    then "iscsi"
    else if s.local
    then "local"
    else "")

abbrev pub nfs_source : Option NfsSource → PvSourceInfo → PvSourceInfo
nfs_source none others = others
nfs_source (some n) others = record (only_type "nfs") { nfs_server = n.server; nfs_path = n.path }

abbrev pub aws_source : Option AwsSource → PvSourceInfo → PvSourceInfo
aws_source none others = others
aws_source (some a) others = record (only_type "awsElasticBlockStore") {
  aws_volume_id = a.volume_id;
  aws_partition = a.partition;
}

abbrev pub csi_source : Option CsiSource → PvSourceInfo → PvSourceInfo
csi_source none others = others
csi_source (some c) others = record (only_type "csi") {
  csi_driver = c.driver;
  csi_volume_handle = c.volume_handle;
  csi_fs_type = c.fs_type;
}

unfoldable pub extract_pv_source : PvSource → PvSourceInfo
extract_pv_source s =
    csi_source s.csi (aws_source s.aws_elastic_block_store (nfs_source s.nfs (plain_source s)))

abbrev pub claim_ref_info : Option ClaimRef → Option PvClaimRefInfo
claim_ref_info none = none
claim_ref_info (some c) = some (record { namespace = c.namespace; name = c.name; uid = c.uid })

unfoldable pub storage_class_to_model : StorageClass → StorageClassInfo
storage_class_to_model sc = record {
  name = sc.meta.name;
  provisioner = sc.provisioner;
  reclaim_policy = deref_or "" sc.reclaim_policy;
  volume_binding_mode = deref_or "" sc.volume_binding_mode;
  allow_volume_expansion = deref_or false sc.allow_volume_expansion;
  parameters = sc.parameters;
  mount_options = sc.mount_options;
  labels = sc.meta.labels;
  annotations = sc.meta.annotations;
  is_default =
      get_or [] (text "storageclass.kubernetes.io/is-default-class") sc.meta.annotations
      == text "true";
}

module _ {Q R : Type 0} (q : Quantities Q R) where
  unfoldable pub pv_to_model : PersistentVolume Q → PvInfo
  pv_to_model pv = record {
    name = pv.meta.name;
    capacity = quantity_value q pv.capacity "storage";
    access_modes = pv.access_modes;
    reclaim_policy = pv.reclaim_policy;
    storage_class_name = pv.storage_class_name;
    volume_mode = deref_or "Filesystem" pv.volume_mode;
    phase = pv.phase;
    mount_options = pv.mount_options;
    source = extract_pv_source pv.source;
    claim_ref = claim_ref_info pv.claim_ref;
    labels = pv.meta.labels;
    annotations = filter_annotations pv.meta.annotations;
    creation_timestamp = pv.meta.creation_millis;
  }

  unfoldable pub pvc_to_model : PersistentVolumeClaim Q → PvcInfo
  pvc_to_model pvc = record {
    name = pvc.meta.name;
    namespace = pvc.meta.namespace;
    phase = pvc.phase;
    access_modes = pvc.access_modes;
    storage_class_name = deref_or "" pvc.storage_class_name;
    volume_mode = deref_or "Filesystem" pvc.volume_mode;
    volume_name = pvc.volume_name;
    requested_bytes = quantity_value q pvc.requests "storage";
    capacity_bytes = quantity_value q pvc.capacity "storage";
    mounted_by_pods = [];
    labels = pvc.meta.labels;
    annotations = filter_annotations pvc.meta.annotations;
    creation_timestamp = pvc.meta.creation_millis;
    conditions = convert_conditions pvc.conditions;
  }
