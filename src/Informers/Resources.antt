-- ===== src/Informers/Resources.antt =====
-- What the handlers of each resource have of their own: the files of internal/collector/resource
-- that are named after the resources. A pod's podKey is the same text as nsNameKey.
pub mod Keys
use kubeadapt_agent.Prelude.{String}
use kubeadapt_agent.Prelude.Int.{ℤ}
use kubeadapt_agent.Model.{Float64}
use kubeadapt_agent.Model.Node.{NodeInfo}
use kubeadapt_agent.Model.Pod.{PodInfo}
use kubeadapt_agent.Model.Workload.{WorkloadInfo, ReplicaSetInfo, JobInfo, CronJobInfo, ServiceInfo}
use kubeadapt_agent.Model.Autoscaling.{HpaInfo, VpaInfo, PdbInfo}
use kubeadapt_agent.Model.Network.{IngressInfo}
use kubeadapt_agent.Model.Storage.{PvInfo, PvcInfo, StorageClassInfo}
use kubeadapt_agent.Model.Scheduling.{
  NamespaceInfo, PriorityClassInfo, LimitRangeInfo, ResourceQuotaInfo, NodePoolInfo,
}
use kubeadapt_agent.Enrichment.Ownership.{ns_name_key}
use kubeadapt_agent.Convert.Api.{Quantities, Pod}
use kubeadapt_agent.Convert.Pods.{pod_to_model}
use kubeadapt_agent.Convert.Nodes.{Node, node_to_model}
use kubeadapt_agent.Convert.Workloads.{
  Deployment, StatefulSet, DaemonSet, ReplicaSet, deployment_to_model, stateful_set_to_model,
  daemon_set_to_model, replica_set_to_model,
}
use kubeadapt_agent.Convert.Jobs.{
  Job, CronJob, PodDisruptionBudget, job_to_model, cron_job_to_model, pdb_to_model,
}
use kubeadapt_agent.Convert.HpaApi.{HorizontalPodAutoscaler}
use kubeadapt_agent.Convert.Hpa.{hpa_to_model}
use kubeadapt_agent.Convert.Unstructured.{Unstructured}
use kubeadapt_agent.Convert.Vpa.{vpa_to_model}
use kubeadapt_agent.Convert.NodePools.{node_pool_to_model}
use kubeadapt_agent.Convert.Network.{Service, Ingress, service_to_model, ingress_to_model}
use kubeadapt_agent.Convert.Storage.{
  PersistentVolume, PersistentVolumeClaim, StorageClass, pv_to_model, pvc_to_model,
  storage_class_to_model,
}
use kubeadapt_agent.Convert.Scheduling.{
  Namespace, PriorityClass, LimitRange, ResourceQuota, namespace_to_model, priority_class_to_model,
  limit_range_to_model, resource_quota_to_model,
}
use kubeadapt_agent.Informers.{Watch}

unfoldable pub namespaces_watch : Watch Namespace NamespaceInfo
namespaces_watch = record {
  resource = "namespaces";
  to_model = namespace_to_model;
  info_key = λ info. info.name;
  object_key = λ o. o.meta.name;
}

unfoldable pub replica_sets_watch : Watch ReplicaSet ReplicaSetInfo
replica_sets_watch = record {
  resource = "replicasets";
  to_model = replica_set_to_model;
  info_key = λ info. ns_name_key info.namespace info.name;
  object_key = λ o. ns_name_key o.meta.namespace o.meta.name;
}

unfoldable pub pdbs_watch : Watch PodDisruptionBudget PdbInfo
pdbs_watch = record {
  resource = "pdbs";
  to_model = pdb_to_model;
  info_key = λ info. ns_name_key info.namespace info.name;
  object_key = λ o. ns_name_key o.meta.namespace o.meta.name;
}

unfoldable pub services_watch : Watch Service ServiceInfo
services_watch = record {
  resource = "services";
  to_model = service_to_model;
  info_key = λ info. ns_name_key info.namespace info.name;
  object_key = λ o. ns_name_key o.meta.namespace o.meta.name;
}

unfoldable pub ingresses_watch : Watch Ingress IngressInfo
ingresses_watch = record {
  resource = "ingresses";
  to_model = ingress_to_model;
  info_key = λ info. ns_name_key info.namespace info.name;
  object_key = λ o. ns_name_key o.meta.namespace o.meta.name;
}

unfoldable pub storage_classes_watch : Watch StorageClass StorageClassInfo
storage_classes_watch = record {
  resource = "storageclasses";
  to_model = storage_class_to_model;
  info_key = λ info. info.name;
  object_key = λ o. o.meta.name;
}

unfoldable pub priority_classes_watch : Watch PriorityClass PriorityClassInfo
priority_classes_watch = record {
  resource = "priorityclasses";
  to_model = priority_class_to_model;
  info_key = λ info. info.name;
  object_key = λ o. o.meta.name;
}

module _ {R : Type 0} (int_of_float : R → ℤ) where
  unfoldable pub node_pools_watch : Watch (Unstructured R) NodePoolInfo
  node_pools_watch = record {
    resource = "nodepools";
    to_model = node_pool_to_model int_of_float;
    info_key = λ info. info.name;
    object_key = λ o. o.meta.name;
  }

module _ {Q R : Type 0} (q : Quantities Q R) where
  unfoldable pub nodes_watch : Watch (Node Q) (NodeInfo R)
  nodes_watch = record {
    resource = "nodes";
    to_model = node_to_model q;
    info_key = λ info. info.name;
    object_key = λ o. o.name;
  }

  unfoldable pub pods_watch : Watch (Pod Q) (PodInfo R)
  pods_watch = record {
    resource = "pods";
    to_model = pod_to_model q;
    info_key = λ info. ns_name_key info.namespace info.name;
    object_key = λ o. ns_name_key o.namespace o.name;
  }

  unfoldable pub cron_jobs_watch : Watch (CronJob Q) (CronJobInfo R)
  cron_jobs_watch = record {
    resource = "cronjobs";
    to_model = cron_job_to_model q;
    info_key = λ info. ns_name_key info.namespace info.name;
    object_key = λ o. ns_name_key o.meta.namespace o.meta.name;
  }

  unfoldable pub hpas_watch : Watch (HorizontalPodAutoscaler Q) HpaInfo
  hpas_watch = record {
    resource = "hpas";
    to_model = hpa_to_model q;
    info_key = λ info. ns_name_key info.namespace info.name;
    object_key = λ o. ns_name_key o.meta.namespace o.meta.name;
  }

  unfoldable pub pvs_watch : Watch (PersistentVolume Q) PvInfo
  pvs_watch = record {
    resource = "pvs";
    to_model = pv_to_model q;
    info_key = λ info. info.name;
    object_key = λ o. o.meta.name;
  }

  unfoldable pub pvcs_watch : Watch (PersistentVolumeClaim Q) PvcInfo
  pvcs_watch = record {
    resource = "pvcs";
    to_model = pvc_to_model q;
    info_key = λ info. ns_name_key info.namespace info.name;
    object_key = λ o. ns_name_key o.meta.namespace o.meta.name;
  }

  unfoldable pub limit_ranges_watch : Watch (LimitRange Q) LimitRangeInfo
  limit_ranges_watch = record {
    resource = "limitranges";
    to_model = limit_range_to_model q;
    info_key = λ info. ns_name_key info.namespace info.name;
    object_key = λ o. ns_name_key o.meta.namespace o.meta.name;
  }

  unfoldable pub resource_quotas_watch : Watch (ResourceQuota Q) ResourceQuotaInfo
  resource_quotas_watch = record {
    resource = "resourcequotas";
    to_model = resource_quota_to_model q;
    info_key = λ info. ns_name_key info.namespace info.name;
    object_key = λ o. ns_name_key o.meta.namespace o.meta.name;
  }

module _ {Q R : Type 0} (fl : Float64 R) (q : Quantities Q R) where
  unfoldable pub deployments_watch : Watch (Deployment Q) (WorkloadInfo R)
  deployments_watch = record {
    resource = "deployments";
    to_model = deployment_to_model fl q;
    info_key = λ info. ns_name_key info.namespace info.name;
    object_key = λ o. ns_name_key o.meta.namespace o.meta.name;
  }

  unfoldable pub stateful_sets_watch : Watch (StatefulSet Q) (WorkloadInfo R)
  stateful_sets_watch = record {
    resource = "statefulsets";
    to_model = stateful_set_to_model fl q;
    info_key = λ info. ns_name_key info.namespace info.name;
    object_key = λ o. ns_name_key o.meta.namespace o.meta.name;
  }

  unfoldable pub daemon_sets_watch : Watch (DaemonSet Q) (WorkloadInfo R)
  daemon_sets_watch = record {
    resource = "daemonsets";
    to_model = daemon_set_to_model fl q;
    info_key = λ info. ns_name_key info.namespace info.name;
    object_key = λ o. ns_name_key o.meta.namespace o.meta.name;
  }

  unfoldable pub vpas_watch : Watch (Unstructured R) (VpaInfo R)
  vpas_watch = record {
    resource = "vpas";
    to_model = vpa_to_model fl q;
    info_key = λ info. ns_name_key info.namespace info.name;
    object_key = λ o. ns_name_key o.meta.namespace o.meta.name;
  }

module _ {Q R : Type 0} (fl : Float64 R) (float_of : ℤ → R) (q : Quantities Q R) where
  unfoldable pub jobs_watch : Watch (Job Q) (JobInfo R)
  jobs_watch = record {
    resource = "jobs";
    to_model = job_to_model fl float_of q;
    info_key = λ info. ns_name_key info.namespace info.name;
    object_key = λ o. ns_name_key o.meta.namespace o.meta.name;
  }
