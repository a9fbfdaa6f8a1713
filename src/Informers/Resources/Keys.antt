-- ===== src/Informers/Resources/Keys.antt =====
-- Every collector deletes an object under the key under which it stored it.
use kubeadapt_agent.Prelude.{refl}
use kubeadapt_agent.Prelude.Int.{ℤ}
use kubeadapt_agent.Model.{Float64}
use kubeadapt_agent.Convert.Api.{Quantities}
use kubeadapt_agent.Convert.Pods.{pod_to_model}
use kubeadapt_agent.Convert.Nodes.{node_to_model}
use kubeadapt_agent.Convert.Workloads.{
  deployment_to_model, stateful_set_to_model, daemon_set_to_model, replica_set_to_model,
}
use kubeadapt_agent.Convert.Jobs.{job_to_model, cron_job_to_model, pdb_to_model}
use kubeadapt_agent.Convert.Hpa.{hpa_to_model}
use kubeadapt_agent.Convert.Vpa.{vpa_to_model}
use kubeadapt_agent.Convert.NodePools.{node_pool_to_model}
use kubeadapt_agent.Convert.Network.{service_to_model, ingress_to_model}
use kubeadapt_agent.Convert.Storage.{pv_to_model, pvc_to_model, storage_class_to_model}
use kubeadapt_agent.Convert.Scheduling.{
  namespace_to_model, priority_class_to_model, limit_range_to_model, resource_quota_to_model,
}
use kubeadapt_agent.Informers.Mirror.{KeepsKey}
use kubeadapt_agent.Informers.Resources.{
  nodes_watch, pods_watch, namespaces_watch, deployments_watch, stateful_sets_watch,
  daemon_sets_watch, replica_sets_watch, jobs_watch, cron_jobs_watch, hpas_watch, vpas_watch,
  pdbs_watch, services_watch, ingresses_watch, pvs_watch, pvcs_watch, storage_classes_watch,
  priority_classes_watch, limit_ranges_watch, resource_quotas_watch, node_pools_watch,
}

module _ {Q R : Type 0} (fl : Float64 R) (float_of : ℤ → R) (int_of_float : R → ℤ)
    (q : Quantities Q R) where
  -- For each of the 21 resources, the conversion leaves the name, and the namespace where there is
  -- one, so the key that Set gets from the converted object is the key that Delete makes of the
  -- object itself.
  pub watches_keep_keys :
      KeepsKey (nodes_watch q)
      × KeepsKey (pods_watch q)
      × KeepsKey namespaces_watch
      × KeepsKey (deployments_watch fl q)
      × KeepsKey (stateful_sets_watch fl q)
      × KeepsKey (daemon_sets_watch fl q)
      × KeepsKey replica_sets_watch
      × KeepsKey (jobs_watch fl float_of q)
      × KeepsKey (cron_jobs_watch q)
      × KeepsKey (hpas_watch q)
      × KeepsKey (vpas_watch fl q)
      × KeepsKey pdbs_watch
      × KeepsKey services_watch
      × KeepsKey ingresses_watch
      × KeepsKey (pvs_watch q)
      × KeepsKey (pvcs_watch q)
      × KeepsKey storage_classes_watch
      × KeepsKey priority_classes_watch
      × KeepsKey (limit_ranges_watch q)
      × KeepsKey (resource_quotas_watch q)
      × KeepsKey (node_pools_watch int_of_float)
  unfolding nodes_watch pods_watch namespaces_watch deployments_watch stateful_sets_watch
      daemon_sets_watch replica_sets_watch jobs_watch cron_jobs_watch hpas_watch vpas_watch
      pdbs_watch services_watch ingresses_watch pvs_watch pvcs_watch storage_classes_watch
      priority_classes_watch limit_ranges_watch resource_quotas_watch node_pools_watch pod_to_model
      node_to_model deployment_to_model stateful_set_to_model daemon_set_to_model
      replica_set_to_model job_to_model cron_job_to_model pdb_to_model hpa_to_model vpa_to_model
      node_pool_to_model service_to_model ingress_to_model pv_to_model pvc_to_model
      storage_class_to_model namespace_to_model priority_class_to_model limit_range_to_model
      resource_quota_to_model
  watches_keep_keys = (
    λ o. refl,
    λ o. refl,
    λ o. refl,
    λ o. refl,
    λ o. refl,
    λ o. refl,
    λ o. refl,
    λ o. refl,
    λ o. refl,
    λ o. refl,
    λ o. refl,
    λ o. refl,
    λ o. refl,
    λ o. refl,
    λ o. refl,
    λ o. refl,
    λ o. refl,
    λ o. refl,
    λ o. refl,
    λ o. refl,
    λ o. refl,
  )
