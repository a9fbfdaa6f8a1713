-- ===== src/Convert/Pods/Statuses.antt =====
-- Which status a converted container gets.
use kubeadapt_agent.Prelude.{◌≡◌, ap, none, List, [], String_eq, map, map_same}
use kubeadapt_agent.GoMap.{lookup}
use kubeadapt_agent.GoMap.Index.{find_last, lookup-index_from}
use kubeadapt_agent.Model.Pod.{ContainerInfo}
use kubeadapt_agent.Convert.Api.{Quantities, ContainerStatus, ContainerSpec, Pod}
use kubeadapt_agent.Convert.Pods.{
  build_status_map, container_to_model, convert_containers, pod_to_model,
}

module _ {Q R : Type 0} (q : Quantities Q R) where
  -- The specs in order, each with the last status of its name.
  abbrev pub with_last_status :
      List (ContainerSpec Q) → List ContainerStatus → List (ContainerInfo R)
  with_last_status specs statuses =
      map (λ spec. container_to_model q (find_last (λ s. s.name) spec.name none statuses) spec)
        specs

  convert_containers-build_status_map :
      (specs : List (ContainerSpec Q)) (statuses : List ContainerStatus)
      → convert_containers q specs (build_status_map statuses) ≡ with_last_status specs statuses
  unfolding convert_containers build_status_map lookup
  convert_containers-build_status_map specs statuses =
      map_same _ _
        (λ spec.
          ap (λ o. container_to_model q o spec)
            (lookup-index_from (λ s. s.name) spec.name [] statuses))
        specs

  -- PodToModel gives a container for each container spec of the pod, in order, with the last status
  -- of its name among the container statuses, and the same for the init containers with their own
  -- statuses; a status with no spec is left out.
  pub pod_to_model_containers :
      (pod : Pod Q)
      → ((pod_to_model q pod).containers ≡ with_last_status pod.containers pod.container_statuses)
        × ((pod_to_model q pod).init_containers
            ≡ with_last_status pod.init_containers pod.init_container_statuses)
  unfolding pod_to_model
  pod_to_model_containers pod = (
    convert_containers-build_status_map pod.containers pod.container_statuses,
    convert_containers-build_status_map pod.init_containers pod.init_container_statuses,
  )
