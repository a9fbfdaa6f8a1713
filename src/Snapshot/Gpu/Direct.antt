-- ===== src/Snapshot/Gpu/Direct.antt =====
-- The merged readings against a direct search of the devices and a direct account of their readings.
use kubeadapt_agent.Prelude.{
  ◌≡◌, refl, sym, ap, ◌∙◌, not, ◌&&◌, ◌||◌, some, List, [], ◌∷◌, map, ◌==◌, ℕ_eq, bytes_comparable,
  is_empty, keep, keep-keep, map_same, map_id, Bool-cases, inl, inr,
}
use kubeadapt_agent.GoMap.{GoMap, lookup, insert, get_or, lookup-insert}
use kubeadapt_agent.GoMap.Index.{get_or-group_from}
use kubeadapt_agent.Model.{Float64}
use kubeadapt_agent.Model.Node.{NodeInfo}
use kubeadapt_agent.Model.Pod.{PodInfo, ContainerInfo}
use kubeadapt_agent.Transport.Message.{text}
use kubeadapt_agent.Dcgm.Devices.{GpuDeviceMetrics}
use kubeadapt_agent.Snapshot.Gpu.{with_devices, by_node, merge_gpu_node_metrics}
use kubeadapt_agent.Snapshot.Gpu.Readings.Nodes.{with_readings, with_devices_lem}
use kubeadapt_agent.Snapshot.Gpu.Readings.Containers.{
  summed, with_container_readings, with_container_gpu_lem,
}
use kubeadapt_agent.Snapshot.Gpu.Containers.{
  ContainerKey, ContainerKey_eq, ContainerGpu, container_key, names_container, add_to_container,
  found_or_no_gpu, container_index, with_container_gpu, key_in, with_pod_gpu,
  merge_gpu_container_metrics,
}

module _ {R : Type 0} (fl : Float64 R) where
  -- The devices of a node: those that name it as their host.
  abbrev pub hosted : NodeInfo R → List (GpuDeviceMetrics R) → List (GpuDeviceMetrics R)
  hosted n ms = keep (λ m. not (is_empty m.hostname) && m.hostname == text n.name) ms

  by_node-hosted :
      (n : NodeInfo R) (ms : List (GpuDeviceMetrics R))
      → get_or [] (text n.name) (by_node fl ms) ≡ hosted n ms
  unfolding get_or lookup
  by_node-hosted n ms =
      get_or-group_from (λ (m : GpuDeviceMetrics R). m.hostname) (text n.name) []
        (keep (λ m. not (is_empty m.hostname)) ms)
      ∙ keep-keep _ _ ms

  merge_gpu_node_metrics-hosted :
      (nodes : List (NodeInfo R)) (ms : List (GpuDeviceMetrics R))
      → merge_gpu_node_metrics fl nodes ms ≡ map (λ n. with_devices fl (hosted n ms) n) nodes
  unfolding merge_gpu_node_metrics with_devices
  merge_gpu_node_metrics-hosted nodes [] = sym (map_id nodes)
  merge_gpu_node_metrics-hosted nodes (m ∷ ms) =
      map_same _ _ (λ n. ap (λ ds. with_devices fl ds n) (by_node-hosted n (m ∷ ms))) nodes

  -- For every list of nodes and of devices: each node lists the devices that name it as their host,
  -- in order, with the model and the driver of the first of them, whether one of them is split, the
  -- means of their utilizations, the sums of their memory modulo 2 ^ 64 if positive, the highest
  -- temperature above zero and the sum of the power; where no such device has a reading, and for a
  -- node with no device, what was there stays.
  pub merge_gpu_node_metrics_lem :
      (nodes : List (NodeInfo R)) (ms : List (GpuDeviceMetrics R))
      → merge_gpu_node_metrics fl nodes ms ≡ map (λ n. with_readings fl (hosted n ms) n) nodes
  merge_gpu_node_metrics_lem nodes ms =
      merge_gpu_node_metrics-hosted nodes ms
      ∙ map_same _ _ (λ n. with_devices_lem fl (hosted n ms) n) nodes

  -- The devices of a container: those that name it in full.
  abbrev pub attached : ContainerKey → List (GpuDeviceMetrics R) → List (GpuDeviceMetrics R)
  attached k ms = keep (λ m. names_container fl m && container_key fl m == k) ms

  lookup-container_index :
      (k : ContainerKey) (index : GoMap ContainerKey (ContainerGpu R))
      (ms : List (GpuDeviceMetrics R))
      → lookup k (container_index fl index ms) ≡ summed fl (lookup k index) (attached k ms)
  unfolding container_index
  lookup-container_index k index [] = refl
  lookup-container_index k index (m ∷ ms) =
      let key = container_key fl m in
      let g = add_to_container fl m (found_or_no_gpu fl (lookup key index)) in
      let put = lookup-insert key k g index in
      elim (Bool-cases (names_container fl m)) [
        | inr unnamed ↦ rw unnamed (lookup-container_index k index ms)
        | inl named ↦ rw named (elim (Bool-cases (key == k)) [
          | inr other ↦ rw other (
              lookup-container_index k (insert key g index) ms
              ∙ ap (λ o. summed fl o (attached k ms)) (put ∙ rw other))
          | inl same ↦ rw same (
              lookup-container_index k (insert key g index) ms
              ∙ ap (λ o. summed fl o (attached k ms))
                  (put
                    ∙ rw same (
                        ap (λ j. some (add_to_container fl m (found_or_no_gpu fl (lookup j index))))
                          ((ContainerKey_eq.equal_iff key k).0 same))))
        ])
      ]

  -- The devices that name a container, its pod and its namespace.
  abbrev pub devices_of :
      PodInfo R → ContainerInfo R → List (GpuDeviceMetrics R) → List (GpuDeviceMetrics R)
  devices_of p c ms =
      keep
        (λ m.
          not (is_empty m.pod_name || is_empty m.namespace || is_empty m.container_name)
          && (m.namespace == text p.namespace
              && m.pod_name == text p.name
              && m.container_name == text c.name))
        ms

  abbrev pub with_attached : List (GpuDeviceMetrics R) → PodInfo R → PodInfo R
  with_attached ms p = record p {
    containers = map (λ c. with_container_readings fl (devices_of p c ms) c) p.containers;
  }

  container_lem :
      (ms : List (GpuDeviceMetrics R)) (p : PodInfo R) (c : ContainerInfo R)
      → with_container_gpu fl (lookup (key_in fl p c) (container_index fl [] ms)) c
        ≡ with_container_readings fl (devices_of p c ms) c
  unfolding lookup
  container_lem ms p c =
      ap (λ o. with_container_gpu fl o c) (lookup-container_index (key_in fl p c) [] ms)
      ∙ with_container_gpu_lem fl (devices_of p c ms) c

  -- For every list of pods and of devices, the merged pods are the pods in order; in each, a
  -- container has the mean of the utilizations and the sum, modulo 2 ^ 64, of the memory of the
  -- devices that name its namespace, pod and container; where no such device has a reading, what
  -- was there stays, and so does the rest of the pod.
  pub merge_gpu_container_metrics_lem :
      (pods : List (PodInfo R)) (ms : List (GpuDeviceMetrics R))
      → merge_gpu_container_metrics fl pods ms ≡ map (with_attached ms) pods
  unfolding merge_gpu_container_metrics with_pod_gpu
  merge_gpu_container_metrics_lem pods [] = sym (
      map_same _ _ (λ p. ap (λ cs. record p { containers = cs }) (map_id p.containers)) pods
      ∙ map_id pods)
  merge_gpu_container_metrics_lem pods (m ∷ ms) =
      map_same _ _
        (λ p.
          ap (λ cs. record p { containers = cs })
            (map_same _ _ (container_lem (m ∷ ms) p) p.containers))
        pods
