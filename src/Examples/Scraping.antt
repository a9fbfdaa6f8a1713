-- ===== src/Examples/Scraping.antt =====
-- The exposition format of dcgm-exporter and the merge of its readings at concrete inputs.
use kubeadapt_agent.Prelude.{
  All-any, ℕ, ◌≡◌, refl, false, none, some, Option, List, [], ◌∷◌, ℕ_eq, bytes_comparable, map,
  if◌then◌else◌, ◌==◌,
}
use kubeadapt_agent.GoMap.{lookup}
use kubeadapt_agent.Transport.Message.{Text, text}
use kubeadapt_agent.Dcgm.Labels.{no_labels}
use kubeadapt_agent.Dcgm.Labels.RoundTrip.{print_labels, set_labels, HasKeys}
use kubeadapt_agent.Dcgm.Lines.{ParsedSample, is_space, parse_sample_line}
use kubeadapt_agent.Dcgm.Lines.Sample.{print_sample, parse_sample_line-print}
use kubeadapt_agent.Dcgm.Devices.{
  GpuDeviceMetrics, new_device, gather, metric_prof_gr_engine_active, metric_dev_gpu_util,
}
use kubeadapt_agent.Dcgm.Devices.Utilization.{utilization, last_value, preferred, utilization_lem}
use kubeadapt_agent.Snapshot.Gpu.{merge_gpu_node_metrics}
use kubeadapt_agent.Snapshot.Gpu.Readings.Nodes.{with_readings}
use kubeadapt_agent.Snapshot.Gpu.Containers.{merge_gpu_container_metrics}
use kubeadapt_agent.Snapshot.Gpu.Direct.{
  hosted, with_attached, merge_gpu_node_metrics_lem, merge_gpu_container_metrics_lem,
}
use kubeadapt_agent.Examples.Data.{whole, pods, nodes}

-- Two labels; the value of the first holds a quote, a comma and a brace.
abbrev pub pairs : List (Text × Text)
pairs = (text "gpu", text "0\",}") ∷ (text "UUID", text "GPU-1") ∷ []

abbrev pub answer_float : Text → Option ℕ
answer_float s = if s == text "42" then some 42 else none

pairs-HasKeys : HasKeys pairs
pairs-HasKeys =
    (All-any (λ c. c == b'=') (text "gpu") refl, (All-any (λ c. c == b'=') (text "UUID") refl, tt))

parse_sample_line-print_example :
    parse_sample_line answer_float (
      print_sample
        (text "DCGM_FI_DEV_GPU_UTIL")
        (print_labels false pairs)
        (text "42")
        (some (text "1700")))
    ≡ some (record {
      name = text "DCGM_FI_DEV_GPU_UTIL";
      labels = set_labels pairs no_labels;
      value = 42;
    })
parse_sample_line-print_example =
    parse_sample_line-print answer_float false (text "DCGM_FI_DEV_GPU_UTIL") pairs (text "42")
      (some (text "1700")) 42 (All-any (λ c. c == b'{') (text "DCGM_FI_DEV_GPU_UTIL") refl)
      pairs-HasKeys (refl, All-any is_space (text "42") refl)
      (All-any (λ c. c == b'}') (text "42") refl) (All-any (λ c. c == b'}') (text " 1700") refl)
      refl

abbrev pub sample_named : Text → ℕ → ParsedSample ℕ
sample_named name value = record { name = name; labels = set_labels pairs no_labels; value = value }

-- The profiling value comes first, and stays.
abbrev pub gpu_samples : List (ParsedSample ℕ)
gpu_samples = sample_named metric_prof_gr_engine_active 1 ∷ sample_named metric_dev_gpu_util 30 ∷ []

utilization_example :
    utilization whole
      (lookup (text "GPU-1") (gather whole gpu_samples (record { gpus = []; has_prof = [] })).gpus)
    ≡ preferred whole
        (last_value whole (text "GPU-1") metric_prof_gr_engine_active none gpu_samples)
        (last_value whole (text "GPU-1") metric_dev_gpu_util none gpu_samples)
utilization_example = utilization_lem whole (text "GPU-1") gpu_samples

-- A device on a node, used by a container.
abbrev pub device : GpuDeviceMetrics ℕ
device = record (new_device no_labels) {
  uuid = text "GPU-1";
  hostname = text "node-a";
  pod_name = text "web-1";
  namespace = text "shop";
  container_name = text "app";
  gpu_utilization = some 40;
  memory_used_bytes = some 512;
}

merge_gpu_node_metrics_example :
    merge_gpu_node_metrics whole nodes (device ∷ device ∷ [])
    ≡ map (λ n. with_readings whole (hosted whole n (device ∷ device ∷ [])) n) nodes
merge_gpu_node_metrics_example = merge_gpu_node_metrics_lem whole nodes (device ∷ device ∷ [])

merge_gpu_container_metrics_example :
    merge_gpu_container_metrics whole pods (device ∷ [])
    ≡ map (with_attached whole (device ∷ [])) pods
merge_gpu_container_metrics_example = merge_gpu_container_metrics_lem whole pods (device ∷ [])
