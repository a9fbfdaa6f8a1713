-- ===== src/Dcgm/Devices.antt =====
-- internal/collector/gpu/parser.go: ParseDCGMMetrics, which gathers the samples of each device.
pub mod Utilization
use kubeadapt_agent.Prelude.{
  ℕ, Bool, true, false, Option, none, some, List, [], ◌∷◌, if◌then◌else◌, ◌==◌, ◌&&◌, ℕ_eq,
  bytes_comparable, is_empty, map,
}
use kubeadapt_agent.Prelude.Int.{add64}
use kubeadapt_agent.GoMap.{GoMap, lookup, insert, get_or, values}
use kubeadapt_agent.Model.{Float64}
use kubeadapt_agent.Transport.Message.{Text, text}
use kubeadapt_agent.Dcgm.Labels.{DcgmLabels}
use kubeadapt_agent.Dcgm.Lines.{ParsedSample, parse_prometheus_text}

pub record GpuDeviceMetrics (R : Type 0) : Type 0 where
  pub gpu : Text
  pub uuid : Text
  pub device : Text
  pub model_name : Text
  pub driver_version : Text
  pub hostname : Text
  pub pod_name : Text
  pub namespace : Text
  pub container_name : Text
  pub mig_enabled : Option Bool
  pub gpu_instance_id : Text
  pub gpu_profile : Text
  pub gpu_utilization : Option R
  pub tensor_active_percent : Option R
  pub mem_copy_util_percent : Option R
  pub memory_used_bytes : Option ℕ
  pub memory_free_bytes : Option ℕ
  pub memory_total_bytes : Option ℕ
  pub temperature : Option R
  pub power_usage : Option R
  pub timestamp : ℕ

abbrev pub metric_prof_gr_engine_active : Text
metric_prof_gr_engine_active = text "DCGM_FI_PROF_GR_ENGINE_ACTIVE"

abbrev pub metric_dev_gpu_util : Text
metric_dev_gpu_util = text "DCGM_FI_DEV_GPU_UTIL"

abbrev pub new_device : {R : Type 0} → DcgmLabels → GpuDeviceMetrics R
new_device l = record {
  gpu = l.gpu;
  uuid = l.uuid;
  device = l.device;
  model_name = l.model_name;
  driver_version = l.driver_version;
  hostname = l.hostname;
  pod_name = l.pod_name;
  namespace = l.namespace;
  container_name = l.container_name;
  mig_enabled = none;
  gpu_instance_id = l.gpu_instance_id;
  gpu_profile = l.gpu_profile;
  gpu_utilization = none;
  tensor_active_percent = none;
  mem_copy_util_percent = none;
  memory_used_bytes = none;
  memory_free_bytes = none;
  memory_total_bytes = none;
  temperature = none;
  power_usage = none;
  timestamp = 0;
}

abbrev pub found_or_new :
    {R : Type 0} → Option (GpuDeviceMetrics R) → DcgmLabels → GpuDeviceMetrics R
found_or_new none l = new_device l
found_or_new (some g) l = g

-- The two maps of ParseDCGMMetrics.
pub record Devices (R : Type 0) : Type 0 where
  pub gpus : GoMap Text (GpuDeviceMetrics R)
  pub has_prof : GoMap Text Bool

abbrev pub key_of : DcgmLabels → Text
key_of l = if is_empty l.uuid then l.gpu else l.uuid

module _ {R : Type 0} (fl : Float64 R) where
  open fl use {of_int, times, less, same, to_int64}

  -- 1e15
  abbrev pub is_sentinel : R → Bool
  is_sentinel v = less (of_int 1000000000000000) v

  abbrev pub mib_to_bytes : R → ℕ
  mib_to_bytes v = to_int64 (times v (of_int 1048576))

  -- The switch, for a value that is not a sentinel; `prof` is hasProf[key].
  unfoldable pub measure : Bool → Text → R → GpuDeviceMetrics R → GpuDeviceMetrics R
  measure prof name v g =
      if name == metric_prof_gr_engine_active
      then record g { gpu_utilization = some (times v (of_int 100)) }
      else if name == metric_dev_gpu_util
      then if prof then g else record g { gpu_utilization = some v }
      else if name == text "DCGM_FI_PROF_PIPE_TENSOR_ACTIVE"
      then record g { tensor_active_percent = some (times v (of_int 100)) }
      else if name == text "DCGM_FI_DEV_MEM_COPY_UTIL"
      then record g { mem_copy_util_percent = some v }
      else if name == text "DCGM_FI_DEV_FB_USED"
      then record g { memory_used_bytes = some (mib_to_bytes v) }
      else if name == text "DCGM_FI_DEV_FB_FREE"
      then record g { memory_free_bytes = some (mib_to_bytes v) }
      else if name == text "DCGM_FI_DEV_FB_TOTAL"
      then record g { memory_total_bytes = some (mib_to_bytes v) }
      else if name == text "DCGM_FI_DEV_GPU_TEMP"
      then record g { temperature = some v }
      else if name == text "DCGM_FI_DEV_POWER_USAGE"
      then record g { power_usage = some v }
      else if name == text "DCGM_FI_DEV_MIG_MODE"
      then record g { mig_enabled = some (same v (of_int 1)) }
      else g

  abbrev pub has_key_label : ParsedSample R → Bool
  has_key_label s =
      if is_empty s.labels.uuid then (if is_empty s.labels.gpu then false else true) else true

  -- One round for a sample with a key: each case of the switch leaves the device alone at a
  -- sentinel value.
  unfoldable pub add_measure : ParsedSample R → Devices R → Devices R
  add_measure s d =
      let key = key_of s.labels in
      let g = found_or_new (lookup key d.gpus) s.labels in
      let measured = measure (get_or false key d.has_prof) s.name s.value g in
      let blank = is_sentinel s.value in
      record {
        gpus = insert key (if blank then g else measured) d.gpus;
        has_prof =
            if blank
            then d.has_prof
            else if s.name == metric_prof_gr_engine_active
            then insert key true d.has_prof
            else d.has_prof;
      }

  unfoldable pub gather : List (ParsedSample R) → Devices R → Devices R
  gather [] d = d
  gather (s ∷ samples) d = gather samples (if has_key_label s then add_measure s d else d)

  abbrev pub total_of : Option ℕ → Option ℕ → Option ℕ → Option ℕ
  total_of (some t) used free = some t
  total_of none (some u) (some f) = some (add64 u f)
  total_of none (some u) none = none
  total_of none none free = none

  -- The body of the loop over the devices.
  abbrev pub with_total : GpuDeviceMetrics R → GpuDeviceMetrics R
  with_total g = record g {
    memory_total_bytes = total_of g.memory_total_bytes g.memory_used_bytes g.memory_free_bytes;
  }

  unfoldable pub parse_dcgm_metrics : (Text → Option R) → Text → List (GpuDeviceMetrics R)
  parse_dcgm_metrics parse_float content = map with_total (
      values
        (gather (parse_prometheus_text parse_float content)
          (record { gpus = []; has_prof = [] })).gpus)
