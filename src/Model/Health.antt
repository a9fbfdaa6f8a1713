-- ===== src/Model/Health.antt =====
-- pkg/model/snapshot.go: AgentHealth.
use kubeadapt_agent.Prelude.{ℕ, Bool, false, List, [], String}

pub record AgentHealth (R : Type 0) : Type 0 where
  pub snapshots_sent_total : ℕ
  pub snapshots_failed_total : ℕ
  pub snapshots_total_count : ℕ
  pub snapshots_sent_delta : ℕ
  pub snapshots_failed_delta : ℕ
  pub state : String
  pub state_reason : List ℕ
  pub last_build_duration_ms : ℕ
  pub last_metrics_collect_duration_ms : ℕ
  pub last_send_duration_ms : ℕ
  pub encode_duration_ms : ℕ
  pub original_size_bytes : ℕ
  pub compressed_size_bytes : ℕ
  pub compression_factor : R
  pub node_count : ℕ
  pub pod_count : ℕ
  pub container_count : ℕ
  pub workload_count : ℕ
  pub service_count : ℕ
  pub hpa_count : ℕ
  pub pdb_count : ℕ
  pub pv_count : ℕ
  pub metrics_server_available : Bool
  pub vpa_available : Bool
  pub karpenter_available : Bool
  pub gpu_metrics_available : Bool
  pub dcgm_exporter_targets : ℕ
  pub dcgm_exporter_up_targets : ℕ
  pub informers_synced : Bool
  pub informers_healthy : ℕ
  pub informers_total : ℕ
  pub stale_resources : List String
  pub api_calls_total : ℕ
  pub api_calls_failed_count : ℕ
  pub active_errors_count : ℕ
  pub error_codes : List String
  pub uptime_seconds : ℕ
  pub started_at : ℕ
  pub collected_at : ℕ
  pub chart_version : String
  pub helm_release_name : String
  pub pod_name : String
  pub pod_namespace : String
  pub node_name : String

-- The zero value of the struct.
abbrev pub zero_health : {R : Type 0} → R → AgentHealth R
zero_health z = record {
  snapshots_sent_total = 0;
  snapshots_failed_total = 0;
  snapshots_total_count = 0;
  snapshots_sent_delta = 0;
  snapshots_failed_delta = 0;
  state = "";
  state_reason = [];
  last_build_duration_ms = 0;
  last_metrics_collect_duration_ms = 0;
  last_send_duration_ms = 0;
  encode_duration_ms = 0;
  original_size_bytes = 0;
  compressed_size_bytes = 0;
  compression_factor = z;
  node_count = 0;
  pod_count = 0;
  container_count = 0;
  workload_count = 0;
  service_count = 0;
  hpa_count = 0;
  pdb_count = 0;
  pv_count = 0;
  metrics_server_available = false;
  vpa_available = false;
  karpenter_available = false;
  gpu_metrics_available = false;
  dcgm_exporter_targets = 0;
  dcgm_exporter_up_targets = 0;
  informers_synced = false;
  informers_healthy = 0;
  informers_total = 0;
  stale_resources = [];
  api_calls_total = 0;
  api_calls_failed_count = 0;
  active_errors_count = 0;
  error_codes = [];
  uptime_seconds = 0;
  started_at = 0;
  collected_at = 0;
  chart_version = "";
  helm_release_name = "";
  pod_name = "";
  pod_namespace = "";
  node_name = "";
}
