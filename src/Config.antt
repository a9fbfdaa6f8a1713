-- ===== src/Config.antt =====
-- internal/config/config.go and validate.go: the configuration, from the environment. A malformed
-- value reads as the default; time.ParseDuration is a parameter.
pub mod Numbers
pub mod Validity
pub mod Startup
use kubeadapt_agent.Prelude.{
  ℕ, suc, ◌*◌, ◌+◌, ◌-◌, Bool, true, false, not, ◌&&◌, ◌||◌, Option, none, some, List, [], ◌∷◌,
  ◌++◌, String, String_eq, ℕ_eq, if◌then◌else◌, ◌==◌, is_empty,
}
use kubeadapt_agent.Prelude.Int.{ℤ, pos, negsuc, ltb_ℤ}
use kubeadapt_agent.Clock.{Duration, second, seconds}
use kubeadapt_agent.Transport.Message.{Text, text, has_prefix}
use kubeadapt_agent.Dcgm.Lines.{trim_space}
use kubeadapt_agent.Config.Numbers.{atoi, parse_bool_text}

pub record Environment : Type 0 where
  pub getenv : String → String
  pub duration_of : Text → Option Duration

pub record Config : Type 0 where
  pub api_key : String
  pub backend_url : String
  pub snapshot_interval : Duration
  pub metrics_interval : Duration
  pub informer_resync_period : Duration
  pub informer_sync_timeout : Duration
  pub compression_level : ℤ
  pub max_retries : ℤ
  pub request_timeout : Duration
  pub buffer_max_bytes : ℤ
  pub health_port : ℤ
  pub agent_version : String
  pub kubernetes_version : String
  pub max_compressed_body_bytes : ℤ
  pub chart_version : String
  pub helm_release_name : String
  pub pod_name : String
  pub pod_namespace : String
  pub node_name : String
  pub allow_insecure : Bool
  pub debug_endpoints : Bool
  pub gpu_metrics_enabled : Bool
  pub dcgm_exporter_port : ℤ
  pub dcgm_exporter_namespace : String
  pub dcgm_exporter_endpoints : List Text
  pub gpu_metrics_interval : Duration

-- n * time.Second
abbrev pub secs : ℕ → Duration
secs n = pos (n * second)

abbrev pub non_empty_or : String → String → String
non_empty_or v other = if v == "" then other else v

abbrev pub value_or {ℓ} : {A : Type ℓ} → Option A → A → A
value_or none default_val = default_val
value_or (some a) default_val = a

-- strings.Split by one byte, with the part that is read so far.
unfoldable pub split_from : ℕ → Text → Text → List Text
split_from b part [] = part ∷ []
split_from b part (c ∷ s) =
    let next = split_from b [] s in
    let same = split_from b (part ++ c ∷ []) s in if c == b then part ∷ next else same

-- The loop of parseStringSlice.
unfoldable pub non_blank : List Text → List Text
non_blank [] = []
non_blank (s ∷ ss) =
    let rest = non_blank ss in if is_empty (trim_space s) then rest else trim_space s ∷ rest

-- parseDuration for a value that is not empty.
abbrev pub duration_or_seconds : Option Duration → Option ℤ → Duration → Duration
duration_or_seconds (some d) n default_val = d
duration_or_seconds none (some n) default_val = seconds n
duration_or_seconds none none default_val = default_val

module _ (env : Environment) where
  open env use {getenv, duration_of}

  unfoldable pub env_or_default : String → String → String
  env_or_default key default_val = non_empty_or (getenv key) default_val

  unfoldable pub env_or_fallback : String → String → String
  env_or_fallback primary fallback = non_empty_or (getenv primary) (getenv fallback)

  unfoldable pub env_or_fallback_or_default : String → String → String → String
  env_or_fallback_or_default primary fallback default_val =
      non_empty_or (getenv primary) (non_empty_or (getenv fallback) default_val)

  unfoldable pub parse_duration : String → Duration → Duration
  parse_duration key default_val =
      let v = getenv key in
      if v == ""
      then default_val
      else duration_or_seconds (duration_of (text v)) (atoi (text v)) default_val

  unfoldable pub parse_bool : String → Bool → Bool
  parse_bool key default_val =
      let v = getenv key in
      if v == "" then default_val else value_or (parse_bool_text (text v)) default_val

  unfoldable pub parse_int : String → ℤ → ℤ
  parse_int key default_val =
      let v = getenv key in if v == "" then default_val else value_or (atoi (text v)) default_val

  -- strconv.ParseInt in base 10 with 64 bits reads what Atoi reads, where an int has 64 bits.
  unfoldable pub parse_int64 : String → ℤ → ℤ
  parse_int64 key default_val =
      let v = getenv key in if v == "" then default_val else value_or (atoi (text v)) default_val

  unfoldable pub parse_string_slice : String → List Text
  parse_string_slice key =
      let v = getenv key in if v == "" then [] else non_blank (split_from b',' [] (text v))

  unfoldable pub load : Config
  load = record {
    api_key = env_or_fallback "KUBEADAPT_API_KEY" "KUBEADAPT_AGENT_TOKEN";
    backend_url =
        env_or_fallback_or_default "KUBEADAPT_BACKEND_URL" "KUBEADAPT_BACKEND_API_ENDPOINT"
          "https://agent.kubeadapt.io";
    snapshot_interval = parse_duration "KUBEADAPT_SNAPSHOT_INTERVAL" (secs 60);
    metrics_interval = parse_duration "KUBEADAPT_METRICS_INTERVAL" (secs 60);
    informer_resync_period = parse_duration "KUBEADAPT_INFORMER_RESYNC" (secs 300);
    informer_sync_timeout = parse_duration "KUBEADAPT_INFORMER_SYNC_TIMEOUT" (secs 300);
    compression_level = parse_int "KUBEADAPT_COMPRESSION_LEVEL" (pos 3);
    max_retries = parse_int "KUBEADAPT_MAX_RETRIES" (pos 5);
    request_timeout = parse_duration "KUBEADAPT_REQUEST_TIMEOUT" (secs 30);
    buffer_max_bytes = parse_int64 "KUBEADAPT_BUFFER_MAX_BYTES" (pos 52428800);
    health_port = parse_int "KUBEADAPT_HEALTH_PORT" (pos 8080);
    max_compressed_body_bytes = parse_int64 "KUBEADAPT_MAX_COMPRESSED_BODY_BYTES" (pos 52428800);
    agent_version = "";
    kubernetes_version = "";
    chart_version = getenv "KUBEADAPT_CHART_VERSION";
    helm_release_name = getenv "HELM_RELEASE_NAME";
    pod_name = getenv "POD_NAME";
    pod_namespace = getenv "POD_NAMESPACE";
    node_name = getenv "NODE_NAME";
    allow_insecure = parse_bool "KUBEADAPT_ALLOW_INSECURE" false;
    debug_endpoints = parse_bool "KUBEADAPT_DEBUG_ENDPOINTS" false;
    gpu_metrics_enabled = parse_bool "KUBEADAPT_GPU_METRICS_ENABLED" true;
    dcgm_exporter_port = parse_int "KUBEADAPT_DCGM_PORT" (pos 9400);
    dcgm_exporter_namespace = env_or_default "KUBEADAPT_DCGM_NAMESPACE" "";
    dcgm_exporter_endpoints = parse_string_slice "KUBEADAPT_DCGM_ENDPOINTS";
    gpu_metrics_interval =
        parse_duration "KUBEADAPT_GPU_METRICS_INTERVAL"
          (parse_duration "KUBEADAPT_METRICS_INTERVAL" (secs 60));
  }

  unfoldable pub resolve_agent_version : String → String
  resolve_agent_version build_version =
      let named = not (build_version == "") in
      if named && not (build_version == "dev")
      then build_version
      else non_empty_or (getenv "KUBEADAPT_AGENT_VERSION") (if named then build_version else "dev")

-- The errors of Validate, with the value that each message prints.
pub data ConfigError : Type 0 where
  no_api_key : ConfigError
  no_backend_url : ConfigError
  insecure_backend_url : String → ConfigError
  short_snapshot_interval : Duration → ConfigError
  short_metrics_interval : Duration → ConfigError
  bad_compression_level : ℤ → ConfigError
  negative_max_retries : ℤ → ConfigError
  bad_health_port : ℤ → ConfigError

unfoldable pub validate : Config → Option ConfigError
validate c =
    if c.api_key == ""
    then some no_api_key
    else if c.backend_url == ""
    then some no_backend_url
    else if not c.allow_insecure && not (has_prefix (text "https://") (text c.backend_url))
    then some (insecure_backend_url c.backend_url)
    else if ltb_ℤ c.snapshot_interval (secs 10)
    then some (short_snapshot_interval c.snapshot_interval)
    else if ltb_ℤ c.metrics_interval (secs 10)
    then some (short_metrics_interval c.metrics_interval)
    else if ltb_ℤ c.compression_level (pos 1) || ltb_ℤ (pos 4) c.compression_level
    then some (bad_compression_level c.compression_level)
    else if ltb_ℤ c.max_retries (pos 0)
    then some (negative_max_retries c.max_retries)
    else if ltb_ℤ c.health_port (pos 1) || ltb_ℤ (pos 65535) c.health_port
    then some (bad_health_port c.health_port)
    else none
