-- ===== src/Examples/Data.antt =====
-- Test data: floats as whole numbers, a few pods and nodes, an agent, and what it may meet.
use kubeadapt_agent.Prelude.{
  ℕ, zero, suc, ◌+◌, Bool, true, false, Option, none, some, List, [], ◌∷◌, String, nat_eq, ltb, ◌*◌,
  String_eq, if◌then◌else◌, ◌==◌,
}
use kubeadapt_agent.Prelude.Int.{ℤ, pos}
use kubeadapt_agent.Errors.{AgentError, ErrorCollector, new_error_collector}
use kubeadapt_agent.Transport.Message.{text}
use kubeadapt_agent.Transport.Response.{HttpResponse, decoded, malformed}
use kubeadapt_agent.Transport.Client.{
  Client, encoded, Exchange, response, Attempt, attempted, SendWorld,
}
use kubeadapt_agent.StateMachine.{StateMachine, running, backoff}
use kubeadapt_agent.Registry.{Collector, Registry}
use kubeadapt_agent.Model.{Float64}
use kubeadapt_agent.Model.Health.{zero_health}
use kubeadapt_agent.Model.Node.{NodeInfo}
use kubeadapt_agent.Model.Pod.{ContainerInfo, PodInfo}
use kubeadapt_agent.Model.Workload.{WorkloadInfo, deployment}
use kubeadapt_agent.Model.Cluster.{ClusterSnapshot, zero_summary}
use kubeadapt_agent.Agent.{Agent, World}

abbrev pub whole : Float64 ℕ
whole = record {
  zero_float = 0;
  plus = ◌+◌;
  divide = λ a b. a;
  of_int = λ n. n;
  is_zero = λ n. nat_eq n 0;
  times = ◌*◌;
  less = ltb;
  same = nat_eq;
  to_int64 = λ n. n;
}

abbrev pub container : String → ℕ → ContainerInfo ℕ
container name memory = record {
  name = name;
  cpu_request_cores = 1;
  memory_request_bytes = memory;
  cpu_limit_cores = 2;
  memory_limit_bytes = memory;
  gpu_request = 0;
  cpu_usage_cores = none;
  memory_usage_bytes = some memory;
  gpu_utilization_percent = none;
  gpu_memory_used_bytes = none;
  image = "registry/app:1";
  image_id = "";
  ephemeral_storage_request = 0;
  ephemeral_storage_limit = 0;
  gpu_limit = 0;
  ready = true;
  started = none;
  restart_count = pos 0;
  state = "running";
  state_reason = "";
  state_message = "";
  last_termination_reason = "";
  exit_code = none;
  ports = [];
}

abbrev pub pod : String → String → String → String → List (ContainerInfo ℕ) → PodInfo ℕ
pod name node phase owner_kind containers = record {
  name = name;
  uid = "";
  namespace = "shop";
  node_name = node;
  phase = phase;
  reason = "";
  qos_class = "";
  owner_kind = owner_kind;
  owner_name = if owner_kind == "Job" then "load" else "web-rs";
  owner_uid = "u1";
  containers = containers;
  init_containers = [];
  labels = [];
  annotations = [];
  creation_timestamp = pos 0;
  priority_class_name = "";
  priority = none;
  scheduler_name = "";
  service_account_name = "";
  pod_ip = "";
  host_ip = "";
  host_network = false;
  has_host_path = false;
  has_empty_dir = false;
  conditions = [];
}

abbrev pub web_pod : PodInfo ℕ
web_pod =
    pod "web-1" "node-a" "Running" "ReplicaSet" (container "app" 100 ∷ container "proxy" 20 ∷ [])

abbrev pub batch_pod : PodInfo ℕ
batch_pod = pod "load-1" "node-b" "Succeeded" "Job" (container "main" 7 ∷ [])

abbrev pub pods : List (PodInfo ℕ)
pods = web_pod ∷ batch_pod ∷ []

abbrev pub node : String → Option ℕ → NodeInfo ℕ
node name usage = record {
  name = name;
  uid = "";
  provider_id = [];
  instance_id = [];
  instance_type = [];
  region = [];
  zone = [];
  capacity_type = [];
  node_group = [];
  architecture = [];
  os = [];
  kubelet_version = "";
  container_runtime = "";
  pod_cidr = "";
  pod_cidrs = [];
  os_image = "";
  kernel_version = "";
  kube_proxy_version = "";
  ephemeral_storage_bytes = 0;
  ephemeral_storage_allocatable = 0;
  pod_capacity = 0;
  pod_allocatable = 0;
  gpu_allocatable = 0;
  ready = true;
  unschedulable = false;
  taints = [];
  conditions = [];
  labels = [];
  annotations = [];
  creation_timestamp = pos 0;
  cpu_capacity_cores = 4;
  memory_capacity_bytes = 1000;
  gpu_capacity = 0;
  cpu_allocatable = 4;
  memory_allocatable = 900;
  gpu_model = [];
  gpu_driver_version = [];
  mig_enabled = false;
  gpu_temperature_celsius = none;
  gpu_power_watts = none;
  gpu_devices = [];
  gpu_utilization_percent = none;
  gpu_tensor_active_percent = none;
  gpu_memory_util_percent = none;
  gpu_memory_used_bytes = none;
  gpu_memory_total_bytes = none;
  cpu_usage_cores = usage;
  memory_usage_bytes = usage;
}

abbrev pub nodes : List (NodeInfo ℕ)
nodes = node "node-a" (some 3) ∷ node "node-c" none ∷ []

abbrev pub web : WorkloadInfo ℕ
web = record {
  name = "web";
  namespace = "shop";
  selector = ("app", "web") ∷ [];
  uid = "";
  strategy = "";
  details = deployment (record {
    replicas = pos 1;
    ready_replicas = pos 1;
    available_replicas = pos 1;
    unavailable_replicas = pos 0;
    updated_replicas = pos 1;
    max_surge = "";
    max_unavailable = "";
    paused = false;
  });
  container_specs = [];
  labels = [];
  annotations = [];
  creation_timestamp = pos 0;
  conditions = [];
  total_cpu_request = 0;
  total_memory_request = 0;
  total_cpu_limit = 0;
  total_memory_limit = 0;
  total_cpu_usage = none;
  total_memory_usage = none;
}

abbrev pub snapshot_of : List (NodeInfo ℕ) → List (PodInfo ℕ) → ClusterSnapshot ℕ
snapshot_of ns ps = record {
  snapshot_id = "s-1";
  timestamp = 0;
  agent_version = "";
  kubernetes_version = "";
  cloud_account_id = "";
  provider = "";
  region = [];
  nodes = ns;
  pods = ps;
  namespaces = [];
  deployments = web ∷ [];
  stateful_sets = [];
  daemon_sets = [];
  jobs = [];
  cron_jobs = [];
  custom_workloads = [];
  hpas = [];
  vpas = [];
  pdbs = [];
  services = [];
  ingresses = [];
  pvs = [];
  pvcs = [];
  storage_classes = [];
  priority_classes = [];
  limit_ranges = [];
  resource_quotas = [];
  node_pools = [];
  summary = zero_summary 0;
  health = zero_health 0;
}

abbrev pub sample : ClusterSnapshot ℕ
sample = snapshot_of nodes pods

-- A collector that starts, or fails to, and is healthy, or not.
abbrev pub collector : String → Option String → Bool → Collector
collector name error healthy = record {
  name = name;
  start_error = error;
  sync_error = none;
  is_healthy = some healthy;
  api_call_stats = some (5, 1);
  dcgm_target_stats = none;
}

abbrev pub registry : Registry
registry = record {
  collectors = collector "pods" none true ∷ collector "nodes" (some "forbidden") false ∷ [];
  started = false;
}

abbrev pub exchange : ℕ → Exchange
exchange status = response (record {
  status_code = status;
  body = decoded (record { plan_type = "pro"; is_within_quota = true });
  error_body = malformed (text "EOF");
})

abbrev pub answer : ℕ → Attempt
answer status = attempted (exchange status)

-- The backend answers 503, then 429, then 401 for good.
abbrev pub busy_replies : ℕ → Attempt
busy_replies zero = answer 503
busy_replies (suc zero) = answer 429
busy_replies (suc (suc n)) = answer 401

abbrev pub send_world : (ℕ → Attempt) → SendWorld
send_world reply = record {
  encoding = encoded 10 40;
  encode_duration_ms = 1;
  reply = reply;
  now = pos 1000;
  timestamp = 7;
}

abbrev pub client : ℤ → ℤ → Client
client retries limit = record {
  max_retries = retries;
  max_compressed_body_bytes = limit;
  last_send_stats = record { original_bytes = 0; compressed_bytes = 0; encode_duration_ms = 0 };
}

abbrev pub machine : StateMachine
machine = record {
  state = running;
  state_reason = text "";
  backoff_until = pos 0;
  cancel_func = true;
}

abbrev pub waiting_machine : StateMachine
waiting_machine = record machine { state = backoff; backoff_until = pos 5000 }

abbrev pub agent : StateMachine → Agent ℕ
agent sm = record {
  metadata = record {
    chart_version = "1";
    helm_release_name = "k";
    pod_name = "p";
    pod_namespace = "n";
    node_name = "node-a";
  };
  registry = registry;
  transport = client (pos 5) (pos 100);
  state_machine = sm;
  error_collector = new_error_collector;
  latest_snapshot = none;
  ready = false;
  started_at = 0;
  snapshots_sent = 2;
  snapshots_failed = 1;
  snapshots_total = 3;
  prev_snapshots_sent = 2;
  prev_snapshots_failed = 0;
  last_build_ms = 0;
  last_send_ms = 0;
}

abbrev pub world : (ℕ → Attempt) → World ℕ
world reply = record {
  built = sample;
  build_ms = 3;
  send_world = send_world reply;
  send_ms = 4;
  metrics_collect_ms = 5;
  errors_now = pos 2000;
  codes_now = pos 2001;
  uptime_seconds = 60;
  collected_at = 9;
  status_now = pos 3000;
}

abbrev pub sync_error : AgentError
sync_error = record {
  code = "INFORMER_SYNC_TIMEOUT";
  message = text "late";
  component = "agent";
  timestamp = 7;
  err = none;
}

abbrev pub one_error : ErrorCollector
one_error = record {
  entries =
      ("INFORMER_SYNC_TIMEOUT|agent", record { err = sync_error; last_report = pos 1000 }) ∷ [];
}

abbrev pub quota_response : HttpResponse
quota_response = record {
  status_code = 402;
  body = malformed (text "EOF");
  error_body = decoded (record { message = text "plan"; retry_after_seconds = some (pos 60) });
}
