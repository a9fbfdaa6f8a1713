-- ===== src/Examples/Converting.antt =====
-- The conversion of pods at a concrete input.
use kubeadapt_agent.Prelude.{
  ℕ, true, false, none, some, [], ◌∷◌, String, String_eq, if◌then◌else◌, ◌==◌,
}
use kubeadapt_agent.Transport.Message.{decimal}
use kubeadapt_agent.Prelude.Int.{pos}
use kubeadapt_agent.Convert.Api.{Quantities, ContainerSpec, ContainerStatus, Pod}

abbrev pub quantities : Quantities ℕ ℕ
quantities = record {
  zero_quantity = 0;
  as_approximate_float = λ n. n;
  value_of = λ n. n;
  string_of = λ n. decimal n;
  parse_quantity = λ s. if s == "" then none else some 7;
}

abbrev pub container_spec : String → ContainerSpec ℕ
container_spec name = record {
  name = name;
  image = "registry/app:1";
  requests = ("cpu", 2) ∷ ("memory", 512) ∷ [];
  limits = [];
  ports = [];
}

abbrev pub container_status : String → ContainerStatus
container_status name = record {
  name = name;
  image_id = "sha256:1";
  ready = false;
  started = some true;
  restart_count = pos 3;
  state = record {
    running = false;
    waiting = some (record { reason = "CrashLoopBackOff"; message = "back-off" });
    terminated = none;
  };
  last_terminated = some (record { reason = "OOMKilled"; message = ""; exit_code = pos 137 });
}

-- The second container has no status yet, and one status has no container.
abbrev pub api_pod : Pod ℕ
api_pod = record {
  name = "web-1";
  uid = "p1";
  namespace = "shop";
  labels = [];
  annotations = [];
  creation_millis = pos 1700000000000;
  owner_references = record { kind = "ReplicaSet"; name = "web-rs"; uid = "u1" } ∷ [];
  node_name = "node-a";
  priority_class_name = "";
  priority = none;
  scheduler_name = "default-scheduler";
  service_account_name = "web";
  host_network = false;
  volumes = record { host_path = false; empty_dir = true } ∷ [];
  containers = container_spec "app" ∷ container_spec "proxy" ∷ [];
  init_containers = container_spec "setup" ∷ [];
  phase = "Running";
  reason = "";
  qos_class = "Burstable";
  pod_ip = "10.0.0.7";
  host_ip = "10.0.0.1";
  container_statuses = container_status "app" ∷ container_status "debug" ∷ [];
  init_container_statuses = [];
  conditions = [];
}
