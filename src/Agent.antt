-- ===== src/Agent.antt =====
-- internal/agent/agent.go: the orchestrator. What one snapshot meets outside the agent (the built
-- snapshot, the network, the clocks) is a value of `World`.
pub mod Counters
pub mod Loop
pub mod Lifecycle
pub mod Reported
use kubeadapt_agent.Prelude.{
  ℕ, zero, suc, ◌+◌, ◌≡◌, Bool, true, false, Option, none, some, List, [], ◌∷◌, String,
  if◌then◌else◌, ltb, not, length, is_empty,
}
use kubeadapt_agent.Prelude.Int.{ℤ, pos, add64, sub64}
use kubeadapt_agent.Clock.{Time}
use kubeadapt_agent.Errors.{ErrorCollector, get_active_errors, get_active_error_codes}
use kubeadapt_agent.Transport.Response.{ok, err}
use kubeadapt_agent.Transport.Client.{Client, SendWorld, SendRun, send}
use kubeadapt_agent.StateMachine.{
  AgentState, stopped, exiting, StateMachine, handle_http_status, state_name,
}
use kubeadapt_agent.Registry.{Registry, health_report, api_call_report, dcgm_target_report}
use kubeadapt_agent.Model.{Float64}
use kubeadapt_agent.Model.Health.{AgentHealth}
use kubeadapt_agent.Model.Cluster.{ClusterSnapshot, ClusterSummary}

-- The fields of internal/config's Config that populateHealth copies.
pub record PodMetadata : Type 0 where
  pub chart_version : String
  pub helm_release_name : String
  pub pod_name : String
  pub pod_namespace : String
  pub node_name : String

pub record Agent (R : Type 0) : Type 0 where
  pub metadata : PodMetadata
  pub registry : Registry
  pub transport : Client
  pub state_machine : StateMachine
  pub error_collector : ErrorCollector
  pub latest_snapshot : Option (ClusterSnapshot R)
  pub ready : Bool
  pub started_at : ℕ
  pub snapshots_sent : ℕ
  pub snapshots_failed : ℕ
  pub snapshots_total : ℕ
  pub prev_snapshots_sent : ℕ
  pub prev_snapshots_failed : ℕ
  pub last_build_ms : ℕ
  pub last_send_ms : ℕ

pub record World (R : Type 0) : Type 0 where
  pub built : ClusterSnapshot R
  pub build_ms : ℕ
  pub send_world : SendWorld
  pub send_ms : ℕ
  pub metrics_collect_ms : ℕ
  -- the instants at which the error collector reads its clock
  pub errors_now : Time
  pub codes_now : Time
  pub uptime_seconds : ℕ
  pub collected_at : ℕ
  pub status_now : Time

module _ {R : Type 0} (fl : Float64 R) where
  open fl use {divide, of_int}

  -- The health of a snapshot, from the agent's fields and what its parts report; the health that
  -- the builder set stands where no line below writes.
  health_of : World R → Agent R → List String → ℕ → AgentHealth R
  health_of w a codes active =
      let s = w.built.summary in
      let stats = a.transport.last_send_stats in
      record w.built.health {
        snapshots_sent_total = a.snapshots_sent;
        snapshots_failed_total = a.snapshots_failed;
        snapshots_total_count = a.snapshots_total;
        snapshots_sent_delta = sub64 a.snapshots_sent a.prev_snapshots_sent;
        snapshots_failed_delta = sub64 a.snapshots_failed a.prev_snapshots_failed;
        state = state_name a.state_machine.state;
        state_reason = a.state_machine.state_reason;
        last_build_duration_ms = a.last_build_ms;
        last_send_duration_ms = a.last_send_ms;
        last_metrics_collect_duration_ms = w.metrics_collect_ms;
        original_size_bytes = stats.original_bytes;
        compressed_size_bytes = stats.compressed_bytes;
        encode_duration_ms = stats.encode_duration_ms;
        compression_factor =
            if ltb 0 stats.compressed_bytes
            then divide (of_int stats.original_bytes) (of_int stats.compressed_bytes)
            else w.built.health.compression_factor;
        node_count = s.node_count;
        pod_count = s.pod_count;
        container_count = s.container_count;
        workload_count =
            s.deployment_count + s.stateful_set_count + s.daemon_set_count + s.job_count
            + s.cron_job_count + s.custom_workload_count;
        service_count = s.service_count;
        hpa_count = s.hpa_count;
        pdb_count = length w.built.pdbs;
        pv_count = s.pv_count;
        metrics_server_available = s.metrics_available;
        gpu_metrics_available = s.gpu_metrics_available;
        vpa_available = not (is_empty w.built.vpas);
        karpenter_available = not (is_empty w.built.node_pools);
        dcgm_exporter_targets = (dcgm_target_report a.registry).0;
        dcgm_exporter_up_targets = (dcgm_target_report a.registry).1;
        informers_synced = a.ready;
        informers_total = (health_report a.registry).1;
        informers_healthy = (health_report a.registry).0;
        stale_resources = (health_report a.registry).2;
        api_calls_total = (api_call_report a.registry).0;
        api_calls_failed_count = (api_call_report a.registry).1;
        active_errors_count = active;
        error_codes = codes;
        uptime_seconds = w.uptime_seconds;
        started_at = a.started_at;
        collected_at = w.collected_at;
        chart_version = a.metadata.chart_version;
        helm_release_name = a.metadata.helm_release_name;
        pod_name = a.metadata.pod_name;
        pod_namespace = a.metadata.pod_namespace;
        node_name = a.metadata.node_name;
      }

  -- The agent after the call, and the snapshot with its health filled in.
  unfoldable pub populate_health : World R → Agent R → Agent R × ClusterSnapshot R
  unfolding health_of
  populate_health w a =
      let (ec, active) = get_active_errors w.errors_now a.error_collector in
      let (ec', codes) = get_active_error_codes w.codes_now ec in
      (
        record a {
          error_collector = ec';
          prev_snapshots_sent = a.snapshots_sent;
          prev_snapshots_failed = a.snapshots_failed;
        },
        record (w.built) { health = health_of w a codes (length active) },
      )

  -- doSnapshot after the send: the counters, and 200 for a success unless the machine is terminal.
  after_send : World R → SendRun → Agent R → Agent R
  after_send w run a = elim run.returned [
    | err e ↦ record a { snapshots_failed = add64 a.snapshots_failed 1 }
    | ok r ↦ record a {
      snapshots_sent = add64 a.snapshots_sent 1;
      state_machine = elim a.state_machine.state [
        | stopped ↦ a.state_machine
        | exiting ↦ a.state_machine
        | _ ↦ (handle_http_status 200 (pos 0) w.status_now a.state_machine).0
      ];
    }
  ]

  unfoldable pub do_snapshot : World R → Agent R → Agent R
  unfolding populate_health after_send
  do_snapshot w a =
      let (a', snap) = populate_health w (record a { last_build_ms = w.build_ms }) in
      let (client, ec, run) = send w.send_world a'.transport a'.error_collector in
      after_send w run (record a' {
        latest_snapshot = some snap;
        transport = client;
        error_collector = ec;
        last_send_ms = w.send_ms;
        snapshots_total = add64 a'.snapshots_total 1;
      })
