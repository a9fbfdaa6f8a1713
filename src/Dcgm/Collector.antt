-- ===== src/Dcgm/Collector.antt =====
-- internal/collector/gpu/collector.go, api.go and scraper.go: the collector that polls the
-- endpoints of dcgm-exporter, and informerHealthy of internal/collector/resource/health.go. What
-- the HTTP client answers is a value of `Fetched`; the events of run's select come as a list.
pub mod Reports
use kubeadapt_agent.Prelude.{
  ℕ, Bool, true, false, Option, none, some, List, [], ◌∷◌, ◌++◌, String, map, if◌then◌else◌, ◌==◌,
  ℕ_eq, length,
}
use kubeadapt_agent.Prelude.Int.{add64}
use kubeadapt_agent.Model.{Float64}
use kubeadapt_agent.Transport.Message.{Text}
use kubeadapt_agent.Dcgm.Devices.{GpuDeviceMetrics, parse_dcgm_metrics}

-- A request that cannot be made, one that gets no response, or a response, with its body if that
-- can be read to the end.
pub data Fetched : Type 0 where
  no_request : Fetched
  no_response : Fetched
  response : (status_code : ℕ) (body : Option Text) → Fetched

-- The body, or `none` for an error.
unfoldable pub scrape_endpoint : Fetched → Option Text
scrape_endpoint no_request = none
scrape_endpoint no_response = none
scrape_endpoint (response status_code body) = if status_code == 200 then body else none

-- What an implementation of GPUMetricsAPI returns.
pub data Scraped (R : Type 0) : Type 0 where
  scraped : List (GpuDeviceMetrics R) → Scraped R
  scrape_error : Scraped R

pub record GpuMetricsCollector (R : Type 0) : Type 0 where
  pub metrics : List (GpuDeviceMetrics R)
  pub scrape_total : ℕ
  pub scrape_failed : ℕ
  pub last_targets : ℕ
  pub last_up_targets : ℕ

unfoldable pub new_gpu_metrics_collector : {R : Type 0} → GpuMetricsCollector R
new_gpu_metrics_collector = record {
  metrics = [];
  scrape_total = 0;
  scrape_failed = 0;
  last_targets = 0;
  last_up_targets = 0;
}

abbrev pub stamp : {R : Type 0} → ℕ → GpuDeviceMetrics R → GpuDeviceMetrics R
stamp now d = record d { timestamp = now }

-- poll after the request, for the number of its endpoints.
unfoldable pub note_scrape :
    {R : Type 0} → ℕ → ℕ → Scraped R → GpuMetricsCollector R → GpuMetricsCollector R
note_scrape now n scrape_error c = record c {
  scrape_failed = add64 c.scrape_failed n;
  last_up_targets = 0;
}
note_scrape now n (scraped metrics) c = record c {
  last_up_targets = n;
  metrics = map (stamp now) metrics;
}

unfoldable pub get_gpu_metrics : {R : Type 0} → GpuMetricsCollector R → List (GpuDeviceMetrics R)
get_gpu_metrics c = c.metrics

unfoldable pub api_call_stats : {R : Type 0} → GpuMetricsCollector R → ℕ × ℕ
api_call_stats c = (c.scrape_total, c.scrape_failed)

unfoldable pub dcgm_target_stats : {R : Type 0} → GpuMetricsCollector R → ℕ × ℕ
dcgm_target_stats c = (c.last_targets, c.last_up_targets)

-- Whether the goroutine is well, and the reason if not: for the channels stopCh and done, whether
-- each is closed.
unfoldable pub informer_healthy : Bool → Bool → Bool × String
informer_healthy stopped done =
    let exited : Bool × String =
      if stopped then (true, "") else (false, "informer goroutine exited unexpectedly") in
    if done then exited else (true, "")

unfoldable pub is_healthy : Bool → Bool → Bool × String
is_healthy stopped done =
    let exited : Bool × String =
      if stopped
      then (true, "")
      else (false, "GPU metrics polling goroutine exited unexpectedly") in
    if done then exited else (true, "")

-- An event of run's select; a tick with the instant and what the endpoints of that time answer.
pub data Event : Type 0 where
  tick : (now : ℕ) (answers : List Fetched) → Event
  stop : Event
  context_done : Event

module _ {R : Type 0} (fl : Float64 R) (parse_float : Text → Option R) where
  abbrev pub devices_of : Option Text → List (GpuDeviceMetrics R)
  devices_of none = []
  devices_of (some body) = parse_dcgm_metrics fl parse_float body

  -- The loop of ScrapeGPUMetrics over what the endpoints answer.
  unfoldable pub scrape_loop : List (GpuDeviceMetrics R) → List Fetched → List (GpuDeviceMetrics R)
  scrape_loop all [] = all
  scrape_loop all (f ∷ fs) = scrape_loop (all ++ devices_of (scrape_endpoint f)) fs

  unfoldable pub scrape_gpu_metrics : List Fetched → Scraped R
  scrape_gpu_metrics answers = scraped (scrape_loop [] answers)

  unfoldable pub poll : ℕ → List Fetched → GpuMetricsCollector R → GpuMetricsCollector R
  poll now [] c = record c { last_targets = 0; last_up_targets = 0 }
  poll now (f ∷ fs) c =
      let n = length (f ∷ fs) in
      note_scrape now n (scrape_gpu_metrics (f ∷ fs))
        (record c { last_targets = n; scrape_total = add64 c.scrape_total n })

  -- The loop of run, and whether it returned.
  unfoldable pub run_loop : List Event → GpuMetricsCollector R → GpuMetricsCollector R × Bool
  run_loop [] c = (c, false)
  run_loop (tick now answers ∷ es) c = run_loop es (poll now answers c)
  run_loop (stop ∷ es) c = (c, true)
  run_loop (context_done ∷ es) c = (c, true)

  -- run, with the instant and the answers of the first poll.
  unfoldable pub run :
      ℕ → List Fetched → List Event → GpuMetricsCollector R → GpuMetricsCollector R × Bool
  run now answers es c = run_loop es (poll now answers c)
