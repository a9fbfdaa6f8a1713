-- ===== src/Dcgm/Collector/Reports.antt =====
-- What the collector of GPU metrics reports after its polls.
use mathlib.Core.List.{append_assoc, append-nil}
use kubeadapt_agent.Prelude.{
  ℕ, ◌≡◌, refl, sym, ap, ◌∙◌, Option, List, [], ◌∷◌, ◌++◌, map, length, is_empty, if◌then◌else◌,
}
use kubeadapt_agent.Model.{Float64}
use kubeadapt_agent.Transport.Message.{Text}
use kubeadapt_agent.Dcgm.Devices.{GpuDeviceMetrics}
use kubeadapt_agent.Dcgm.Collector.{
  Fetched, scrape_endpoint, GpuMetricsCollector, stamp, note_scrape, get_gpu_metrics,
  api_call_stats, dcgm_target_stats, Event, tick, stop, context_done, devices_of, scrape_loop,
  scrape_gpu_metrics, poll, run_loop, run,
}

module _ {R : Type 0} (fl : Float64 R) (parse_float : Text → Option R) where
  -- The devices of the endpoints that answer, in order.
  abbrev pub answered : List Fetched → List (GpuDeviceMetrics R)
  answered [] = []
  answered (f ∷ fs) = devices_of fl parse_float (scrape_endpoint f) ++ answered fs

  scrape_loop-answered :
      (all : List (GpuDeviceMetrics R)) (fs : List Fetched)
      → scrape_loop fl parse_float all fs ≡ all ++ answered fs
  unfolding scrape_loop
  scrape_loop-answered all [] = sym (append-nil all)
  scrape_loop-answered all (f ∷ fs) =
      scrape_loop-answered (all ++ devices_of fl parse_float (scrape_endpoint f)) fs
      ∙ append_assoc all (devices_of fl parse_float (scrape_endpoint f)) (answered fs)

  -- Whatever the endpoints answer, also if none of them answers at all: after a poll all of them
  -- are reported as up, and no scrape is counted as failed.
  pub poll_all_up :
      (now : ℕ) (answers : List Fetched) (c : GpuMetricsCollector R)
      → (dcgm_target_stats (poll fl parse_float now answers c) ≡ (length answers, length answers))
        × ((api_call_stats (poll fl parse_float now answers c)).1 ≡ (api_call_stats c).1)
  unfolding poll note_scrape scrape_gpu_metrics dcgm_target_stats api_call_stats
  poll_all_up now [] c = (refl, refl)
  poll_all_up now (f ∷ fs) c = (refl, refl)

  -- The events before the first one that ends the loop, as polls.
  abbrev pub polls : List Event → List (ℕ × List Fetched)
  polls [] = []
  polls (tick now answers ∷ es) = (now, answers) ∷ polls es
  polls (stop ∷ es) = []
  polls (context_done ∷ es) = []

  -- The metrics of the last poll that had an endpoint; `old` without one.
  abbrev pub latest :
      List (GpuDeviceMetrics R) → List (ℕ × List Fetched) → List (GpuDeviceMetrics R)
  latest old [] = old
  latest old ((now, answers) ∷ ps) =
      latest (if is_empty answers then old else map (stamp now) (answered answers)) ps

  metrics-poll :
      (now : ℕ) (answers : List Fetched) (c : GpuMetricsCollector R)
      → (poll fl parse_float now answers c).metrics
        ≡ (if is_empty answers then c.metrics else map (stamp now) (answered answers))
  unfolding poll note_scrape scrape_gpu_metrics
  metrics-poll now [] c = refl
  metrics-poll now (f ∷ fs) c = ap (map (stamp now)) (scrape_loop-answered [] (f ∷ fs))

  metrics-run_loop :
      (es : List Event) (c : GpuMetricsCollector R)
      → (run_loop fl parse_float es c).0.metrics ≡ latest c.metrics (polls es)
  unfolding run_loop
  metrics-run_loop [] c = refl
  metrics-run_loop (stop ∷ es) c = refl
  metrics-run_loop (context_done ∷ es) c = refl
  metrics-run_loop (tick now answers ∷ es) c =
      metrics-run_loop es (poll fl parse_float now answers c)
      ∙ ap (λ old. latest old (polls es)) (metrics-poll now answers c)

  -- However long the collector runs, GetGPUMetrics returns the devices of the last poll that had an
  -- endpoint: those of the endpoints that answered it, in order, with its instant. Polls after the
  -- collector is stopped, or its context is done, do not count.
  pub get_gpu_metrics-run :
      (now : ℕ) (answers : List Fetched) (es : List Event) (c : GpuMetricsCollector R)
      → get_gpu_metrics (run fl parse_float now answers es c).0
        ≡ latest (get_gpu_metrics c) ((now, answers) ∷ polls es)
  unfolding run get_gpu_metrics
  get_gpu_metrics-run now answers es c =
      metrics-run_loop es (poll fl parse_float now answers c)
      ∙ ap (λ old. latest old (polls es)) (metrics-poll now answers c)
