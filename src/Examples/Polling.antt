-- ===== src/Examples/Polling.antt =====
-- The collector of GPU metrics at concrete inputs.
use kubeadapt_agent.Prelude.{ℕ, ◌≡◌, none, some, List, [], ◌∷◌, length}
use kubeadapt_agent.Transport.Message.{Text, text}
use kubeadapt_agent.Dcgm.Collector.{
  Fetched, no_response, response, GpuMetricsCollector, get_gpu_metrics, api_call_stats,
  dcgm_target_stats, Event, tick, stop, poll, run,
}
use kubeadapt_agent.Dcgm.Collector.Reports.{poll_all_up, polls, latest, get_gpu_metrics-run}
use kubeadapt_agent.Examples.Data.{whole}
use kubeadapt_agent.Examples.Scraping.{answer_float, device}

abbrev pub gpu_collector : GpuMetricsCollector ℕ
gpu_collector = record {
  metrics = device ∷ [];
  scrape_total = 2;
  scrape_failed = 0;
  last_targets = 1;
  last_up_targets = 1;
}

-- Two endpoints, and none of them answers.
abbrev pub silence : List Fetched
silence = no_response ∷ response 503 none ∷ []

poll_all_up_example :
    (dcgm_target_stats (poll whole answer_float 7 silence gpu_collector)
      ≡ (length silence, length silence))
    × ((api_call_stats (poll whole answer_float 7 silence gpu_collector)).1
        ≡ (api_call_stats gpu_collector).1)
poll_all_up_example = poll_all_up whole answer_float 7 silence gpu_collector

abbrev pub sample_line : Text
sample_line = text "DCGM_FI_DEV_GPU_TEMP{gpu=\"0\",UUID=\"GPU-1\"} 42"

abbrev pub later : List Event
later = tick 9 (response 200 (some sample_line) ∷ []) ∷ stop ∷ tick 11 silence ∷ []

get_gpu_metrics-run_example :
    get_gpu_metrics (run whole answer_float 7 silence later gpu_collector).0
    ≡ latest whole answer_float
        (get_gpu_metrics gpu_collector)
        ((7, silence) ∷ polls whole answer_float later)
get_gpu_metrics-run_example = get_gpu_metrics-run whole answer_float 7 silence later gpu_collector
