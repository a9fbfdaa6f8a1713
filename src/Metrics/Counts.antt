-- ===== src/Metrics/Counts.antt =====
-- What the metrics collector counts, and what never leaves its store.
use kubeadapt_agent.Prelude.{
  ℕ, ◌+◌, ◌*◌, ◌%◌, ◌<◌, ◌≡◌, refl, ap, ◌∙◌, Bool, true, false, Option, none, some, List, [], ◌∷◌,
  String, String_eq, length, arith, ◌==◌, if◌then◌else◌,
}
use kubeadapt_agent.Prelude.Int.{add64, uint64_mod}
use kubeadapt_agent.GoMap.Index.{find_last}
use kubeadapt_agent.TypedStore.{get}
use kubeadapt_agent.TypedStore.Refinement.{is_some}
use kubeadapt_agent.Snapshot.Merge.{pod_key}
use kubeadapt_agent.Convert.Api.{Quantities}
use kubeadapt_agent.Metrics.{
  NodeUsage, PodUsage, MetricsCollector, api_call_stats, Poll, Event, tick, stop, context_done,
  note_node_list, poll_node_metrics, note_pod_list, poll_pod_metrics, poll, run_loop, run,
}
use kubeadapt_agent.Metrics.Readings.{polls, node_readings, pod_readings, get-run}

find_last-is_some :
    {A : Type 0} (key : A → String) (k : String) (found : Option A) (xs : List A)
    → is_some found ≡ true
    → is_some (find_last key k found xs) ≡ true
unfolding find_last
find_last-is_some key k found [] h = h
find_last-is_some key k found (x ∷ xs) h =
    find_last-is_some key k (if key x == k then some x else found) xs (still (key x == k))
  where
    still : (b : Bool) → is_some (if b then some x else found) ≡ true
    still true = unfold is_some in refl
    still false = h

-- One for an error.
abbrev pub failure : {A : Type 0} → Option A → ℕ
failure none = 1
failure (some x) = 0

module _ {Q R : Type 0} (q : Quantities Q R) where
  -- A node and a pod that the store has readings of never leave it, however long the collector
  -- runs and whichever nodes and pods the calls list.
  pub run_keeps :
      (first : Poll Q) (es : List (Event Q)) (c : MetricsCollector R) (node pod : String)
      → is_some (get node c.metrics_store.node_metrics) ≡ true
      → is_some (get pod c.metrics_store.pod_metrics) ≡ true
      → (is_some (get node (run q first es c).0.metrics_store.node_metrics) ≡ true)
        × (is_some (get pod (run q first es c).0.metrics_store.pod_metrics) ≡ true)
  run_keeps first es c node pod hn hp = (
    rw ((get-run q first es c node).0) (
        find_last-is_some (λ m. m.name) node (get node c.metrics_store.node_metrics)
          (node_readings q (first ∷ polls es)) hn),
    rw ((get-run q first es c pod).1) (
        find_last-is_some (λ m. pod_key m.namespace m.name) pod
          (get pod c.metrics_store.pod_metrics) (pod_readings q (first ∷ polls es)) hp),
  )

  -- The calls that failed.
  abbrev pub failures : List (Poll Q) → ℕ
  failures [] = 0
  failures (p ∷ ps) = failure p.node_list + failure p.pod_list + failures ps

  stats-poll_node :
      (now : ℕ → ℕ) (answer : Option (List (NodeUsage Q))) (c : MetricsCollector R)
      → c.poll_failed < uint64_mod
      → api_call_stats (poll_node_metrics q now answer c)
        ≡ (add64 c.poll_total 1, add64 c.poll_failed (failure answer))
  unfolding poll_node_metrics note_node_list api_call_stats add64
  stats-poll_node now none c h = refl
  stats-poll_node now (some list) c h = ground arith

  stats-poll_pod :
      (now : ℕ → ℕ) (answer : Option (List (PodUsage Q))) (c : MetricsCollector R)
      → c.poll_failed < uint64_mod
      → api_call_stats (poll_pod_metrics q now answer c)
        ≡ (add64 c.poll_total 1, add64 c.poll_failed (failure answer))
  unfolding poll_pod_metrics note_pod_list api_call_stats add64
  stats-poll_pod now none c h = refl
  stats-poll_pod now (some list) c h = ground arith

  stats-poll :
      (p : Poll Q) (c : MetricsCollector R)
      → c.poll_failed < uint64_mod
      → api_call_stats (poll q p c) ≡ (
        (c.poll_total + 2) % uint64_mod,
        (c.poll_failed + (failure p.node_list + failure p.pod_list)) % uint64_mod,
      )
  unfolding poll
  stats-poll p c h =
      let d = poll_node_metrics q p.node_now p.node_list c in
      let e = stats-poll_node p.node_now p.node_list c h in
      let failed : d.poll_failed ≡ add64 c.poll_failed (failure p.node_list) =
        unfold api_call_stats in ap (λ (x : ℕ × ℕ). x.1) e in
      let total : d.poll_total ≡ add64 c.poll_total 1 =
        unfold api_call_stats in ap (λ (x : ℕ × ℕ). x.0) e in
      let bound : d.poll_failed < uint64_mod = unfold add64 in omega (arith, failed) in
      stats-poll_pod p.pod_now p.pod_list d bound ∙ unfold add64 in ground (arith, failed, total)

  stats-run_loop :
      (es : List (Event Q)) (c : MetricsCollector R)
      → c.poll_total < uint64_mod
      → c.poll_failed < uint64_mod
      → api_call_stats (run_loop q es c).0 ≡ (
        (c.poll_total + 2 * length (polls es)) % uint64_mod,
        (c.poll_failed + failures (polls es)) % uint64_mod,
      )
  unfolding run_loop
  stats-run_loop [] c ht hf = unfold api_call_stats in ground arith
  stats-run_loop (stop ∷ es) c ht hf = unfold api_call_stats in ground arith
  stats-run_loop (context_done ∷ es) c ht hf = unfold api_call_stats in ground arith
  stats-run_loop (tick p ∷ es) c ht hf =
      let d = poll q p c in
      let e = stats-poll p c hf in
      let failed : d.poll_failed
          ≡ (c.poll_failed + (failure p.node_list + failure p.pod_list)) % uint64_mod =
        unfold api_call_stats in ap (λ (x : ℕ × ℕ). x.1) e in
      let total : d.poll_total ≡ (c.poll_total + 2) % uint64_mod =
        unfold api_call_stats in ap (λ (x : ℕ × ℕ). x.0) e in
      stats-run_loop es d (omega (arith, total)) (omega (arith, failed))
      ∙ ground (arith, failed, total)

  -- However long the collector runs, APICallStats counts two calls for each poll up to the end,
  -- and one failure for each of these calls that failed, modulo 2^64 and on top of what stood
  -- there.
  pub api_call_stats-run :
      (first : Poll Q) (es : List (Event Q)) (c : MetricsCollector R)
      → c.poll_total < uint64_mod
      → c.poll_failed < uint64_mod
      → api_call_stats (run q first es c).0 ≡ (
        (c.poll_total + 2 * length (first ∷ polls es)) % uint64_mod,
        (c.poll_failed + failures (first ∷ polls es)) % uint64_mod,
      )
  unfolding run
  api_call_stats-run first es c ht hf = unfold run_loop in stats-run_loop (tick first ∷ es) c ht hf
