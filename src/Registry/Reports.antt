-- ===== src/Registry/Reports.antt =====
-- The health report accounts for every collector, and stopping is idempotent.
use mathlib.Core.List.{append_assoc, append-nil}
use kubeadapt_agent.Prelude.{
  ℕ, ◌+◌, ◌≡◌, refl, sym, ◌∙◌, Bool, List, [], ◌∷◌, ◌++◌, String, if◌then◌else◌, arith, length,
  keep, not,
}
use kubeadapt_agent.Registry.{
  Collector, Registry, reported_healthy, names_of, stop_all, health_loop, health_report, start_all,
}

-- A collector that reports itself unhealthy.
abbrev pub is_stale : Collector → Bool
is_stale c = not (reported_healthy c)

health_loop_lem :
    (n : ℕ) (stale : List String) (cs : List Collector)
    → ((health_loop n stale cs).0 + length (keep is_stale cs) ≡ n + length cs)
      × ((health_loop n stale cs).1 ≡ stale ++ names_of (keep is_stale cs))
unfolding health_loop
health_loop_lem n stale [] = (omega arith, sym (append-nil stale))
health_loop_lem n stale (c ∷ cs) =
    let h = reported_healthy c in
    let ih =
      health_loop_lem (if h then n + 1 else n) (if h then stale else stale ++ c.name ∷ []) cs in
    (
      ground (arith, ih.0),
      ih.1 ∙ ground (arith, append_assoc stale (c.name ∷ []) (names_of (keep is_stale cs))),
    )

length-names_of : (cs : List Collector) → length (names_of cs) ≡ length cs
length-names_of [] = refl
length-names_of (c ∷ cs) = ground (arith, length-names_of cs)

-- The stale resources are the names of the collectors that report themselves unhealthy, in the
-- order of registration, and every other collector is counted as healthy.
pub health_report_lem :
    (r : Registry)
    → ((health_report r).2 ≡ names_of (keep is_stale r.collectors))
      × ((health_report r).1 ≡ length r.collectors)
      × ((health_report r).0 + length (health_report r).2 ≡ (health_report r).1)
unfolding health_report
health_report_lem r =
    let (counted, named) = health_loop_lem 0 [] r.collectors in
    (named, refl, ground (arith, counted, named, length-names_of (keep is_stale r.collectors)))

-- StopAll stops each collector once, after a StartAll; a second StopAll stops none.
pub stop_twice :
    (arrivals : List Collector) (r : Registry)
    → ((stop_all (start_all arrivals r).0).1 ≡ names_of r.collectors)
      × (stop_all (stop_all r).0 ≡ ((stop_all r).0, []))
unfolding stop_all start_all
stop_twice arrivals r = (refl, ground arith)
