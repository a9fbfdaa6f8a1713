-- ===== src/Registry.antt =====
-- internal/collector/registry.go. A collector is what the registry's calls on it answer; a missing
-- interface is `none`. Start and WaitForSync run in parallel: the order in which their results
-- arrive is an argument.
pub mod Reports
pub mod Starting
use kubeadapt_agent.Prelude.{
  ℕ, ◌+◌, ◌≡◌, Bool, true, false, Option, none, some, List, [], ◌∷◌, ◌++◌, String, if◌then◌else◌,
  nat_eq, ltb, length, is_empty, map,
}
use kubeadapt_agent.Prelude.Int.{add64}

pub record Collector : Type 0 where
  pub name : String
  pub start_error : Option String
  pub sync_error : Option String
  -- IsHealthy, of a HealthChecker
  pub is_healthy : Option Bool
  -- APICallStats, of an APICallCounter: total and failed
  pub api_call_stats : Option (ℕ × ℕ)
  -- DCGMTargetStats, of a DCGMTargetReporter: targets and up targets
  pub dcgm_target_stats : Option (ℕ × ℕ)

pub record Registry : Type 0 where
  pub collectors : List Collector
  pub started : Bool

abbrev pub new_registry : Registry
new_registry = record { collectors = []; started = false }

unfoldable pub register : Collector → Registry → Registry
register c r = record r { collectors = r.collectors ++ c ∷ [] }

pub data StartError : Type 0 where
  partial_start : (failed : List String) (total : ℕ) → StartError
  all_failed : ℕ → StartError

abbrev pub note_failure : Option String → String → List String → List String
note_failure none name names = names
note_failure (some e) name names = names ++ name ∷ []

-- The loop over the results, in the order of their arrival.
unfoldable pub failed_names : List String → List Collector → List String
failed_names names [] = names
failed_names names (c ∷ cs) = failed_names (note_failure c.start_error c.name names) cs

unfoldable pub start_all : List Collector → Registry → Registry × Option StartError
start_all arrivals r =
    let failed = failed_names [] arrivals in
    let total = length r.collectors in
    (
      record r { started = true },
      if is_empty r.collectors
          then none
          else if nat_eq (length failed) total
          then some (all_failed (length failed))
          else if ltb 0 (length failed)
          then some (partial_start failed total)
          else none,
    )

unfoldable pub first_sync_error : List Collector → Option String
first_sync_error [] = none
first_sync_error (c ∷ cs) =
    let rest = first_sync_error cs in elim c.sync_error [ some e ↦ some e | none ↦ rest ]

-- The error, if there is one, wraps the first one to arrive.
unfoldable pub wait_for_sync : List Collector → Registry → Option String
wait_for_sync arrivals r = if is_empty r.collectors then none else first_sync_error arrivals

abbrev pub names_of : List Collector → List String
names_of [] = []
names_of (c ∷ cs) = c.name ∷ names_of cs

-- The second part names the collectors whose Stop is called, in order.
unfoldable pub stop_all : Registry → Registry × List String
stop_all r = if r.started then (record r { started = false }, names_of r.collectors) else (r, [])

-- A collector with no HealthChecker is taken to be healthy.
abbrev pub reported_healthy : Collector → Bool
reported_healthy c = elim c.is_healthy [ none ↦ true | some b ↦ b ]

unfoldable pub health_loop : ℕ → List String → List Collector → ℕ × List String
health_loop healthy stale [] = (healthy, stale)
health_loop healthy stale (c ∷ cs) =
    let h = reported_healthy c in
    health_loop (if h then healthy + 1 else healthy) (if h then stale else stale ++ c.name ∷ []) cs

-- Healthy, total, stale.
unfoldable pub health_report : Registry → ℕ × ℕ × List String
health_report r =
    let (healthy, stale) = health_loop 0 [] r.collectors in (healthy, length r.collectors, stale)

abbrev pub calls_of : Collector → ℕ × ℕ
calls_of c = elim c.api_call_stats [ none ↦ (0, 0) | some s ↦ s ]

unfoldable pub api_call_loop : ℕ → ℕ → List Collector → ℕ × ℕ
api_call_loop total failed [] = (total, failed)
api_call_loop total failed (c ∷ cs) =
    api_call_loop (add64 total (calls_of c).0) (add64 failed (calls_of c).1) cs

unfoldable pub api_call_report : Registry → ℕ × ℕ
api_call_report r = api_call_loop 0 0 r.collectors

unfoldable pub dcgm_loop : List Collector → ℕ × ℕ
dcgm_loop [] = (0, 0)
dcgm_loop (c ∷ cs) =
    let rest = dcgm_loop cs in elim c.dcgm_target_stats [ none ↦ rest | some s ↦ s ]

unfoldable pub dcgm_target_report : Registry → ℕ × ℕ
dcgm_target_report r = dcgm_loop r.collectors
