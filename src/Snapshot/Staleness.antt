-- ===== src/Snapshot/Staleness.antt =====
-- internal/snapshot/builder.go: step 8 of Build, which lists the resources that were not updated
-- for three snapshot intervals. Times are int64 milliseconds.
pub mod Threshold
use kubeadapt_agent.Prelude.{
  ◌+◌, ◌-◌, ◌*◌, Bool, true, false, List, [], ◌∷◌, ◌++◌, String, if◌then◌else◌, suc,
}
use kubeadapt_agent.Prelude.Int.{ℤ, pos, negsuc, ltb_ℤ, ◌-ℤ◌, wrap64}
use kubeadapt_agent.Clock.{Duration}
use kubeadapt_agent.GoMap.{GoMap}

-- time.Duration(n) * time.Millisecond
unfoldable pub milliseconds : ℤ → Duration
milliseconds (pos n) = wrap64 (pos (n * 1000000))
milliseconds (negsuc n) = wrap64 (negsuc (suc n * 1000000 - 1))

-- 3 * b.config.SnapshotInterval
unfoldable pub staleness_threshold : ℤ → Duration
staleness_threshold (pos n) = wrap64 (pos (3 * n))
staleness_threshold (negsuc n) = wrap64 (negsuc (3 * suc n - 1))

unfoldable pub is_overdue : ℤ → ℤ → ℤ → Bool
is_overdue interval now last_updated =
    ltb_ℤ (staleness_threshold interval) (milliseconds (wrap64 (now -ℤ last_updated)))

-- The loop over LastUpdatedTimes; `stale` is StaleResources so far.
unfoldable pub stale_loop : ℤ → ℤ → List String → GoMap String ℤ → List String
stale_loop interval now stale [] = stale
stale_loop interval now stale ((resource, last_updated) ∷ times) =
    stale_loop interval now
      (if is_overdue interval now last_updated then stale ++ resource ∷ [] else stale) times
