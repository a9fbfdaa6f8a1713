-- ===== src/Snapshot/Staleness/Threshold.antt =====
-- Which resources step 8 of Build lists.
use kubeadapt_agent.Prelude.{
  ℕ, ◌-◌, ◌*◌, ◌≤◌, ◌<◌, ◌≡◌, ◌∙◌, Bool, true, false, Option, none, some, List, [], ◌∷◌, ◌++◌,
  String, String_eq, arith, if◌then◌else◌, contains, contains-append, ltb,
}
use kubeadapt_agent.Prelude.Int.{ℤ, pos, ◌-ℤ◌, int64_half}
use kubeadapt_agent.GoMap.{GoMap, lookup}
use kubeadapt_agent.GoMap.Keys.{IsMap, lookup-of-not_has_key}
use kubeadapt_agent.Snapshot.Staleness.{milliseconds, staleness_threshold, is_overdue, stale_loop}

-- An update at `t`, seen at `now`, is stale if more than three intervals of nanoseconds lie
-- between.
is_overdue_lem :
    (interval now t : ℕ)
    → t ≤ now
    → now * 1000000 < int64_half
    → 3 * interval < int64_half
    → is_overdue (pos interval) (pos now) (pos t) ≡ ltb (3 * interval) ((now - t) * 1000000)
unfolding is_overdue milliseconds staleness_threshold ◌-ℤ◌
is_overdue_lem interval now t le a b = ground arith

overdue_entry : ℤ → ℤ → Option ℤ → Bool
overdue_entry interval now none = false
overdue_entry interval now (some t) = is_overdue interval now t

contains-stale_loop :
    (interval now : ℤ) (r : String) (stale : List String) (times : GoMap String ℤ)
    → IsMap times
    → contains r (stale_loop interval now stale times)
      ≡ (if contains r stale then true else overdue_entry interval now (lookup r times))
unfolding stale_loop lookup overdue_entry
contains-stale_loop interval now r stale [] h = ground arith
contains-stale_loop interval now r stale ((k, t) ∷ times) h =
    contains-stale_loop interval now r
      (if is_overdue interval now t then stale ++ k ∷ [] else stale) times h.1
    ∙ (ground (
      arith,
      contains-append r stale (k ∷ []),
      String_eq.equal_iff k r,
      lookup-of-not_has_key k times h.0,
    ))

-- If no resource is listed twice, and the interval and the times fit int64 nanoseconds: step 8 of
-- Build lists a resource exactly if it was last updated more than three snapshot intervals ago.
pub stale_exactly :
    (interval now t : ℕ) (r : String) (times : GoMap String ℤ)
    → IsMap times
    → lookup r times ≡ some (pos t)
    → t ≤ now
    → now * 1000000 < int64_half
    → 3 * interval < int64_half
    → contains r (stale_loop (pos interval) (pos now) [] times)
      ≡ ltb (3 * interval) ((now - t) * 1000000)
unfolding overdue_entry
stale_exactly interval now t r times h found le a b =
    contains-stale_loop (pos interval) (pos now) r [] times h
    ∙ rw found (is_overdue_lem interval now t le a b)
