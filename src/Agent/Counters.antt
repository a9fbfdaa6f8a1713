-- ===== src/Agent/Counters.antt =====
-- What the snapshot counters account for, and what doSnapshot leaves alone.
use kubeadapt_agent.Prelude.{
  ℕ, ◌<◌, ◌≡◌, ◌⊎◌, refl, ap, Bool, true, false, if◌then◌else◌, Option, none, some, List, String,
  keep, arith,
}
use kubeadapt_agent.Prelude.Int.{add64, sub64, uint64_mod}
use kubeadapt_agent.StateMachine.{running, handle_http_status}
use kubeadapt_agent.Registry.{names_of}
use kubeadapt_agent.Registry.Reports.{is_stale, health_report_lem}
use kubeadapt_agent.Model.{Float64}
use kubeadapt_agent.Transport.Response.{SnapshotResponse, Result, ok, err}
use kubeadapt_agent.Transport.Client.{send}
use kubeadapt_agent.Model.Cluster.{ClusterSnapshot}
use kubeadapt_agent.Agent.{Agent, World, populate_health, do_snapshot}

-- Whether a result has no error.
abbrev pub is_ok : {A : Type 0} → Result A → Bool
is_ok (ok r) = true
is_ok (err e) = false

module _ {R : Type 0} (fl : Float64 R) (w : World R) (a : Agent R) where
  -- A snapshot adds one to the total and to exactly one of the two counters.
  pub do_snapshot-counts :
      ((do_snapshot fl w a).snapshots_total ≡ add64 a.snapshots_total 1)
      × (((do_snapshot fl w a).snapshots_sent ≡ add64 a.snapshots_sent 1)
            × ((do_snapshot fl w a).snapshots_failed ≡ a.snapshots_failed)
          ⊎ ((do_snapshot fl w a).snapshots_sent ≡ a.snapshots_sent)
            × ((do_snapshot fl w a).snapshots_failed ≡ add64 a.snapshots_failed 1))
  unfolding do_snapshot
  do_snapshot-counts = ground arith

  -- What Send answers for the snapshot that doSnapshot has built.
  abbrev pub sent : Result (Option SnapshotResponse)
  sent =
      let built = populate_health fl w (record a { last_build_ms = w.build_ms }) in
      (send w.send_world built.0.transport built.0.error_collector).2.returned

  do_snapshot-sent :
      ((do_snapshot fl w a).snapshots_sent
        ≡ (if is_ok sent then add64 a.snapshots_sent 1 else a.snapshots_sent))
      × ((do_snapshot fl w a).snapshots_failed
          ≡ (if is_ok sent then a.snapshots_failed else add64 a.snapshots_failed 1))
  unfolding do_snapshot
  do_snapshot-sent = ground arith

  pub do_snapshot-prev :
      ((do_snapshot fl w a).prev_snapshots_sent ≡ a.snapshots_sent)
      × ((do_snapshot fl w a).prev_snapshots_failed ≡ a.snapshots_failed)
      × ((do_snapshot fl w a).registry ≡ a.registry)
  unfolding do_snapshot
  do_snapshot-prev = ground arith

  pub latest-do_snapshot :
      (do_snapshot fl w a).latest_snapshot
      ≡ some (populate_health fl w (record a { last_build_ms = w.build_ms })).1
  unfolding do_snapshot
  latest-do_snapshot = ground arith

  pub state-do_snapshot :
      a.state_machine.state ≡ running → (do_snapshot fl w a).state_machine.state ≡ running
  unfolding do_snapshot handle_http_status
  state-do_snapshot h = ground arith

-- Every snapshot is counted once: the total is the sum of the sent and the failed, modulo 2 ^ 64.
abbrev pub IsCounted : {R : Type 0} → Agent R → Type 0
IsCounted a = a.snapshots_total ≡ add64 a.snapshots_sent a.snapshots_failed

-- If the count of all snapshots is the 64-bit sum of those sent and those failed, it is so after
-- one more snapshot.
pub do_snapshot-IsCounted :
    {R : Type 0} (fl : Float64 R) (w : World R) (a : Agent R)
    → IsCounted a
    → IsCounted (do_snapshot fl w a)
unfolding add64
do_snapshot-IsCounted fl w a h = ground (arith, do_snapshot-counts fl w a)

abbrev pub reported_health : {R : Type 0} → Option (ClusterSnapshot R) → Option (ℕ × ℕ)
reported_health none = none
reported_health (some s) = some (s.health.snapshots_sent_delta, s.health.snapshots_failed_delta)

deltas :
    {R : Type 0} (fl : Float64 R) (w : World R) (a : Agent R)
    → reported_health (do_snapshot fl w a).latest_snapshot
      ≡ some (
        sub64 a.snapshots_sent a.prev_snapshots_sent,
        sub64 a.snapshots_failed a.prev_snapshots_failed,
      )
unfolding populate_health
deltas fl w a = rw (latest-do_snapshot fl w a) refl

-- If both counters are below 2 ^ 64, the report of a snapshot that follows another covers exactly
-- the send of the one before it: its two deltas are 1 and 0 if Send returned no error for that one,
-- and 0 and 1 if it did; and exactly that send was added to the counters.
pub deltas-do_snapshot :
    {R : Type 0} (fl : Float64 R) (w w' : World R) (a : Agent R)
    → a.snapshots_sent < uint64_mod
    → a.snapshots_failed < uint64_mod
    → (reported_health (do_snapshot fl w' (do_snapshot fl w a)).latest_snapshot
        ≡ some (if is_ok (sent fl w a) then (1, 0) else (0, 1)))
      × ((do_snapshot fl w a).snapshots_sent
          ≡ (if is_ok (sent fl w a) then add64 a.snapshots_sent 1 else a.snapshots_sent))
      × ((do_snapshot fl w a).snapshots_failed
          ≡ (if is_ok (sent fl w a) then a.snapshots_failed else add64 a.snapshots_failed 1))
unfolding add64 sub64
deltas-do_snapshot fl w w' a h k = (
  ground
      (arith, deltas fl w' (do_snapshot fl w a), do_snapshot-sent fl w a, do_snapshot-prev fl w a),
  (do_snapshot-sent fl w a).0,
  (do_snapshot-sent fl w a).1,
)

abbrev pub reported_stale : {R : Type 0} → Option (ClusterSnapshot R) → Option (List String)
reported_stale none = none
reported_stale (some s) = some s.health.stale_resources

-- Whatever stale resources the builder found, the snapshot that doSnapshot sends lists the
-- collectors that report themselves unhealthy and nothing else.
pub stale_overwritten :
    {R : Type 0} (fl : Float64 R) (w : World R) (a : Agent R)
    → reported_stale (do_snapshot fl w a).latest_snapshot
      ≡ some (names_of (keep is_stale a.registry.collectors))
unfolding populate_health
stale_overwritten fl w a = rw (latest-do_snapshot fl w a) (ap some (health_report_lem a.registry).0)
