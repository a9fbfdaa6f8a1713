-- ===== src/Examples/Running.antt =====
-- The agent's loop, its counters and the error collector at concrete inputs.
use kubeadapt_agent.Prelude.{ℕ, ◌≡◌, refl, some, [], ◌∷◌, arith, String_eq, keep, if◌then◌else◌}
use kubeadapt_agent.Prelude.Int.{pos, add64}
use kubeadapt_agent.Errors.{get_active_errors}
use kubeadapt_agent.Errors.Active.{fresh, errors_of, get_active_errors_lem}
use kubeadapt_agent.Transport.Message.{text}
use kubeadapt_agent.Registry.{names_of}
use kubeadapt_agent.Registry.Reports.{is_stale}
use kubeadapt_agent.Agent.{do_snapshot}
use kubeadapt_agent.Agent.Loop.{tick, context_done, RunWorld}
use kubeadapt_agent.Agent.Counters.{
  IsCounted, is_ok, sent, reported_health, reported_stale, deltas-do_snapshot, stale_overwritten,
}
use kubeadapt_agent.Examples.Data.{
  whole, agent, machine, world, answer, busy_replies, registry, one_error,
}

abbrev refused_world : RunWorld ℕ
refused_world = record {
  start_arrivals = registry.collectors;
  sync_arrivals = registry.collectors;
  sync_now = pos 10;
  sync_timestamp = 1;
  sync_message = text "late";
  first = world (λ i. answer 403);
  events = tick (pos 4000) (world busy_replies) ∷ context_done (text "canceled") ∷ [];
}

get_active_errors_example : get_active_errors (pos 2000) one_error ≡ (
  record { entries = fresh (pos 2000) one_error.entries },
  errors_of (fresh (pos 2000) one_error.entries),
)
get_active_errors_example = get_active_errors_lem (pos 2000) one_error (refl, tt)

agent-IsCounted : IsCounted (agent machine)
unfolding add64
agent-IsCounted = refl

deltas-do_snapshot_example :
    let a = do_snapshot whole (world (λ i. answer 200)) (agent machine) in
    let b = do_snapshot whole (world busy_replies) a in
    let ok_sent = is_ok (sent whole (world (λ i. answer 200)) (agent machine)) in
    (reported_health b.latest_snapshot ≡ some (if ok_sent then (1, 0) else (0, 1)))
    × (a.snapshots_sent ≡ (if ok_sent then add64 2 1 else 2))
    × (a.snapshots_failed ≡ (if ok_sent then 1 else add64 1 1))
deltas-do_snapshot_example =
    deltas-do_snapshot whole (world (λ i. answer 200)) (world busy_replies) (agent machine)
      (omega arith) (omega arith)

stale_overwritten_example :
    reported_stale (do_snapshot whole (world busy_replies) (agent machine)).latest_snapshot
    ≡ some (names_of (keep is_stale registry.collectors))
stale_overwritten_example = stale_overwritten whole (world busy_replies) (agent machine)
