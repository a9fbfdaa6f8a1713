-- ===== src/Agent/Loop.antt =====
-- internal/agent/agent.go: Run. The select over the context and the ticker is a list of events, in
-- the order in which the loop receives them.
use kubeadapt_agent.Prelude.{
  ℕ, Bool, true, false, Option, none, some, List, [], ◌∷◌, String, if◌then◌else◌,
}
use kubeadapt_agent.Clock.{Time}
use kubeadapt_agent.Errors.{report, err_informer_sync_timeout}
use kubeadapt_agent.Transport.Message.{Text, text}
use kubeadapt_agent.StateMachine.{
  AgentState, starting, running, backoff, stopped, exiting, set_cancel_func, transition_to,
  is_backoff_expired,
}
use kubeadapt_agent.Registry.{
  Collector, StartError, partial_start, all_failed, start_all, wait_for_sync, stop_all,
}
use kubeadapt_agent.Model.{Float64}
use kubeadapt_agent.Agent.{Agent, World, do_snapshot}

-- The context is done, or the ticker fires; then `now` is the instant that IsBackoffExpired reads.
pub data Event (R : Type 0) : Type 0 where
  context_done : Text → Event R
  tick : (now : Time) → World R → Event R

-- How Run ends. `waiting` is the loop at its select, with no event left.
pub data Exit : Type 0 where
  start_failed : ℕ → Exit
  canceled : Text → Exit
  finished : Exit
  waiting : Exit

abbrev pub is_terminal : AgentState → Bool
is_terminal stopped = true
is_terminal exiting = true
is_terminal _ = false

-- What the first select-free part of a round does, by the state it reads: the agent after it, and
-- whether Run returns there.
on_state : {R : Type 0} → Float64 R → AgentState → Time → World R → Agent R → Agent R × Bool
on_state fl starting now w a = (a, false)
on_state fl running now w a = (do_snapshot fl w a, false)
on_state fl backoff now w a =
    if is_backoff_expired now a.state_machine
    then (
      do_snapshot fl w (record a {
        state_machine = transition_to running (text "backoff expired") a.state_machine;
      }),
      false,
    )
    else (a, false)
on_state fl stopped now w a = (a, true)
on_state fl exiting now w a = (a, true)

unfoldable pub loop_step : {R : Type 0} → Float64 R → Time → World R → Agent R → Agent R × Bool
unfolding on_state
loop_step fl now w a =
    let (a', returns) = on_state fl a.state_machine.state now w a in
    (a', if returns then true else is_terminal a'.state_machine.state)

unfoldable pub run_loop : {R : Type 0} → Float64 R → List (Event R) → Agent R → Agent R × Exit
run_loop fl [] a = (a, waiting)
run_loop fl (context_done e ∷ events) a = (a, canceled e)
run_loop fl (tick now w ∷ events) a =
    let (a', returns) = loop_step fl now w a in
    let rest = run_loop fl events a' in if returns then (a', finished) else rest

-- What Run meets: the orders in which the collectors answer, the instant and the time stamp of the
-- report of a failed sync with its text, the first snapshot, and the events of the loop.
pub record RunWorld (R : Type 0) : Type 0 where
  pub start_arrivals : List Collector
  pub sync_arrivals : List Collector
  pub sync_now : Time
  pub sync_timestamp : ℕ
  pub sync_message : Text
  pub first : World R
  pub events : List (Event R)

report_sync : {R : Type 0} → RunWorld R → Option String → Agent R → Agent R
report_sync rw none a = a
report_sync rw (some e) a = record a {
  error_collector =
      report rw.sync_now
        (record {
          code = err_informer_sync_timeout;
          message = rw.sync_message;
          component = "agent";
          timestamp = rw.sync_timestamp;
          err = some (text e);
        })
        a.error_collector;
}

-- Steps 2 to 4 of Run up to the loop.
unfoldable pub go_live : {R : Type 0} → Float64 R → RunWorld R → Agent R → Agent R
unfolding report_sync
go_live fl rw a =
    let a' = report_sync rw (wait_for_sync rw.sync_arrivals a.registry) a in
    do_snapshot fl rw.first (record a' {
      state_machine = transition_to running (text "informers synced") a'.state_machine;
      ready = true;
    })

-- The deferred StopAll runs whenever Run returns.
unfoldable pub stop_on_return : {R : Type 0} → Agent R × Exit → Agent R × Exit
stop_on_return (a, waiting) = (a, waiting)
stop_on_return (a, e) = (record a { registry = (stop_all a.registry).0 }, e)

unfoldable pub after_start :
    {R : Type 0} → Float64 R → RunWorld R → Option StartError → Agent R → Agent R × Exit
unfolding stop_on_return
after_start fl rw (some (all_failed n)) a = (a, start_failed n)
after_start fl rw (some (partial_start names total)) a =
    stop_on_return (run_loop fl rw.events (go_live fl rw a))
after_start fl rw none a = stop_on_return (run_loop fl rw.events (go_live fl rw a))

unfoldable pub run : {R : Type 0} → Float64 R → RunWorld R → Agent R → Agent R × Exit
unfolding after_start
run fl rw a =
    let (registry, error) = start_all rw.start_arrivals a.registry in
    after_start fl rw error
      (record a { registry = registry; state_machine = set_cancel_func a.state_machine })
