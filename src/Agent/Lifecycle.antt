-- ===== src/Agent/Lifecycle.antt =====
-- When the main loop sends, waits and ends.
use kubeadapt_agent.Prelude.{◌≡◌, ◌≢◌, ◌⊎◌, true, false, List, [], ◌∷◌, arith}
use kubeadapt_agent.Clock.{Time}
use kubeadapt_agent.StateMachine.{running, backoff, transition_to, is_backoff_expired}
use kubeadapt_agent.Transport.Message.{text}
use kubeadapt_agent.Model.{Float64}
use kubeadapt_agent.Agent.{Agent, World, do_snapshot}
use kubeadapt_agent.Agent.Counters.{state-do_snapshot, do_snapshot-IsCounted, IsCounted}
use kubeadapt_agent.Agent.Loop.{
  Event, context_done, tick, Exit, finished, is_terminal, loop_step, run_loop,
}

-- In a terminal state, and in a backoff that has not expired, a tick changes nothing and sends no
-- snapshot; the loop returns in a terminal state and goes on in the backoff.
pub loop_step-quiet :
    {R : Type 0} (fl : Float64 R) (now : Time) (w : World R) (a : Agent R)
    → (is_terminal a.state_machine.state ≡ true)
      ⊎ ((a.state_machine.state ≡ backoff) × (is_backoff_expired now a.state_machine ≡ false))
    → loop_step fl now w a ≡ (a, is_terminal a.state_machine.state)
unfolding loop_step
loop_step-quiet fl now w a h = ground arith

-- A backoff that has expired ends with the next tick, which sends a snapshot.
pub loop_step-expired :
    {R : Type 0} (fl : Float64 R) (now : Time) (w : World R) (a : Agent R)
    → a.state_machine.state ≡ backoff
    → is_backoff_expired now a.state_machine ≡ true
    → let resumed = record a {
      state_machine = transition_to running (text "backoff expired") a.state_machine;
    } in
      loop_step fl now w a ≡ (do_snapshot fl w resumed, false)
unfolding loop_step transition_to
loop_step-expired fl now w a b e = ground (
  arith,
  state-do_snapshot fl w
      (record a { state_machine = transition_to running (text "backoff expired") a.state_machine }),
)

-- A tick in the state Running sends a snapshot, and the loop goes on.
loop_step-running :
    {R : Type 0} (fl : Float64 R) (now : Time) (w : World R) (a : Agent R)
    → a.state_machine.state ≡ running
    → loop_step fl now w a ≡ (do_snapshot fl w a, false)
unfolding loop_step
loop_step-running fl now w a h = ground (arith, state-do_snapshot fl w a h)

run_loop-running :
    {R : Type 0} (fl : Float64 R) (events : List (Event R)) (a : Agent R)
    → a.state_machine.state ≡ running
    → ((run_loop fl events a).0.state_machine.state ≡ running)
      × ((run_loop fl events a).1 ≢ finished)
unfolding run_loop
run_loop-running fl [] a h = (h, λ e. cc)
run_loop-running fl (context_done t ∷ events) a h = (h, λ e. cc)
run_loop-running fl (tick now w ∷ events) a h =
    rw (loop_step-running fl now w a h)
      (run_loop-running fl events (do_snapshot fl w a) (state-do_snapshot fl w a h))

abbrev pub IsUp : {R : Type 0} → Agent R × Exit → Type 0
IsUp r = (r.0.state_machine.state ≡ running) × (r.1 ≢ finished)

run_loop-IsCounted :
    {R : Type 0} (fl : Float64 R) (events : List (Event R)) (a : Agent R)
    → a.state_machine.state ≡ running
    → IsCounted a
    → IsCounted (run_loop fl events a).0
unfolding run_loop
run_loop-IsCounted fl [] a s h = h
run_loop-IsCounted fl (context_done t ∷ events) a s h = h
run_loop-IsCounted fl (tick now w ∷ events) a s h = rw (loop_step-running fl now w a s) (
    run_loop-IsCounted fl events (do_snapshot fl w a) (state-do_snapshot fl w a s)
      (do_snapshot-IsCounted fl w a h))

-- From a counted agent that is running, the snapshots stay counted however long the loop runs.
pub loop_counts :
    {R : Type 0} (fl : Float64 R) (events : List (Event R)) (a : Agent R)
    → a.state_machine.state ≡ running
    → IsCounted a
    → IsCounted (run_loop fl events a).0 × ((run_loop fl events a).0.state_machine.state ≡ running)
loop_counts fl events a s h =
    (run_loop-IsCounted fl events a s h, (run_loop-running fl events a s).0)
