-- ===== src/StateMachine.antt =====
-- internal/agent/state.go: the lifecycle state of the agent. The mutex makes each method one step;
-- a method that reads the clock takes the instant that it reads.
pub mod Backoff
pub mod Transitions
use kubeadapt_agent.Prelude.{
  ℕ, ◌*◌, ◌≡◌, Bool, true, false, ◌||◌, Option, String, ◌++◌, if◌then◌else◌, leb, nat_eq,
}
use kubeadapt_agent.Prelude.Int.{ℤ, pos, negsuc, ltb_ℤ, ◌+ℤ◌}
use kubeadapt_agent.Clock.{Time, Duration, second, seconds, elapsed, after}
use kubeadapt_agent.Transport.Message.{Text, text, decimal}

pub data AgentState : Type 0 where
  starting running backoff stopped exiting : AgentState

abbrev pub state_name : AgentState → String
state_name starting = "starting"
state_name running = "running"
state_name backoff = "backoff"
state_name stopped = "stopped"
state_name exiting = "exiting"

-- `cancel_func` says whether a cancel function is registered.
pub record StateMachine : Type 0 where
  pub state : AgentState
  pub state_reason : Text
  pub backoff_until : Time
  pub cancel_func : Bool

unfoldable pub new_state_machine : StateMachine
new_state_machine = record {
  state = starting;
  state_reason = text "";
  backoff_until = pos 0;
  cancel_func = false;
}

unfoldable pub set_cancel_func : StateMachine → StateMachine
set_cancel_func sm = record sm { cancel_func = true }

unfoldable pub transition_to : AgentState → Text → StateMachine → StateMachine
transition_to state reason sm = record sm { state = state; state_reason = reason }

-- The backoff that a response asks for, and `default` seconds if it asks for none.
unfoldable pub backoff_duration : ℤ → ℕ → Duration
backoff_duration retry_after default = elim (seconds retry_after) [
  | pos n ↦ if nat_eq n 0 then pos (default * second) else pos n
  | negsuc n ↦ negsuc n
]

-- The new state, and whether the cancel function is called.
unfoldable pub handle_http_status : ℕ → ℤ → Time → StateMachine → StateMachine × Bool
unfolding backoff_duration
handle_http_status code retry_after now sm =
    if nat_eq code 200
    then (record sm { state = running; state_reason = text "" }, false)
    else if nat_eq code 401 || nat_eq code 403
    then (record sm { state = stopped; state_reason = text "authentication failed" }, false)
    else if nat_eq code 402
    then (
      record sm {
        state = backoff;
        state_reason = text "quota exceeded";
        backoff_until = now +ℤ backoff_duration retry_after 300;
      },
      false,
    )
    else if nat_eq code 410
    then (record sm { state = exiting; state_reason = text "agent deprecated" }, sm.cancel_func)
    else if nat_eq code 429
    then (
      record sm {
        state = backoff;
        state_reason = text "rate limited";
        backoff_until = now +ℤ backoff_duration retry_after 30;
      },
      false,
    )
    else if leb 500 code
    then (record sm { state_reason = text "server error: " ++ decimal code }, false)
    else (sm, false)

unfoldable pub is_backoff_expired : Time → StateMachine → Bool
is_backoff_expired now sm = after now sm.backoff_until

unfoldable pub backoff_remaining : Time → StateMachine → Duration
backoff_remaining now sm =
    let remaining = elapsed sm.backoff_until now in
    if ltb_ℤ remaining (pos 0) then pos 0 else remaining
