-- ===== src/StateMachine/Transitions.antt =====
-- Which statuses lead where.
use kubeadapt_agent.Prelude.{◌&&◌, nat_eq, ℕ, ◌≡◌, ◌⊎◌, arith}
use kubeadapt_agent.Prelude.Int.{ℤ}
use kubeadapt_agent.Clock.{Time}
use kubeadapt_agent.StateMachine.{
  AgentState, running, backoff, stopped, exiting, StateMachine, handle_http_status,
}

-- The state that a status asks for, if it asks for one.
pub data Asks : ℕ → AgentState → Type 0 where
  accepted : {c : ℕ} → c ≡ 200 → Asks c running
  unauthorized : {c : ℕ} → c ≡ 401 → Asks c stopped
  forbidden : {c : ℕ} → c ≡ 403 → Asks c stopped
  over_quota : {c : ℕ} → c ≡ 402 → Asks c backoff
  deprecated : {c : ℕ} → c ≡ 410 → Asks c exiting
  rate_limited : {c : ℕ} → c ≡ 429 → Asks c backoff

ruleset asks = (accepted, unauthorized, forbidden, over_quota, deprecated, rate_limited)

-- A status moves the machine to the state that it asks for, whatever the state before.
pub handle-Asks :
    (c : ℕ) (r : ℤ) (now : Time) (sm : StateMachine) {s : AgentState}
    → Asks c s
    → (handle_http_status c r now sm).0.state ≡ s
unfolding handle_http_status
handle-Asks c r now sm (accepted e) = ground arith
handle-Asks c r now sm (unauthorized e) = ground arith
handle-Asks c r now sm (forbidden e) = ground arith
handle-Asks c r now sm (over_quota e) = ground arith
handle-Asks c r now sm (deprecated e) = ground arith
handle-Asks c r now sm (rate_limited e) = ground arith

-- The state changes only to what the status asks for; the cancel function is called exactly for
-- 410, if it is set; and the instant until which the agent backs off is changed only by 402 and
-- 429.
pub handle_changes :
    (c : ℕ) (r : ℤ) (now : Time) (sm : StateMachine)
    → (((handle_http_status c r now sm).0.state ≡ sm.state)
        ⊎ Asks c (handle_http_status c r now sm).0.state)
      × ((handle_http_status c r now sm).1 ≡ (nat_eq c 410 && sm.cancel_func))
      × (((handle_http_status c r now sm).0.backoff_until ≡ sm.backoff_until)
          ⊎ (c ≡ 402)
          ⊎ (c ≡ 429))
unfolding handle_http_status
handle_changes c r now sm = (grind (arith, asks), ground arith, ground arith)
