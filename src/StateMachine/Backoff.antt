-- ===== src/StateMachine/Backoff.antt =====
-- How long a backoff lasts.
use kubeadapt_agent.Prelude.{ℕ, ◌*◌, ◌<◌, ◌≡◌, ◌⊎◌, false, arith, if◌then◌else◌, nat_eq}
use kubeadapt_agent.Prelude.Int.{pos, ltb_ℤ, ◌+ℤ◌, ◌-ℤ◌, +ℤ_parts, -ℤ_parts, int64_half}
use kubeadapt_agent.Clock.{Time, second, seconds-pos, elapsed}
use kubeadapt_agent.StateMachine.{
  StateMachine, backoff_duration, handle_http_status, is_backoff_expired, backoff_remaining,
}

-- The backoff of a status, in seconds: what the response asks for, or the status' own default.
abbrev pub backoff_seconds : ℕ → ℕ → ℕ
backoff_seconds c r = if nat_eq r 0 then (if nat_eq c 402 then 300 else 30) else r

duration_lem :
    (r d : ℕ)
    → r * second < int64_half
    → backoff_duration (pos r) d ≡ pos ((if nat_eq r 0 then d else r) * second)
unfolding backoff_duration
duration_lem r d h = rw (seconds-pos r h, backoff_duration) (ground arith)

until_lem :
    (c r : ℕ) (t : Time) (sm : StateMachine)
    → (c ≡ 402) ⊎ (c ≡ 429)
    → r * second < int64_half
    → (handle_http_status c (pos r) t sm).0.backoff_until ≡ t +ℤ pos (backoff_seconds c r * second)
unfolding handle_http_status
until_lem c r t sm k h = ground (arith, duration_lem r 300, duration_lem r 30)

-- If the asked number of seconds fits an int64 of nanoseconds: after a 402 or 429 at instant `t`
-- the backoff has expired at `now` exactly if `now` lies more than the asked number of seconds (or
-- the default) after `t`.
pub expired_after :
    (c r : ℕ) (t now : Time) (sm : StateMachine)
    → (c ≡ 402) ⊎ (c ≡ 429)
    → r * second < int64_half
    → is_backoff_expired now (handle_http_status c (pos r) t sm).0
      ≡ ltb_ℤ (pos (backoff_seconds c r * second)) (now -ℤ t)
unfolding is_backoff_expired
expired_after c r t now sm k h =
    rw (until_lem c r t sm k h)
      (ground (arith, +ℤ_parts t (pos (backoff_seconds c r * second)), -ℤ_parts now t))

-- BackoffRemaining is 0 exactly at the instants from which on no time is left, and never negative.
pub remaining_zero_iff :
    (now : Time) (sm : StateMachine)
    → (ltb_ℤ (pos 0) (backoff_remaining now sm) ≡ ltb_ℤ now sm.backoff_until)
      × (ltb_ℤ (backoff_remaining now sm) (pos 0) ≡ false)
unfolding backoff_remaining elapsed
remaining_zero_iff now sm = ground (arith, -ℤ_parts sm.backoff_until now)
