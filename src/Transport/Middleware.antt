-- ===== src/Transport/Middleware.antt =====
-- internal/transport/middleware.go: retryTransport, which WithRetry wraps around a RoundTripper.
pub mod Trips
use kubeadapt_agent.Prelude.{
  ℕ, zero, suc, ◌+◌, Bool, true, false, ◌&&◌, ◌||◌, not, Option, none, some, List, [], ◌∷◌, ◌++◌,
  if◌then◌else◌, leb, ltb, nat_eq,
}
use kubeadapt_agent.Prelude.Int.{ℤ, pos, ltb_ℤ}
use kubeadapt_agent.Clock.{Duration, seconds}
use kubeadapt_agent.Transport.Response.{Decoded, decoded, malformed, SnapshotErrorResponse}
use kubeadapt_agent.Transport.Client.{sleep_with_backoff}

-- What the next RoundTripper gives: an error, or a response with its status, its Retry-After as
-- Atoi reads it, and its body, if there is one, as the decoder reads it.
pub data Reply : Type 0 where
  network_error : Reply
  response :
      (status_code : ℕ) (retry_after : Option ℤ) (body : Option (Decoded SnapshotErrorResponse))
      → Reply

abbrev pub default_delay : Duration
default_delay = seconds (pos 5)

-- A number of seconds, if there is one and it is positive.
abbrev pub positive_or : Duration → Option ℤ → Duration
positive_or rest none = rest
positive_or rest (some n) = if ltb_ℤ (pos 0) n then seconds n else rest

abbrev pub body_delay : Option (Decoded SnapshotErrorResponse) → Duration
body_delay none = default_delay
body_delay (some (malformed t)) = default_delay
body_delay (some (decoded e)) = positive_or default_delay e.retry_after_seconds

unfoldable pub retry_after_delay : Option ℤ → Option (Decoded SnapshotErrorResponse) → Duration
retry_after_delay retry_after body = positive_or (body_delay body) retry_after

-- Whether RoundTrip tries again after the reply, as long as it may.
unfoldable pub is_transient : Reply → Bool
is_transient network_error = true
is_transient (response status_code retry_after body) = leb 500 status_code || nat_eq status_code 429

-- The sleep before the next attempt.
unfoldable pub pause_after : ℕ → Reply → Duration
pause_after attempt network_error = sleep_with_backoff attempt
pause_after attempt (response status_code retry_after body) =
    if nat_eq status_code 429
    then retry_after_delay retry_after body
    else sleep_with_backoff attempt

-- The reply that RoundTrip returns; none if the loop had no round, for a nil response and a nil
-- error. Then the number of requests and the sleeps.
pub record RoundTripped : Type 0 where
  pub reply : Option Reply
  pub trips : ℕ
  pub sleeps : List Duration

-- The loop, with the rounds that are left; `reply i` is what the i-th request gets.
unfoldable pub retry_loop : ℕ → ℕ → ℕ → (ℕ → Reply) → RoundTripped → RoundTripped
retry_loop max_retries zero attempt reply s = s
retry_loop max_retries (suc left) attempt reply s =
    let r = reply attempt in
    let done : RoundTripped = record s { reply = some r; trips = s.trips + 1 } in
    let again =
      retry_loop max_retries left (suc attempt) reply
        (record done { sleeps = s.sleeps ++ pause_after attempt r ∷ [] }) in
    if is_transient r && ltb attempt max_retries then again else done

unfoldable pub round_trip : ℕ → (ℕ → Reply) → RoundTripped
round_trip max_retries reply =
    retry_loop max_retries (suc max_retries) 0 reply
      (record { reply = none; trips = 0; sleeps = [] })
