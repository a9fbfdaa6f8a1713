-- ===== src/Transport/Middleware/Trips.antt =====
-- How often retryTransport sends a request, and which reply it returns.
use kubeadapt_agent.Prelude.{
  ℕ, zero, suc, ◌+◌, ◌≤◌, ◌≡◌, refl, ap, Bool, true, false, ◌&&◌, none, some, [], ◌∷◌, ◌++◌, arith,
  if◌then◌else◌, ltb, Bool-cases, inl, inr,
}
use kubeadapt_agent.Transport.Middleware.{
  Reply, is_transient, pause_after, RoundTripped, retry_loop, round_trip,
}

-- The first of `left` attempts from the given one on whose reply is not transient, or the one
-- after them.
abbrev pub decisive : ℕ → ℕ → (ℕ → Reply) → ℕ
decisive zero attempt reply = attempt
decisive (suc left) attempt reply =
    if is_transient (reply attempt) then decisive left (suc attempt) reply else attempt

decisive-bounds :
    (left attempt : ℕ) (reply : ℕ → Reply)
    → (attempt ≤ decisive left attempt reply) × (decisive left attempt reply ≤ attempt + left)
decisive-bounds zero attempt reply = (omega arith, omega arith)
decisive-bounds (suc left) attempt reply = ground (arith, decisive-bounds left (suc attempt) reply)

last_attempt : (b : Bool) (attempt : ℕ) → (b && ltb attempt attempt) ≡ false
last_attempt false attempt = refl
last_attempt true attempt = ground arith

retry_loop_lem :
    (max_retries left attempt : ℕ) (reply : ℕ → Reply) (s : RoundTripped)
    → attempt + left ≡ max_retries
    → s.trips ≡ attempt
    → ((retry_loop max_retries (suc left) attempt reply s).reply
        ≡ some (reply (decisive left attempt reply)))
      × ((retry_loop max_retries (suc left) attempt reply s).trips
          ≡ decisive left attempt reply + 1)
unfolding retry_loop
retry_loop_lem max_retries zero attempt reply s e t =
    let same : max_retries ≡ attempt = omega arith in
    rw same (rw (last_attempt (is_transient (reply attempt)) attempt) (refl, ap (λ n. n + 1) t))
retry_loop_lem max_retries (suc left) attempt reply s e t =
    let below : ltb attempt max_retries ≡ true = ground arith in
    let more =
      retry_loop_lem max_retries left (suc attempt) reply
        (record s {
          reply = some (reply attempt);
          trips = s.trips + 1;
          sleeps = s.sleeps ++ pause_after attempt (reply attempt) ∷ [];
        })
        (omega arith) (omega (arith, t)) in
    rw below (elim (Bool-cases (is_transient (reply attempt))) [
      | inl y ↦ rw (y, retry_loop) more
      | inr n ↦ rw (n, retry_loop) (refl, ap (λ n. n + 1) t)
    ])

-- With a number of retries that is not negative, RoundTrip returns the first reply that is neither
-- an error of the network nor of status 429 or from 500 on, or the last one that it may get; it
-- sends one request for each reply up to this, and so at most one more than the retries.
pub round_trip_lem :
    (max_retries : ℕ) (reply : ℕ → Reply)
    → ((round_trip max_retries reply).reply ≡ some (reply (decisive max_retries 0 reply)))
      × ((round_trip max_retries reply).trips ≡ decisive max_retries 0 reply + 1)
      × ((round_trip max_retries reply).trips ≤ max_retries + 1)
unfolding round_trip
round_trip_lem max_retries reply =
    let both =
      retry_loop_lem max_retries max_retries 0 reply
        (record { reply = none; trips = 0; sleeps = [] }) (omega arith) refl in
    let within = (decisive-bounds max_retries 0 reply).1 in
    (both.0, both.1, omega (arith, both.1, within))
