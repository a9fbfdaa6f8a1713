-- ===== src/Transport/Client/Retry.antt =====
-- The retry loop of Send against the rounds that it should make: it stops at the first decisive
-- round, or after the last one.
use native.Mathlib.Nat.{add-zero, suc-add, add-suc, pow-le-pow_right}
use mathlib.Core.List.{append_assoc, append-nil}
use kubeadapt_agent.Prelude.{
  ℕ, zero, suc, ◌+◌, ◌*◌, ◌^◌, ◌≤◌, ◌<◌, ◌≡◌, refl, sym, ◌∙◌, Bool, true, false, not, Option, none,
  some, List, [], ◌∷◌, ◌++◌, arith,
}
use kubeadapt_agent.Prelude.Int.{pos, int64_half}
use kubeadapt_agent.Clock.{Duration}
use kubeadapt_agent.Transport.Response.{
  SnapshotResponse, SendError, Result, ok, err, is_non_retryable_error,
}
use kubeadapt_agent.Transport.Client.{
  Attempt, canceled, attempted, do_send, sleep_with_backoff, Progress, pause, canceled_error, round,
  send_loop, max_attempts,
}

is_retried_result : Result SnapshotResponse → Bool
is_retried_result (ok r) = false
is_retried_result (err e) = not (is_non_retryable_error e)

-- A round that the loop goes on after: its error is one of those worth another attempt.
unfoldable pub is_retried : Attempt → Bool
unfolding is_retried_result
is_retried (canceled t) = false
is_retried (attempted x) = is_retried_result (do_send x)

result_response : Result SnapshotResponse → Option SnapshotResponse
result_response (ok r) = some r
result_response (err e) = none

result_error : Result SnapshotResponse → Option SendError
result_error (ok r) = none
result_error (err e) = some e

-- What a round by itself gives: its response, its error, and the number of requests that it sends.
unfoldable pub response_of : Attempt → Option SnapshotResponse
unfolding result_response
response_of (canceled t) = none
response_of (attempted x) = result_response (do_send x)

unfoldable pub error_of : ℕ → Attempt → Option SendError
unfolding result_error
error_of attempt (canceled t) = some (canceled_error attempt t)
error_of attempt (attempted x) = result_error (do_send x)

unfoldable pub posts_of : Attempt → ℕ
posts_of (canceled t) = 0
posts_of (attempted x) = 1

-- The sleeps of `n` rounds from round `attempt` on, in nanoseconds: 1s, 2s, 4s, … and none before
-- round 0.
unfoldable pub pauses : ℕ → ℕ → List Duration
pauses attempt zero = []
pauses zero (suc n) = pauses 1 n
pauses (suc attempt) (suc n) = pos (2 ^ attempt * 1000000000) ∷ pauses (suc (suc attempt)) n

-- Up to 2^33 seconds a sleep fits an int64.
sleep_with_backoff_lem : (n : ℕ) → n ≤ 33 → sleep_with_backoff n ≡ pos (2 ^ n * 1000000000)
unfolding sleep_with_backoff
sleep_with_backoff_lem n h =
    let p : 2 ^ n ≤ 8589934592 = pow-le-pow_right (omega arith) h in ground (arith, p)

-- MaxRetries + 1, unless it wraps.
pub max_attempts-pos : (r : ℕ) → r + 1 < int64_half → max_attempts (pos r) ≡ r + 1
unfolding max_attempts
max_attempts-pos r h = ground arith

abbrev pub Outcome : Type 0
Outcome = Option SnapshotResponse × Option SendError × ℕ × List Duration

abbrev pub outcome : Progress → Outcome
outcome s = (s.result, s.last_err, s.posts, s.sleeps)

round_retried :
    (k : ℕ) (a : Attempt) (s : Progress)
    → is_retried a ≡ true
    → round k a s ≡ (record s { last_err = error_of k a; posts = s.posts + 1 }, false)
unfolding round is_retried error_of
round_retried k (canceled t) s h = ground arith
round_retried k (attempted x) s h = ground arith

round_decisive :
    (k : ℕ) (a : Attempt) (s : Progress)
    → is_retried a ≡ false
    → s.result ≡ none
    → ((round k a s).1 ≡ true)
      × (outcome (round k a s).0 ≡ (response_of a, error_of k a, s.posts + posts_of a, s.sleeps))
unfolding round is_retried error_of response_of posts_of
round_decisive k (canceled t) s h n = ground arith
round_decisive k (attempted x) s h n = ground arith

pause_lem :
    (k n : ℕ) (s : Progress)
    → k ≤ 34
    → (pause k s).sleeps ++ pauses (suc k) n ≡ s.sleeps ++ pauses k (suc n)
unfolding pause pauses
pause_lem zero n s h = refl
pause_lem (suc k) n s h =
    rw (sleep_with_backoff_lem k (omega arith))
      (append_assoc s.sleeps (pos (2 ^ k * 1000000000) ∷ []) (pauses (suc (suc k)) n))

pause_last : (k : ℕ) (s : Progress) → k ≤ 34 → (pause k s).sleeps ≡ s.sleeps ++ pauses k 1
unfolding pause pauses
pause_last zero s h = sym (append-nil s.sleeps)
pause_last (suc k) s h = rw (sleep_with_backoff_lem k (omega arith)) refl

pause_rest :
    (k : ℕ) (s : Progress)
    → ((pause k s).result ≡ s.result)
      × ((pause k s).last_err ≡ s.last_err)
      × ((pause k s).posts ≡ s.posts)
unfolding pause
pause_rest zero s = (refl, refl, refl)
pause_rest (suc k) s = (refl, refl, refl)

after_retry : ℕ → Attempt → Progress → Progress
after_retry k a s = record (pause k s) { last_err = error_of k a; posts = (pause k s).posts + 1 }

send_loop_retried :
    (reply : ℕ → Attempt) (n k : ℕ) (s : Progress)
    → is_retried (reply k) ≡ true
    → send_loop reply (suc n) k s ≡ send_loop reply n (suc k) (after_retry k (reply k) s)
unfolding send_loop after_retry
send_loop_retried reply n k s h = rw (round_retried k (reply k) (pause k s) h) refl

send_loop_decisive :
    (reply : ℕ → Attempt) (n k : ℕ) (s : Progress)
    → is_retried (reply k) ≡ false
    → s.result ≡ none
    → outcome (send_loop reply (suc n) k s) ≡ (
      response_of (reply k),
      error_of k (reply k),
      s.posts + posts_of (reply k),
      (pause k s).sleeps,
    )
unfolding send_loop
send_loop_decisive reply n k s h q =
    ground (arith, round_decisive k (reply k) (pause k s) h, pause_rest k s)

result-after_retry : (k : ℕ) (a : Attempt) (s : Progress) → (after_retry k a s).result ≡ s.result
unfolding after_retry
result-after_retry k a s = (pause_rest k s).0

-- From round `k` on, `d` rounds that are retried and then a decisive round `m`.
pub send_loop_decided :
    (reply : ℕ → Attempt) (n d k m : ℕ) (s : Progress)
    → d < n
    → m ≡ k + d
    → m ≤ 34
    → s.result ≡ none
    → ((i : ℕ) → k ≤ i → i < m → is_retried (reply i) ≡ true)
    → is_retried (reply m) ≡ false
    → outcome (send_loop reply n k s) ≡ (
      response_of (reply m),
      error_of m (reply m),
      s.posts + d + posts_of (reply m),
      s.sleeps ++ pauses k (suc d),
    )
unfolding after_retry
send_loop_decided reply zero d k m s lt e b q r stop = absurd (omega arith)
send_loop_decided reply (suc n) zero k m s lt e b q r stop =
    let mk : m ≡ k = omega arith in
    rw (mk, send_loop_decisive reply n k s (rw mk at stop) q)
      (ground (arith, pause_last k s (omega arith)))
send_loop_decided reply (suc n) (suc d) k m s lt e b q r stop =
    rw
      (
        send_loop_retried reply n k s (r k (omega arith) (omega arith)),
        send_loop_decided reply n d (suc k) m (after_retry k (reply k) s) (omega arith)
            (omega arith) b (result-after_retry k (reply k) s ∙ q) (λ i a c. r i (omega arith) c)
            stop,
      )
      (ground (arith, pause_lem k (suc d) s (omega arith), pause_rest k s))

-- `n` rounds that are all retried.
pub send_loop_exhausted :
    (reply : ℕ → Attempt) (n k : ℕ) (s : Progress)
    → k + n ≤ 34
    → ((i : ℕ) → k ≤ i → i < k + suc n → is_retried (reply i) ≡ true)
    → outcome (send_loop reply (suc n) k s)
      ≡ (s.result, error_of (k + n) (reply (k + n)), s.posts + suc n, s.sleeps ++ pauses k (suc n))
unfolding after_retry
send_loop_exhausted reply zero k s b r =
    rw (send_loop_retried reply zero k s (r k (omega arith) (omega arith)), add-zero)
      (unfold send_loop in ground (arith, pause_last k s (omega arith), pause_rest k s))
send_loop_exhausted reply (suc n) k s b r =
    rw
      (
        send_loop_retried reply (suc n) k s (r k (omega arith) (omega arith)),
        send_loop_exhausted reply n (suc k) (after_retry k (reply k) s) (omega arith)
            (λ i a c. r i (omega arith) (omega arith)),
        suc-add,
        add-suc,
      )
      (ground (arith, pause_lem k (suc n) s (omega arith), pause_rest k s))
