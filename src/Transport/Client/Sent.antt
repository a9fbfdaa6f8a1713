-- ===== src/Transport/Client/Sent.antt =====
-- What Send returns and leaves behind, on each of its paths.
use native.Mathlib.Nat.{zero-add}
use native.Mathlib.Numerals.{add-one}
use kubeadapt_agent.Prelude.{
  ℕ, zero, suc, ◌+◌, ◌≤◌, ◌<◌, ◌≡◌, ◌⊎◌, refl, ap, ◌∙◌, true, false, Option, none, some, [], arith,
  inl, inr,
}
use kubeadapt_agent.Prelude.Int.{pos, int64_half}
use kubeadapt_agent.Errors.{ErrorCollector}
use kubeadapt_agent.Transport.Response.{SnapshotResponse, SendError, Result, ok, err}
use kubeadapt_agent.Transport.Client.{
  Attempt, canceled, attempted, Client, SendWorld, SendRun, Encoded, encoded, encode_failed,
  Progress, start, pause, round, send_loop, max_attempts, over_limit, finish, send_encoded,
  too_large_error, send,
}
use kubeadapt_agent.Transport.Client.Retry.{
  is_retried, response_of, error_of, posts_of, pauses, Outcome, outcome, send_loop_decided,
  send_loop_exhausted, max_attempts-pos,
}

abbrev pub verdict : Option SendError → Option SnapshotResponse → Result (Option SnapshotResponse)
verdict none r = ok r
verdict (some e) r = err e

finish_run :
    (w : SendWorld) (n m : ℕ) (s : Progress) (c : Client) (ec : ErrorCollector)
    → (finish w n m s c ec).2
      ≡ record { returned = verdict s.last_err s.result; posts = s.posts; sleeps = s.sleeps }
unfolding finish
finish_run w n m s c ec = ground arith

run_of : Outcome → SendRun
run_of o = record { returned = verdict o.1 o.0; posts = o.2; sleeps = o.3 }

send_encoded_run :
    (w : SendWorld) (n b : ℕ) (c : Client) (ec : ErrorCollector)
    → over_limit n c.max_compressed_body_bytes ≡ false
    → (send_encoded w (encoded n b) c ec).2
      ≡ run_of (outcome (send_loop w.reply (max_attempts c.max_retries) 0 start))
unfolding send_encoded run_of
send_encoded_run w n b c ec h =
    rw h (finish_run w n b (send_loop w.reply (max_attempts c.max_retries) 0 start) c ec)

module _ (w : SendWorld) (c : Client) (ec : ErrorCollector) (n b r : ℕ) where
  -- With a body within the limit and `r` retries, where `r + 1` is an int64: if the rounds before
  -- round `m`, counted from 0, are retried and round `m` is not, and `m` is at most 34, Send returns
  -- what round `m` gives, has called doSend once for each round (not for a canceled one), and has
  -- slept 1s, 2s, 4s, … between the rounds.
  pub send_decided :
      (m : ℕ)
      → w.encoding ≡ encoded n b
      → over_limit n c.max_compressed_body_bytes ≡ false
      → c.max_retries ≡ pos r
      → r + 1 < int64_half
      → m ≤ r
      → m ≤ 34
      → ((i : ℕ) → 0 ≤ i → i < m → is_retried (w.reply i) ≡ true)
      → is_retried (w.reply m) ≡ false
      → (send w c ec).2 ≡ record {
        returned = verdict (error_of m (w.reply m)) (response_of (w.reply m));
        posts = m + posts_of (w.reply m);
        sleeps = pauses 0 (suc m);
      }
  unfolding send run_of
  send_decided m enc fits retries wide le short retried decisive =
      rw (enc, send_encoded_run w n b c ec fits, retries, max_attempts-pos r wide)
        (ap run_of (
            send_loop_decided w.reply (r + 1) m 0 m start (omega arith) (omega arith) short refl
              retried decisive)
          ∙ rw zero-add refl)

  -- If every round is retried, and there are at most 35, Send gives up with the last round's error,
  -- after `r + 1` calls of doSend.
  pub send_exhausted :
      w.encoding ≡ encoded n b
      → over_limit n c.max_compressed_body_bytes ≡ false
      → c.max_retries ≡ pos r
      → r ≤ 34
      → ((i : ℕ) → 0 ≤ i → i < suc r → is_retried (w.reply i) ≡ true)
      → (send w c ec).2 ≡ record {
        returned = verdict (error_of r (w.reply r)) none;
        posts = suc r;
        sleeps = pauses 0 (suc r);
      }
  unfolding send run_of
  send_exhausted enc fits retries short retried =
      rw (enc, send_encoded_run w n b c ec fits, retries, max_attempts-pos r (omega arith), add-one)
        (ap run_of (
            send_loop_exhausted w.reply r 0 start (omega arith)
              (λ i a lt. retried i a (omega arith)))
          ∙ rw (zero-add) (rw zero-add refl))

  -- A body over the limit is refused with no request, and leaves the client and the collector.
  pub send-over_limit :
      w.encoding ≡ encoded n b
      → over_limit n c.max_compressed_body_bytes ≡ true
      → send w c ec ≡ (
        c,
        ec,
        record {
          returned = err (too_large_error n c.max_compressed_body_bytes);
          posts = 0;
          sleeps = [];
        },
      )
  unfolding send send_encoded
  send-over_limit enc over = rw enc (rw over refl)

Result-cases :
    {A : Type 0} (x : Result A) → ((e : SendError) × (x ≡ err e)) ⊎ ((a : A) × (x ≡ ok a))
Result-cases (err e) = inl (e, refl)
Result-cases (ok a) = inr (a, refl)

send_encoded_effects :
    (w : SendWorld) (x : Encoded) (c : Client) (ec : ErrorCollector)
    → ((e : SendError) → (send_encoded w x c ec).2.returned ≡ err e → (send_encoded w x c ec).0 ≡ c)
      × ((r : Option SnapshotResponse)
          → (send_encoded w x c ec).2.returned ≡ ok r
          → ((send_encoded w x c ec).1 ≡ ec)
            × ((send_encoded w x c ec).0.max_retries ≡ c.max_retries)
            × (encoded
                  (send_encoded w x c ec).0.last_send_stats.compressed_bytes
                  (send_encoded w x c ec).0.last_send_stats.original_bytes
                ≡ x))
unfolding send_encoded finish
send_encoded_effects w (encode_failed t) c ec = (λ e h. refl, λ r h. cc)
send_encoded_effects w (encoded n b) c ec = (λ e h. ground arith, λ r h. ground arith)

-- A Send that fails leaves the client as it was; one that succeeds leaves the error collector and
-- MaxRetries as they were, and records the two byte counts of the body that it sent.
pub send_effects :
    (w : SendWorld) (c : Client) (ec : ErrorCollector)
    → ((e : SendError) × ((send w c ec).2.returned ≡ err e) × ((send w c ec).0 ≡ c))
      ⊎ ((r : Option SnapshotResponse) × ((send w c ec).2.returned ≡ ok r)
          × ((send w c ec).1 ≡ ec)
          × ((send w c ec).0.max_retries ≡ c.max_retries)
          × (encoded
                (send w c ec).0.last_send_stats.compressed_bytes
                (send w c ec).0.last_send_stats.original_bytes
              ≡ w.encoding))
unfolding send
send_effects w c ec =
    let (failed, sent) = send_encoded_effects w w.encoding c ec in
    elim (Result-cases (send w c ec).2.returned) [
      | inl (e, h) ↦ inl (e, h, failed e h)
      | inr (r, h) ↦ let (x, y, z) = sent r h in inr (r, h, x, y, z)
    ]

round_posts : (k : ℕ) (a : Attempt) (s : Progress) → (round k a s).0.posts ≤ s.posts + 1
unfolding round
round_posts k (canceled t) s = omega arith
round_posts k (attempted x) s = ground arith

pause_posts : (k : ℕ) (s : Progress) → (pause k s).posts ≡ s.posts
unfolding pause
pause_posts zero s = refl
pause_posts (suc k) s = refl

send_loop_posts :
    (reply : ℕ → Attempt) (n k : ℕ) (s : Progress) → (send_loop reply n k s).posts ≤ s.posts + n
unfolding send_loop
send_loop_posts reply zero k s = omega arith
send_loop_posts reply (suc n) k s = ground (
  arith,
  round_posts k (reply k) (pause k s),
  pause_posts k s,
  send_loop_posts reply n (suc k) (round k (reply k) (pause k s)).0,
)

send_encoded_posts :
    (w : SendWorld) (x : Encoded) (c : Client) (ec : ErrorCollector)
    → (send_encoded w x c ec).2.posts ≤ max_attempts c.max_retries
unfolding send_encoded finish
send_encoded_posts w (encode_failed t) c ec = omega arith
send_encoded_posts w (encoded n b) c ec =
    ground (arith, send_loop_posts w.reply (max_attempts c.max_retries) 0 start)

-- Whatever the network does, Send calls doSend at most once in each of the rounds that MaxRetries
-- gives it.
pub send_posts :
    (w : SendWorld) (c : Client) (ec : ErrorCollector)
    → (send w c ec).2.posts ≤ max_attempts c.max_retries
unfolding send
send_posts w c ec = send_encoded_posts w w.encoding c ec
