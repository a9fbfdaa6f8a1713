-- ===== src/Transport/Client/Posts.antt =====
-- Send calls doSend at least once, unless MaxRetries is negative or there is nothing to send.
use kubeadapt_agent.Prelude.{ℕ, zero, suc, ◌+◌, ◌-◌, ◌≤◌, ◌≡◌, refl, ap, ◌∙◌, false, arith}
use kubeadapt_agent.Prelude.Int.{ℤ, pos, negsuc, ◌≤ℤ◌, ◌<ℤ◌, int64_half}
use kubeadapt_agent.Errors.{ErrorCollector}
use kubeadapt_agent.Transport.Client.{
  Client, Exchange, Attempt, canceled, attempted, Encoded, encoded, SendWorld, Progress, start,
  pause, round, send_loop, max_attempts, over_limit, finish, send_encoded, send, after_send,
}
use kubeadapt_agent.Transport.Client.Retry.{max_attempts-pos}

pause_kept : (k : ℕ) (s : Progress) → (pause k s).posts ≡ s.posts
unfolding pause
pause_kept zero s = refl
pause_kept (suc k) s = refl

round_grows : (k : ℕ) (a : Attempt) (s : Progress) → s.posts ≤ (round k a s).0.posts
unfolding round after_send
round_grows k (canceled t) s = omega arith
round_grows k (attempted x) s = ground arith

send_loop_grows :
    (reply : ℕ → Attempt) (n k : ℕ) (s : Progress) → s.posts ≤ (send_loop reply n k s).posts
unfolding send_loop
send_loop_grows reply zero k s = omega arith
send_loop_grows reply (suc n) k s = ground (
  arith,
  round_grows k (reply k) (pause k s),
  pause_kept k s,
  send_loop_grows reply n (suc k) (round k (reply k) (pause k s)).0,
)

first_round : (x : Exchange) (s : Progress) → (round 0 (attempted x) s).0.posts ≡ s.posts + 1
unfolding round after_send
first_round x s = ground arith

send_loop_starts :
    (reply : ℕ → Attempt) (n : ℕ) (x : Exchange) (s : Progress)
    → reply 0 ≡ attempted x
    → 1 ≤ (send_loop reply (suc n) 0 s).posts
unfolding send_loop pause
send_loop_starts reply n x s first =
    let one : 1 ≤ (round 0 (reply 0) s).0.posts = rw first (omega (arith, first_round x s)) in
    ground (arith, one, send_loop_grows reply n 1 (round 0 (reply 0) s).0)

rounds_of : (r : ℤ) → pos 0 ≤ℤ r → r <ℤ pos (int64_half - 1) → (n : ℕ) × (max_attempts r ≡ suc n)
rounds_of (pos n) h b = (n, max_attempts-pos n (omega arith) ∙ omega arith)
rounds_of (negsuc n) h b = absurd (omega arith)

finish_posts :
    (w : SendWorld) (n m : ℕ) (s : Progress) (c : Client) (ec : ErrorCollector)
    → (finish w n m s c ec).2.posts ≡ s.posts
unfolding finish
finish_posts w n m s c ec = ground arith

encoded_posts :
    (w : SendWorld) (c : Client) (ec : ErrorCollector) (n m : ℕ)
    → over_limit n c.max_compressed_body_bytes ≡ false
    → (send_encoded w (encoded n m) c ec).2.posts
      ≡ (send_loop w.reply (max_attempts c.max_retries) 0 start).posts
unfolding send_encoded
encoded_posts w c ec n m fits =
    rw fits (finish_posts w n m (send_loop w.reply (max_attempts c.max_retries) 0 start) c ec)

-- If MaxRetries is not negative and not the largest int, the snapshot is encoded and within the
-- limit, and the context is not done before the first round, Send calls doSend at least once.
pub send_starts :
    (w : SendWorld) (c : Client) (ec : ErrorCollector) (n m : ℕ) (x : Exchange)
    → pos 0 ≤ℤ c.max_retries
    → c.max_retries <ℤ pos (int64_half - 1)
    → w.encoding ≡ encoded n m
    → over_limit n c.max_compressed_body_bytes ≡ false
    → w.reply 0 ≡ attempted x
    → 1 ≤ (send w c ec).2.posts
unfolding send
send_starts w c ec n m x retries below e fits first =
    let (left, rounds) = rounds_of c.max_retries retries below in
    let begun = send_loop_starts w.reply left x start first in
    let all = ap (λ (k : ℕ). (send_loop w.reply k 0 start).posts) rounds in
    let posted = ap (λ (y : Encoded). (send_encoded w y c ec).2.posts) e in
    omega (arith, begun, all, posted, encoded_posts w c ec n m fits)
