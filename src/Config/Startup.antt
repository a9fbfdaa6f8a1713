-- ===== src/Config/Startup.antt =====
-- A validated configuration and the client that NewClient makes of it.
use kubeadapt_agent.Prelude.{ℕ, ◌-◌, ◌≤◌, ◌≡◌, false, none, arith}
use kubeadapt_agent.Prelude.Int.{ℤ, pos, negsuc, ◌≤ℤ◌, ◌<ℤ◌, ◌+ℤ◌, int64_half}
use kubeadapt_agent.Errors.{ErrorCollector}
use kubeadapt_agent.Transport.Client.{
  Client, new_client, Exchange, attempted, encoded, SendWorld, max_attempts, over_limit, send,
}
use kubeadapt_agent.Transport.Client.Sent.{send_posts}
use kubeadapt_agent.Transport.Client.Posts.{send_starts}
use kubeadapt_agent.Config.{Config, validate}
use kubeadapt_agent.Config.Validity.{validate-IsValid}

abbrev pub client_of : Config → Client
client_of c = new_client c.max_retries c.max_compressed_body_bytes

at_most : (r : ℤ) (posts : ℕ) → pos 0 ≤ℤ r → posts ≤ max_attempts r → pos posts ≤ℤ r +ℤ pos 1
unfolding max_attempts ◌+ℤ◌
at_most (pos n) posts h k = ground arith
at_most (negsuc n) posts h k = absurd (omega arith)

-- With a configuration that Validate accepts, where MaxRetries is not the largest int: Send calls
-- doSend at least once and at most MaxRetries + 1 times for a snapshot that is encoded and within
-- the limit, if the context is not done before the first round.
pub validated_posts :
    (c : Config) (w : SendWorld) (ec : ErrorCollector) (n m : ℕ) (x : Exchange)
    → validate c ≡ none
    → c.max_retries <ℤ pos (int64_half - 1)
    → w.encoding ≡ encoded n m
    → over_limit n (client_of c).max_compressed_body_bytes ≡ false
    → w.reply 0 ≡ attempted x
    → (1 ≤ (send w (client_of c) ec).2.posts)
      × (pos (send w (client_of c) ec).2.posts ≤ℤ c.max_retries +ℤ pos 1)
unfolding new_client ◌+ℤ◌
validated_posts c w ec n m x valid below e fits first =
    let v = (validate-IsValid c).0 valid in
    (
      send_starts w (client_of c) ec n m x v.retries below e fits first,
      at_most c.max_retries (send w (client_of c) ec).2.posts v.retries
          (send_posts w (client_of c) ec),
    )
