-- ===== src/Examples/Sending.antt =====
-- The transport client and the state machine at concrete inputs.
use kubeadapt_agent.Prelude.{
  ℕ, zero, suc, ◌+◌, ◌≤◌, ◌<◌, ◌≡◌, ◌⊎◌, ◌&&◌, refl, true, false, arith, nat_eq, Option,
}
use kubeadapt_agent.Prelude.Int.{pos}
use kubeadapt_agent.Errors.{new_error_collector}
use kubeadapt_agent.Transport.Message.{decimal}
use kubeadapt_agent.Transport.Response.{
  SnapshotResponse, SendError, ok, err, parse_response, non_retryable, non_retryable-parse_response,
  is_terminal_status, is_non_retryable_error,
}
use kubeadapt_agent.Transport.Client.{encoded, do_send, send}
use kubeadapt_agent.Transport.Client.Retry.{is_retried, response_of, error_of, posts_of, pauses}
use kubeadapt_agent.Transport.Client.Sent.{verdict, send_decided, send_effects}
use kubeadapt_agent.StateMachine.{handle_http_status}
use kubeadapt_agent.StateMachine.Transitions.{Asks, handle_changes}
use kubeadapt_agent.Examples.Data.{
  quota_response, answer, busy_replies, send_world, client, machine,
}

busy_retried : (i : ℕ) → 0 ≤ i → i < 2 → is_retried (busy_replies i) ≡ true
unfolding is_retried do_send parse_response is_non_retryable_error decimal
busy_retried zero a b = refl
busy_retried (suc zero) a b = refl
busy_retried (suc (suc i)) a b = ground arith

always_busy : (i : ℕ) → 0 ≤ i → i < 3 → is_retried (answer 503) ≡ true
unfolding is_retried do_send parse_response is_non_retryable_error decimal
always_busy i a b = refl

unauthorized_decides : is_retried (answer 401) ≡ false
unfolding is_retried do_send parse_response is_non_retryable_error decimal
unauthorized_decides = refl

send_decided_example :
    (send (send_world busy_replies) (client (pos 5) (pos 100)) new_error_collector).2 ≡ record {
      returned = verdict (error_of 2 (answer 401)) (response_of (answer 401));
      posts = 2 + posts_of (answer 401);
      sleeps = pauses 0 3;
    }
send_decided_example =
    send_decided (send_world busy_replies) (client (pos 5) (pos 100)) new_error_collector 10 40 5 2
      refl refl refl (omega arith) (omega arith) (omega arith) busy_retried unauthorized_decides

send_effects_example :
    let w = send_world busy_replies in
    let c = client (pos 5) (pos 100) in
    let ec = new_error_collector in
    ((e : SendError) × ((send w c ec).2.returned ≡ err e) × ((send w c ec).0 ≡ c))
    ⊎ ((r : Option SnapshotResponse) × ((send w c ec).2.returned ≡ ok r)
        × ((send w c ec).1 ≡ ec)
        × ((send w c ec).0.max_retries ≡ c.max_retries)
        × (encoded
              (send w c ec).0.last_send_stats.compressed_bytes
              (send w c ec).0.last_send_stats.original_bytes
            ≡ w.encoding))
send_effects_example =
    send_effects (send_world busy_replies) (client (pos 5) (pos 100)) new_error_collector

non_retryable_example : non_retryable (parse_response quota_response) ≡ is_terminal_status 402
non_retryable_example = non_retryable-parse_response quota_response (λ e. omega arith)

handle_changes_example :
    let c : ℕ = 410 in
    let r = handle_http_status c (pos 0) (pos 10) machine in
    ((r.0.state ≡ machine.state) ⊎ Asks c r.0.state)
    × (r.1 ≡ (nat_eq c 410 && true))
    × ((r.0.backoff_until ≡ machine.backoff_until) ⊎ (c ≡ 402) ⊎ (c ≡ 429))
handle_changes_example = handle_changes 410 (pos 0) (pos 10) machine
