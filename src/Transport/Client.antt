-- ===== src/Transport/Client.antt =====
-- internal/transport/client.go: NewClient, Send with its retry loop, doSend; sleepWithBackoff of
-- middleware.go. What the network, the encoder and the clocks answer is a value of `SendWorld`.
pub mod Retry
pub mod Sent
pub mod Posts
use kubeadapt_agent.Prelude.{
  ℕ, zero, suc, ◌+◌, ◌-◌, ◌*◌, ◌^◌, ◌≡◌, Bool, true, false, Option, none, some, List, [], ◌∷◌, ◌++◌,
  String, if◌then◌else◌, ltb, nat_eq,
}
use kubeadapt_agent.Prelude.Int.{ℤ, pos, negsuc, pos_part, ltb_ℤ, wrap64}
use kubeadapt_agent.Clock.{Time, Duration, second}
use kubeadapt_agent.Errors.{ErrorCollector, report, err_backend_unreachable}
use kubeadapt_agent.Transport.Message.{Text, text, decimal, decimal_ℤ}
use kubeadapt_agent.Transport.Response.{
  SnapshotResponse, HttpResponse, SendError, Result, ok, err, errorf, parse_response,
  is_non_retryable_error,
}

-- 50 MiB
abbrev pub default_max_compressed_body_bytes : ℤ
default_max_compressed_body_bytes = pos 52428800

pub record SendStats : Type 0 where
  pub original_bytes : ℕ
  pub compressed_bytes : ℕ
  pub encode_duration_ms : ℕ

pub record Client : Type 0 where
  pub max_retries : ℤ
  pub max_compressed_body_bytes : ℤ
  pub last_send_stats : SendStats

unfoldable pub new_client : ℤ → ℤ → Client
new_client max_retries max_compressed = record {
  max_retries = max_retries;
  max_compressed_body_bytes =
      if ltb_ℤ (pos 0) max_compressed then max_compressed else default_max_compressed_body_bytes;
  last_send_stats = record { original_bytes = 0; compressed_bytes = 0; encode_duration_ms = 0 };
}

-- What encodeSnapshot gives: the two byte counts, or the text of its error.
pub data Encoded : Type 0 where
  encoded : (compressed_bytes original_bytes : ℕ) → Encoded
  encode_failed : Text → Encoded

-- What doSend meets: a request that cannot be made, one that gets no response, or a response.
pub data Exchange : Type 0 where
  no_request : Text → Exchange
  no_response : Text → Exchange
  response : HttpResponse → Exchange

-- What one round of the loop meets: a context that is done, or an exchange.
pub data Attempt : Type 0 where
  canceled : Text → Attempt
  attempted : Exchange → Attempt

pub record SendWorld : Type 0 where
  pub encoding : Encoded
  pub encode_duration_ms : ℕ
  pub reply : ℕ → Attempt
  pub now : Time
  pub timestamp : ℕ

unfoldable pub do_send : Exchange → Result SnapshotResponse
do_send (no_request t) = errorf (text "transport: failed to create request: " ++ t)
do_send (no_response t) = errorf (text "transport: HTTP request failed: " ++ t)
do_send (response r) = parse_response r

-- The duration that sleepWithBackoff sleeps. The product wraps from 2 ^ 34 seconds on; for
-- 2 ^ 63 and more Go leaves the conversion of the float open.
unfoldable pub sleep_with_backoff : ℕ → Duration
sleep_with_backoff attempt = wrap64 (pos (2 ^ attempt * second))

-- The variables of the loop: `result`, `lastErr`, and what was done to the outside: how often
-- doSend was called, and the sleeps.
pub record Progress : Type 0 where
  pub result : Option SnapshotResponse
  pub last_err : Option SendError
  pub posts : ℕ
  pub sleeps : List Duration

abbrev pub start : Progress
start = record { result = none; last_err = none; posts = 0; sleeps = [] }

-- The sleep at the head of a round.
unfoldable pub pause : ℕ → Progress → Progress
pause zero s = s
pause (suc n) s = record s { sleeps = s.sleeps ++ sleep_with_backoff n ∷ [] }

abbrev pub canceled_error : ℕ → Text → SendError
canceled_error attempt t = record {
  payload_too_large = false;
  message =
      text "transport: context canceled before attempt "
      ++ (decimal (attempt + 1) ++ (text ": " ++ t));
}

after_send : Result SnapshotResponse → Progress → Progress × Bool
after_send (ok r) s = (record s { result = some r; last_err = none; posts = s.posts + 1 }, true)
after_send (err e) s =
    (record s { last_err = some e; posts = s.posts + 1 }, is_non_retryable_error e)

-- The rest of a round, and whether it leaves the loop.
unfoldable pub round : ℕ → Attempt → Progress → Progress × Bool
unfolding after_send do_send
round attempt (canceled t) s = (record s { last_err = some (canceled_error attempt t) }, true)
round attempt (attempted x) s = after_send (do_send x) s

-- `left` rounds are left, the next one is number `attempt`.
unfoldable pub send_loop : (ℕ → Attempt) → ℕ → ℕ → Progress → Progress
send_loop reply zero attempt s = s
send_loop reply (suc left) attempt s =
    let (s', stop) = round attempt (reply attempt) (pause attempt s) in
    let rest = send_loop reply left (suc attempt) s' in if stop then s' else rest

-- MaxRetries + 1, a sum of ints, as a number of rounds: none if it is not positive.
unfoldable pub max_attempts : ℤ → ℕ
max_attempts (pos n) = pos_part (wrap64 (pos (n + 1)))
max_attempts (negsuc n) = 0

-- What Send returns, and what it did on the way.
pub record SendRun : Type 0 where
  pub returned : Result (Option SnapshotResponse)
  pub posts : ℕ
  pub sleeps : List Duration

abbrev pub too_large_error : ℕ → ℤ → SendError
too_large_error n limit = record {
  payload_too_large = true;
  message =
      text "transport: compressed snapshot exceeds server limit (compressed="
      ++ (decimal n ++ (text ", limit=" ++ (decimal_ℤ limit ++ text ")")));
}

abbrev pub over_limit : ℕ → ℤ → Bool
over_limit n limit = if ltb_ℤ (pos 0) limit then ltb_ℤ limit (pos n) else false

finish : SendWorld → ℕ → ℕ → Progress → Client → ErrorCollector → Client × ErrorCollector × SendRun
finish w n m s c ec = elim s.last_err [
  | some e ↦ (
    c,
    report w.now
        (record {
          code = err_backend_unreachable;
          message = text "snapshot send failed: " ++ e.message;
          component = "transport";
          timestamp = w.timestamp;
          err = some e.message;
        })
        ec,
    record { returned = err e; posts = s.posts; sleeps = s.sleeps },
  )
  | none ↦ (
    record c {
      last_send_stats = record {
        original_bytes = m;
        compressed_bytes = n;
        encode_duration_ms = w.encode_duration_ms;
      };
    },
    ec,
    record { returned = ok s.result; posts = s.posts; sleeps = s.sleeps },
  )
]

send_encoded : SendWorld → Encoded → Client → ErrorCollector → Client × ErrorCollector × SendRun
unfolding finish send_loop
send_encoded w (encode_failed t) c ec =
    (c, ec, record { returned = errorf t; posts = 0; sleeps = [] })
send_encoded w (encoded n m) c ec =
    let s = send_loop w.reply (max_attempts c.max_retries) 0 start in
    let sent = finish w n m s c ec in
    if over_limit n c.max_compressed_body_bytes
    then (
      c,
      ec,
      record {
        returned = err (too_large_error n c.max_compressed_body_bytes);
        posts = 0;
        sleeps = [];
      },
    )
    else sent

unfoldable pub send : SendWorld → Client → ErrorCollector → Client × ErrorCollector × SendRun
unfolding send_encoded
send w c ec = send_encoded w w.encoding c ec
