-- ===== src/Transport/Response.antt =====
-- internal/transport/middleware.go: ParseResponse, and isNonRetryableError of client.go, which
-- reads the messages that ParseResponse writes.
use kubeadapt_agent.Prelude.{
  ℕ, ◌≤◌, ◌≡◌, ◌≢◌, refl, Bool, true, false, ◌||◌, Option, none, some, ◌∷◌, ◌++◌, String, arith,
  if◌then◌else◌, leb, nat_eq,
}
use kubeadapt_agent.Prelude.Int.{ℤ}
use kubeadapt_agent.Transport.Message.{
  decimal_ℤ, Text, text, contains_text, decimal, decimal-IsDigit, contains_text-digits,
}

-- pkg/model/response.go, the fields that the agent reads.
pub record SnapshotResponse : Type 0 where
  pub plan_type : String
  pub is_within_quota : Bool

pub record SnapshotErrorResponse : Type 0 where
  pub message : Text
  pub retry_after_seconds : Option ℤ

-- A response: its status, and what encoding/json decodes its body to as either message, or the
-- text of the decoder's error.
pub data Decoded (A : Type 0) : Type 0 where
  decoded : A → Decoded A
  malformed : Text → Decoded A

pub record HttpResponse : Type 0 where
  pub status_code : ℕ
  pub body : Decoded SnapshotResponse
  pub error_body : Decoded SnapshotErrorResponse

-- An error: whether it wraps ErrPayloadTooLarge, and its text.
pub record SendError : Type 0 where
  pub payload_too_large : Bool
  pub message : Text

pub data Result (T : Type 0) : Type 0 where
  ok : T → Result T
  err : SendError → Result T

abbrev pub errorf : {A : Type 0} → Text → Result A
errorf t = err (record { payload_too_large = false; message = t })

quota_message : SnapshotErrorResponse → Text
quota_message e = elim e.retry_after_seconds [
  | none ↦ e.message
  | some s ↦ e.message ++ (text " (retry after " ++ (decimal_ℤ s ++ text "s)"))
]

parse_ok : Decoded SnapshotResponse → Result SnapshotResponse
parse_ok (decoded r) = ok r
parse_ok (malformed t) = errorf (text "transport: failed to decode 200 response: " ++ t)

parse_quota : Decoded SnapshotErrorResponse → Result SnapshotResponse
unfolding quota_message
parse_quota (decoded e) = errorf (text "transport: quota exceeded: " ++ quota_message e)
parse_quota (malformed t) = errorf (text "transport: quota exceeded (HTTP 402)")

unfoldable pub parse_response : HttpResponse → Result SnapshotResponse
unfolding parse_ok parse_quota
parse_response r =
    let c = r.status_code in
    if nat_eq c 200
    then parse_ok r.body
    else if nat_eq c 401 || nat_eq c 403
    then errorf (text "transport: authentication failed (HTTP " ++ (decimal c ++ text ")"))
    else if nat_eq c 402
    then parse_quota r.error_body
    else if nat_eq c 404
    then errorf (
        text
          "transport: protocol mismatch (HTTP 404) — check X-Kubeadapt-Protocol header and backend URL")
    else if nat_eq c 410
    then errorf (text "transport: agent deprecated (HTTP 410)")
    else if nat_eq c 411
    then errorf
        (text "transport: length required (HTTP 411) — agent misconfigured, Content-Length missing")
    else if nat_eq c 413
    then errorf (
        text
          "transport: payload too large (HTTP 413) — snapshot exceeds server compressed-body cap")
    else if nat_eq c 415
    then errorf
        (text "transport: unsupported encoding (HTTP 415) — server requires Content-Encoding: zstd")
    else if nat_eq c 429
    then errorf (text "transport: rate limited (HTTP 429)")
    else if leb 500 c
    then errorf (text "transport: server error (HTTP " ++ (decimal c ++ text ")"))
    else errorf (text "transport: unexpected status (HTTP " ++ (decimal c ++ text ")"))

terminal_text : Text → Bool
terminal_text m =
    contains_text (text "authentication failed") m
    || contains_text (text "quota exceeded") m
    || contains_text (text "agent deprecated") m
    || contains_text (text "protocol mismatch") m
    || contains_text (text "unsupported encoding") m
    || contains_text (text "length required") m
    || contains_text (text "payload too large") m

unfoldable pub is_non_retryable_error : SendError → Bool
unfolding terminal_text
is_non_retryable_error e = if e.payload_too_large then true else terminal_text e.message

-- The statuses that the documentation calls terminal.
abbrev pub is_terminal_status : ℕ → Bool
is_terminal_status c =
    nat_eq c 401
    || nat_eq c 402
    || nat_eq c 403
    || nat_eq c 404
    || nat_eq c 410
    || nat_eq c 411
    || nat_eq c 413
    || nat_eq c 415

abbrev pub non_retryable : Result SnapshotResponse → Bool
non_retryable (ok r) = false
non_retryable (err e) = is_non_retryable_error e

absent_number :
    (p : ℕ) (ps : Text) (c : ℕ) → 58 ≤ p → contains_text (p ∷ ps) (decimal c ++ text ")") ≡ false
absent_number p ps c h =
    rw (contains_text-digits p ps (decimal c) (text ")") h (decimal-IsDigit c)) (ground arith)

none_of :
    {a b c d e f g : Bool}
    → a ≡ false
    → b ≡ false
    → c ≡ false
    → d ≡ false
    → e ≡ false
    → f ≡ false
    → g ≡ false
    → (a || b || c || d || e || f || g) ≡ false
none_of p q r s t u v = ground arith

server_error_retried :
    (c : ℕ)
    → terminal_text (text "transport: server error (HTTP " ++ (decimal c ++ text ")")) ≡ false
unfolding terminal_text
server_error_retried c =
    none_of (absent_number 97 (text "uthentication failed") c (omega arith))
      (absent_number 113 (text "uota exceeded") c (omega arith))
      (absent_number 97 (text "gent deprecated") c (omega arith))
      (absent_number 112 (text "rotocol mismatch") c (omega arith))
      (absent_number 117 (text "nsupported encoding") c (omega arith))
      (absent_number 108 (text "ength required") c (omega arith))
      (absent_number 112 (text "ayload too large") c (omega arith))

unexpected_retried :
    (c : ℕ)
    → terminal_text (text "transport: unexpected status (HTTP " ++ (decimal c ++ text ")")) ≡ false
unfolding terminal_text
unexpected_retried c =
    none_of (absent_number 97 (text "uthentication failed") c (omega arith))
      (absent_number 113 (text "uota exceeded") c (omega arith))
      (absent_number 97 (text "gent deprecated") c (omega arith))
      (absent_number 112 (text "rotocol mismatch") c (omega arith))
      (absent_number 117 (text "nsupported encoding") c (omega arith))
      (absent_number 108 (text "ength required") c (omega arith))
      (absent_number 112 (text "ayload too large") c (omega arith))

auth_terminal :
    (c : ℕ)
    → terminal_text (text "transport: authentication failed (HTTP " ++ (decimal c ++ text ")"))
      ≡ true
unfolding terminal_text
auth_terminal c = refl

second_of : (a c d e f g : Bool) → (a || true || c || d || e || f || g) ≡ true
second_of a c d e f g = ground arith

quota_terminal : (d : Decoded SnapshotErrorResponse) → non_retryable (parse_quota d) ≡ true
unfolding parse_quota is_non_retryable_error terminal_text
quota_terminal (decoded e) =
    let m = text "transport: quota exceeded: " ++ quota_message e in
    second_of (contains_text (text "authentication failed") m)
      (contains_text (text "agent deprecated") m) (contains_text (text "protocol mismatch") m)
      (contains_text (text "unsupported encoding") m) (contains_text (text "length required") m)
      (contains_text (text "payload too large") m)
quota_terminal (malformed t) = refl

-- Whatever a response other than 200 carries, Send gives up on it exactly if its status is 401,
-- 402, 403, 404, 410, 411, 413 or 415: the texts that ParseResponse writes and those that
-- isNonRetryableError looks for agree.
pub non_retryable-parse_response :
    (r : HttpResponse)
    → r.status_code ≢ 200
    → non_retryable (parse_response r) ≡ is_terminal_status r.status_code
unfolding parse_response is_non_retryable_error
non_retryable-parse_response r h = ground (
  arith,
  auth_terminal r.status_code,
  quota_terminal r.error_body,
  server_error_retried r.status_code,
  unexpected_retried r.status_code,
)
