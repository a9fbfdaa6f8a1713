-- ===== src/Errors.antt =====
-- internal/errors/errors.go: the collector of active agent errors. Each method that reads the
-- clock takes the instant that it reads.
pub mod Active
use kubeadapt_agent.Prelude.{
  ℕ, Bool, Option, List, [], ◌∷◌, ◌++◌, String, if◌then◌else◌, ◌==◌, String_eq, contains,
}
use kubeadapt_agent.Prelude.Int.{pos, ltb_ℤ}
use Prim.Native.String.{◌++◌ as append}
use kubeadapt_agent.Clock.{Time, elapsed}
use kubeadapt_agent.GoMap.{GoMap, insert, delete}

-- The error codes that the modelled code reports.
abbrev pub err_backend_unreachable : String
err_backend_unreachable = "BACKEND_UNREACHABLE"

abbrev pub err_informer_sync_timeout : String
err_informer_sync_timeout = "INFORMER_SYNC_TIMEOUT"

-- five minutes
abbrev pub default_ttl : ℕ
default_ttl = 300000000000

-- `message` is a list of code points; `err` is the text of the wrapped error, if there is one.
pub record AgentError : Type 0 where
  pub code : String
  pub message : List ℕ
  pub component : String
  pub timestamp : ℕ
  pub err : Option (List ℕ)

pub record Entry : Type 0 where
  pub err : AgentError
  pub last_report : Time

pub record ErrorCollector : Type 0 where
  pub entries : GoMap String Entry

abbrev pub new_error_collector : ErrorCollector
new_error_collector = record { entries = [] }

unfoldable pub key : String → String → String
key code component = append code (append "|" component)

unfoldable pub report : Time → AgentError → ErrorCollector → ErrorCollector
report now err ec = record {
  entries =
      insert (key err.code err.component) (record { err = err; last_report = now }) ec.entries;
}

unfoldable pub expired : Time → Entry → Bool
expired now e = ltb_ℤ (pos default_ttl) (elapsed now e.last_report)

-- The loop of GetActiveErrors: `todo` is what the range still has to visit.
unfoldable pub active_loop :
    Time
    → GoMap String Entry
    → GoMap String Entry
    → List AgentError
    → GoMap String Entry × List AgentError
active_loop now [] entries result = (entries, result)
active_loop now ((k, e) ∷ todo) entries result =
    let gone = expired now e in
    active_loop now todo (if gone then delete k entries else entries)
      (if gone then result else result ++ e.err ∷ [])

unfoldable pub get_active_errors : Time → ErrorCollector → ErrorCollector × List AgentError
unfolding active_loop
get_active_errors now ec =
    let (entries, result) = active_loop now ec.entries ec.entries [] in
    (record { entries = entries }, result)

abbrev pub add_code : String → List String → List String
add_code c codes = if contains c codes then codes else codes ++ c ∷ []

-- The loop of GetActiveErrorCodes; the keys of `seen` are the elements of `codes`.
unfoldable pub codes_loop :
    Time → GoMap String Entry → GoMap String Entry → List String → GoMap String Entry × List String
codes_loop now [] entries codes = (entries, codes)
codes_loop now ((k, e) ∷ todo) entries codes =
    let gone = expired now e in
    codes_loop now todo (if gone then delete k entries else entries)
      (if gone then codes else add_code e.err.code codes)

unfoldable pub get_active_error_codes : Time → ErrorCollector → ErrorCollector × List String
unfolding codes_loop
get_active_error_codes now ec =
    let (entries, codes) = codes_loop now ec.entries ec.entries [] in
    (record { entries = entries }, codes)

unfoldable pub clear : ErrorCollector → ErrorCollector
clear ec = record { entries = [] }
