-- ===== src/Errors/Active.antt =====
-- What the two readers of the error collector return, and what they drop.
use kubeadapt_agent.Prelude.{
  Bool, ◌*◌, ◌≡◌, refl, sym, ap, ◌∙◌, true, not, Option, none, some, List, [], ◌∷◌, ◌++◌, String,
  arith, if◌then◌else◌, ◌==◌, String_eq, contains, Distinct, Distinct-snoc, contains-append, keep,
  Bool-cases, inl, inr,
}
use mathlib.Core.Path.{subst}
use mathlib.Core.List.{append_assoc, append-nil}
use kubeadapt_agent.Prelude.Int.{pos, ltb_ℤ, ◌-ℤ◌}
use kubeadapt_agent.Clock.{Time, elapsed-gt}
use kubeadapt_agent.GoMap.{GoMap, insert, delete, lookup, lookup-insert}
use kubeadapt_agent.GoMap.Keys.{IsMap, insert-IsMap, lookup-keep, delete-middle, delete-IsMap}
use kubeadapt_agent.Errors.{
  AgentError, Entry, ErrorCollector, key, report, expired, active_loop, get_active_errors,
  codes_loop, add_code, get_active_error_codes, default_ttl,
}

-- Whether more than five minutes lie between a report and `now`.
abbrev pub is_old : Time → Entry → Bool
is_old now e = ltb_ℤ (pos (5 * 60 * 1000000000)) (now -ℤ e.last_report)

-- The entries that a reader at `now` leaves.
abbrev pub fresh : Time → GoMap String Entry → GoMap String Entry
fresh now m = keep (λ p. not (is_old now p.1)) m

expired-is_old : (now : Time) (e : Entry) → expired now e ≡ is_old now e
unfolding expired
expired-is_old now e = elapsed-gt now e.last_report default_ttl (omega arith)

abbrev pub errors_of : GoMap String Entry → List AgentError
errors_of [] = []
errors_of ((k, e) ∷ m) = e.err ∷ errors_of m

shift {ℓ} : {A : Type ℓ} (xs ys : List A) (x : A) → (xs ++ x ∷ []) ++ ys ≡ xs ++ (x ∷ ys)
shift xs ys x = append_assoc xs (x ∷ []) ys

active_loop_lem :
    (now : Time) (pre todo m : GoMap String Entry) (out : List AgentError)
    → IsMap m
    → m ≡ pre ++ todo
    → active_loop now todo m out ≡ (pre ++ fresh now todo, out ++ errors_of (fresh now todo))
unfolding active_loop
active_loop_lem now pre [] m out h eq = rw (append-nil out) (rw (eq, append-nil))
active_loop_lem now pre ((k, e) ∷ todo) m out h eq = elim (Bool-cases (is_old now e)) [
  | inl p ↦
      let h' = subst IsMap eq h in
      rw (expired-is_old now e, p)
        (active_loop_lem now pre todo (delete k m) out (delete-IsMap k m h)
          (rw eq (delete-middle pre todo k e h')))
  | inr p ↦
      rw (expired-is_old now e, p)
        (rw (← shift pre (fresh now todo) (k, e), ← shift out (errors_of (fresh now todo)) e.err)
          (active_loop_lem now (pre ++ (k, e) ∷ []) todo m (out ++ e.err ∷ []) h
            (eq ∙ sym (shift pre todo (k, e)))))
]

-- If no key has two entries, GetActiveErrors keeps the entries reported within the last five
-- minutes, deletes all others, and returns the kept errors.
pub get_active_errors_lem :
    (now : Time) (ec : ErrorCollector)
    → IsMap ec.entries
    → get_active_errors now ec
      ≡ (record { entries = fresh now ec.entries }, errors_of (fresh now ec.entries))
unfolding get_active_errors
get_active_errors_lem now ec h = rw (active_loop_lem now [] ec.entries ec.entries [] h refl) refl

-- What becomes of an entry at a read at `now`.
abbrev pub surviving : Time → Option Entry → Option Entry
surviving now none = none
surviving now (some e) = if is_old now e then none else some e

-- If no key has two entries, an error reported at `t` is found at a later read exactly while no
-- more than five minutes have passed; a report and the read leave every other key to its own age.
pub lookup-report_read :
    (t now : Time) (err : AgentError) (j : String) (ec : ErrorCollector)
    → IsMap ec.entries
    → lookup j (get_active_errors now (report t err ec)).0.entries ≡ (
        if key err.code err.component == j
        then if ltb_ℤ (pos (5 * 60 * 1000000000)) (now -ℤ t)
          then none
          else some (record { err = err; last_report = t })
        else surviving now (lookup j ec.entries))
unfolding report expired
lookup-report_read t now err j ec h =
    let k = key err.code err.component in
    let m = insert k (record { err = err; last_report = t }) ec.entries in
    let h' : IsMap m = insert-IsMap k (record { err = err; last_report = t }) ec.entries h in
    rw (get_active_errors_lem now (record { entries = m }) h')
      (rw (lookup-keep (λ p. not (is_old now p.1)) j m h', lookup-insert) (ground arith))

abbrev pub codes_of : List AgentError → List String
codes_of [] = []
codes_of (e ∷ es) = e.code ∷ codes_of es

entries-codes_loop :
    (now : Time) (todo m : GoMap String Entry) (codes : List String) (out : List AgentError)
    → (codes_loop now todo m codes).0 ≡ (active_loop now todo m out).0
unfolding codes_loop active_loop
entries-codes_loop now [] m codes out = refl
entries-codes_loop now ((k, e) ∷ todo) m codes out =
    entries-codes_loop now todo (if expired now e then delete k m else m) _ _

codes_loop-Distinct :
    (now : Time) (todo m : GoMap String Entry) (codes : List String)
    → Distinct codes
    → Distinct (codes_loop now todo m codes).1
unfolding codes_loop
codes_loop-Distinct now [] m codes d = d
codes_loop-Distinct now ((k, e) ∷ todo) m codes d =
    codes_loop-Distinct now todo (if expired now e then delete k m else m)
      (if expired now e then codes else add_code e.err.code codes)
      (ground (arith, Distinct-snoc codes e.err.code d))

contains-codes_loop :
    (now : Time) (todo m : GoMap String Entry) (codes : List String) (c : String)
    → contains c (codes_loop now todo m codes).1
      ≡ (if contains c codes then true else contains c (codes_of (errors_of (fresh now todo))))
unfolding codes_loop
contains-codes_loop now [] m codes c = ground arith
contains-codes_loop now ((k, e) ∷ todo) m codes c =
    rw
      (contains-codes_loop now todo (if expired now e then delete k m else m)
        (if expired now e then codes else add_code e.err.code codes) c)
      (ground (
        arith,
        expired-is_old now e,
        String_eq.equal_iff e.err.code c,
        contains-append c codes (e.err.code ∷ []),
      ))

-- If no key has two entries, GetActiveErrorCodes leaves the same entries as GetActiveErrors, and
-- returns each code of the errors that GetActiveErrors returns, once.
pub get_active_error_codes_lem :
    (now : Time) (ec : ErrorCollector)
    → IsMap ec.entries
    → ((get_active_error_codes now ec).0 ≡ (get_active_errors now ec).0)
      × Distinct (get_active_error_codes now ec).1
      × ((c : String)
          → contains c (get_active_error_codes now ec).1
            ≡ contains c (codes_of (get_active_errors now ec).1))
unfolding get_active_error_codes get_active_errors
get_active_error_codes_lem now ec h = (
  ap (λ m. record { entries = m }) (entries-codes_loop now ec.entries ec.entries [] []),
  codes_loop-Distinct now ec.entries ec.entries [] tt,
  λ c.
      rw
        (
          contains-codes_loop now ec.entries ec.entries [] c,
          active_loop_lem now [] ec.entries ec.entries [] h refl,
        )
        refl,
)
