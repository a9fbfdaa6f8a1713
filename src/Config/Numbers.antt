-- ===== src/Config/Numbers.antt =====
-- What the configuration uses of the package strconv: Atoi and ParseInt in base 10, ParseBool.
use kubeadapt_agent.Prelude.{
  ℕ, ◌*◌, ◌+◌, ◌-◌, Bool, true, false, ◌&&◌, ◌||◌, Option, none, some, [], ◌∷◌, ℕ_eq,
  bytes_comparable, if◌then◌else◌, ◌==◌, ltb, leb,
}
use kubeadapt_agent.Prelude.Int.{ℤ, pos, negsuc, int64_half}
use kubeadapt_agent.Transport.Message.{Text, text}

-- The digits of `s`, behind those that make `n`.
unfoldable pub digits_from : ℕ → Text → Option ℕ
digits_from n [] = some n
digits_from n (c ∷ s) =
    let rest = digits_from (n * 10 + (c - b'0')) s in
    if leb b'0' c && leb c b'9' then rest else none

abbrev pub digits : Text → Option ℕ
digits [] = none
digits (c ∷ s) = digits_from 0 (c ∷ s)

-- Out of the range of int64 the number is refused.
abbrev pub positive : Option ℕ → Option ℤ
positive none = none
positive (some n) = if ltb n int64_half then some (pos n) else none

abbrev pub negated : Option ℕ → Option ℤ
negated none = none
negated (some n) =
    if n == 0 then some (pos 0) else if leb n int64_half then some (negsuc (n - 1)) else none

unfoldable pub atoi : Text → Option ℤ
atoi [] = none
atoi (c ∷ s) =
    if c == b'-'
    then negated (digits s)
    else if c == b'+'
    then positive (digits s)
    else positive (digits (c ∷ s))

unfoldable pub parse_bool_text : Text → Option Bool
parse_bool_text s =
    if s == text "1"
      || s == text "t"
      || s == text "T"
      || s == text "TRUE"
      || s == text "true"
      || s == text "True"
    then some true
    else if s == text "0"
        || s == text "f"
        || s == text "F"
        || s == text "FALSE"
        || s == text "false"
        || s == text "False"
    then some false
    else none
