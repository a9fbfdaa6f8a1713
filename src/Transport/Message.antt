-- ===== src/Transport/Message.antt =====
-- Error messages as lists of code points, and strings.Contains on them.
use Prim.Native.Char.{code}
use Prim.Native.Nat.{◌/◌}
use kubeadapt_agent.Prelude.Int.{ℤ, pos, negsuc}
use kubeadapt_agent.Prelude.{
  ℕ, zero, suc, ◌+◌, ◌%◌, ◌<◌, ◌≤◌, ◌≡◌, refl, Bool, true, false, List, [], ◌∷◌, ◌++◌, String,
  arith, if◌then◌else◌, ltb, nat_eq, All,
}

abbrev pub Text : Type 0
Text = List ℕ

abbrev pub text : String → Text
text String.[] = []
text (String.◌∷◌ c s) = code c ∷ text s

abbrev pub has_prefix : Text → Text → Bool
has_prefix [] s = true
has_prefix (p ∷ ps) [] = false
has_prefix (p ∷ ps) (c ∷ cs) = if nat_eq p c then has_prefix ps cs else false

-- strings.Contains(s, sub), the argument order turned round
abbrev pub contains_text : Text → Text → Bool
contains_text sub [] = has_prefix sub []
contains_text sub (c ∷ cs) =
    let rest = contains_text sub cs in if has_prefix sub (c ∷ cs) then true else rest

decimal_from : ℕ → ℕ → Text → Text
decimal_from zero n out = out
decimal_from (suc fuel) n out =
    let rest = decimal_from fuel (n / 10) ((48 + n % 10) ∷ out) in
    if ltb n 10 then (48 + n) ∷ out else rest

-- %d of a number that is not negative; `n + 1` rounds are more than it has digits.
unfoldable pub decimal : ℕ → Text
unfolding decimal_from
decimal n = decimal_from (suc n) n []

-- %d of an int
unfoldable pub decimal_ℤ : ℤ → Text
unfolding decimal
decimal_ℤ (pos n) = decimal n
decimal_ℤ (negsuc n) = b'-' ∷ decimal (suc n)

abbrev pub IsDigit : ℕ → Type 0
IsDigit c = (48 ≤ c) × (c < 58)

decimal_from-IsDigit :
    (fuel n : ℕ) (out : Text) → All IsDigit out → All IsDigit (decimal_from fuel n out)
unfolding decimal_from
decimal_from-IsDigit zero n out h = h
decimal_from-IsDigit (suc fuel) n out h =
    ground (arith, decimal_from-IsDigit fuel (n / 10) ((48 + n % 10) ∷ out))

pub decimal-IsDigit : (n : ℕ) → All IsDigit (decimal n)
unfolding decimal
decimal-IsDigit n = decimal_from-IsDigit (suc n) n [] tt

-- A word that begins above the digits does not begin inside a number that ends in `rest`.
pub contains_text-digits :
    (p : ℕ) (ps ds rest : Text)
    → 58 ≤ p
    → All IsDigit ds
    → contains_text (p ∷ ps) (ds ++ rest) ≡ contains_text (p ∷ ps) rest
contains_text-digits p ps [] rest h d = refl
contains_text-digits p ps (c ∷ ds) rest h d =
    ground (arith, contains_text-digits p ps ds rest h d.1)

decimal_examples : decimal 503 ≡ text "503"
unfolding decimal
decimal_examples = refl
