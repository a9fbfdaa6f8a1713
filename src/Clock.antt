-- ===== src/Clock.antt =====
-- Go's time.Time and time.Duration, as the agent's code uses them. An instant is the number of
-- nanoseconds since the zero Time, a duration an int64 number of nanoseconds.
use kubeadapt_agent.Prelude.{ℕ, suc, ◌-◌, ◌*◌, ◌<◌, ◌≡◌, Bool, arith, if◌then◌else◌}
use kubeadapt_agent.Prelude.Int.{ℤ, pos, negsuc, ltb_ℤ, ◌-ℤ◌, wrap64, int64_half}

abbrev pub Time : Type 0
Time = ℤ

abbrev pub Duration : Type 0
Duration = ℤ

abbrev pub second : ℕ
second = 1000000000

-- time.Duration(n) * time.Second
unfoldable pub seconds : ℤ → Duration
seconds (pos n) = wrap64 (pos (n * second))
seconds (negsuc n) = wrap64 (negsuc (suc n * second - 1))

-- t.Sub(u), which saturates at the ends of int64.
unfoldable pub elapsed : Time → Time → Duration
elapsed t u =
    let d = t -ℤ u in
    if ltb_ℤ (pos (int64_half - 1)) d
    then pos (int64_half - 1)
    else if ltb_ℤ d (negsuc (int64_half - 1))
    then negsuc (int64_half - 1)
    else d

-- t.After(u)
abbrev pub after : Time → Time → Bool
after t u = ltb_ℤ u t

-- Within int64 a number of seconds is converted exactly.
pub seconds-pos : (n : ℕ) → n * second < int64_half → seconds (pos n) ≡ pos (n * second)
unfolding seconds
seconds-pos n h = ground arith

pub elapsed-gt :
    (t u : Time) (d : ℕ)
    → d < int64_half - 1
    → (ltb_ℤ (pos d) (elapsed t u) ≡ ltb_ℤ (pos d) (t -ℤ u))
unfolding elapsed
elapsed-gt t u d h = ground arith
