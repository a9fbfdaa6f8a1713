-- ===== src/Informers/Recovery.antt =====
-- runInformerWithRecovery ends, whatever the informer does.
use kubeadapt_agent.Prelude.{
  ℕ, zero, suc, ◌*◌, ◌≡◌, refl, Bool, Option, none, some, List, [], ◌∷◌, ◌++◌, if◌then◌else◌,
  Bool-cases, inl, inr,
}
use kubeadapt_agent.Informers.{
  RunnerStep, sleep, run_informer, give_up, close_done, attempts, run_informer_with_recovery,
}

-- The first of `left` runs from the i-th on that returns with stopCh closed.
abbrev pub first_stop : ℕ → ℕ → (ℕ → Bool) → Option ℕ
first_stop zero i stopped = none
first_stop (suc left) i stopped = if stopped i then some i else first_stop left (suc i) stopped

-- The runs up to the i-th, with the pauses between them: 5, 10, 15 seconds, and so on.
abbrev pub turns : ℕ → List RunnerStep
turns zero = run_informer ∷ []
turns (suc i) = turns i ++ sleep (suc i * 5) ∷ run_informer ∷ []

abbrev pub expected : Option ℕ → List RunnerStep
expected (some i) = turns i ++ close_done ∷ []
expected none = turns 3 ++ give_up ∷ close_done ∷ []

-- The loop ends, with done closed, after the first of its runs that returns with stopCh closed, and
-- gives up after four runs if none does; it pauses 5, 10 and 15 seconds before the second, third
-- and fourth.
pub run_informer_with_recovery_lem :
    (stopped : ℕ → Bool) → run_informer_with_recovery stopped ≡ expected (first_stop 4 0 stopped)
unfolding run_informer_with_recovery attempts
run_informer_with_recovery_lem stopped = elim (Bool-cases (stopped 0)) [
  | inl a ↦ rw a refl
  | inr a ↦ rw a (elim (Bool-cases (stopped 1)) [
    | inl b ↦ rw b refl
    | inr b ↦ rw b (elim (Bool-cases (stopped 2)) [
      | inl c ↦ rw c refl
      | inr c ↦ rw c (elim (Bool-cases (stopped 3)) [ inl d ↦ rw d refl | inr d ↦ rw d refl ])
    ])
  ])
]
