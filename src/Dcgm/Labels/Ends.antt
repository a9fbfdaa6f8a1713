-- ===== src/Dcgm/Labels/Ends.antt =====
-- The loop of parseLabels ends, whatever text it is given.
use kubeadapt_agent.Prelude.{
  ℕ, zero, suc, ◌≤◌, ◌<◌, ◌≡◌, refl, sym, ap, Option, none, some, [], ◌∷◌, ◌++◌, arith, ◌==◌, ℕ_eq,
  length, Bool-cases, Option-cases, inl, inr,
}
use kubeadapt_agent.Transport.Message.{Text}
use kubeadapt_agent.Dcgm.Labels.{
  DcgmLabels, set_label, before, cut, open_quote, unescape, read_value, skip_comma, value_at,
  label_at, next_label, labels_loop,
}

-- The bytes left after a round, if there is one.
left : {A B : Type 0} → Option (A × B × Text) → ℕ
left none = 0
left (some (a, b, rest)) = suc (length rest)

left_of_cut : Option (Text × Text) → ℕ
left_of_cut none = 0
left_of_cut (some (x, y)) = suc (length y)

left-before : (c : ℕ) (o : Option (Text × Text)) → left_of_cut (before c o) ≡ left_of_cut o
unfolding left_of_cut
left-before c none = refl
left-before c (some (x, y)) = refl

left-cut : (b : ℕ) (s : Text) → left_of_cut (cut b s) ≤ length s
unfolding cut left_of_cut
left-cut b [] = omega arith
left-cut b (c ∷ s) = ground (arith, left-cut b s, left-before c (cut b s))

length-read_value : (s val : Text) → length (read_value s val).1 ≤ length s
unfolding read_value
length-read_value [] val = omega arith
length-read_value (c ∷ []) val = ground arith
length-read_value (c ∷ d ∷ s) val =
    ground
      (arith, length-read_value s (val ++ unescape d), length-read_value (d ∷ s) (val ++ c ∷ []))

length-skip_comma : (s : Text) → length (skip_comma s) ≤ length s
length-skip_comma [] = omega arith
length-skip_comma (c ∷ s) = ground arith

left-value_at : (key s : Text) → left (value_at key (open_quote s)) ≤ length s
unfolding left
left-value_at key [] = omega arith
left-value_at key (c ∷ s) = elim (Bool-cases (c == b'"')) [
  | inl p ↦ rw p (ground (arith, length-skip_comma (read_value s []).1, length-read_value s []))
  | inr p ↦ rw p (omega arith)
]

left-label_at : (o : Option (Text × Text)) → left (label_at o) ≤ left_of_cut o
unfolding left_of_cut
left-label_at none = unfold left in omega arith
left-label_at (some (key, s)) = omega (arith, left-value_at key s)

-- A round takes a byte at least.
left-next_label : (s : Text) → left (next_label s) ≤ length s
unfolding next_label
left-next_label s = omega (arith, left-label_at (cut b'=' s), left-cut b'=' s)

left-some :
    {A B : Type 0} {o : Option (A × B × Text)} {a : A} {b : B} {rest : Text}
    → o ≡ some (a, b, rest)
    → suc (length rest) ≡ left o
unfolding left
left-some e = ap left (sym e)

-- As soon as there are more rounds than bytes, the loop of parseLabels ends by its own test, and
-- the number of rounds does not matter to its result.
pub labels_loop_ends :
    (n m : ℕ) (s : Text) (l : DcgmLabels)
    → length s < n
    → length s < m
    → (l' : DcgmLabels) × (labels_loop n s l ≡ some l') × (labels_loop m s l ≡ some l')
unfolding labels_loop
labels_loop_ends zero m s l h k = absurd (omega arith)
labels_loop_ends (suc n) zero s l h k = absurd (omega arith)
labels_loop_ends (suc n) (suc m) s l h k = elim (Option-cases (next_label s)) [
  | inl e ↦ rw (e, labels_loop) (l, refl, refl)
  | inr ((key, value, rest), e) ↦
      rw (e, labels_loop)
        (labels_loop_ends n m rest (set_label key value l)
          (omega (arith, left-next_label s, left-some e))
          (omega (arith, left-next_label s, left-some e)))
]
