-- ===== src/Dcgm/Labels/RoundTrip.antt =====
-- parseLabels reads back what an exporter writes, whatever the label values hold.
use mathlib.Core.List.{append_assoc, append-nil}
use kubeadapt_agent.Prelude.{
  ℕ, zero, suc, ◌≤◌, ◌<◌, ◌≡◌, refl, ap, ◌∙◌, Bool, true, false, some, List, [], ◌∷◌, ◌++◌, arith,
  length-append, if◌then◌else◌, ◌==◌, ℕ_eq, length, is_empty, All,
}
use kubeadapt_agent.Transport.Message.{Text}
use kubeadapt_agent.Dcgm.Labels.{
  DcgmLabels, no_labels, set_label, cut, read_value, skip_comma, next_label, labels_loop,
  parse_labels,
}

-- The exposition format: a backslash before a quote and a backslash, and `\n` for a line feed.
escape : ℕ → Text
escape c =
    if c == b'"'
    then b'\\' ∷ b'"' ∷ []
    else if c == b'\\'
    then b'\\' ∷ b'\\' ∷ []
    else if c == b'\n'
    then b'\\' ∷ b'n' ∷ []
    else c ∷ []

unfoldable pub escaped : Text → Text
unfolding escape
escaped [] = []
escaped (c ∷ s) = escape c ++ escaped s

abbrev pub print_label : Text × Text → Text
print_label (key, value) = key ++ (b'=' ∷ b'"' ∷ (escaped value ++ (b'"' ∷ [])))

-- Label pairs separated by commas, with a comma behind the last as well or without.
abbrev pub print_labels : Bool → List (Text × Text) → Text
print_labels trailing [] = []
print_labels trailing (kv ∷ []) = print_label kv ++ (if trailing then b',' ∷ [] else [])
print_labels trailing (kv ∷ kv' ∷ kvs) =
    print_label kv ++ (b',' ∷ print_labels trailing (kv' ∷ kvs))

-- What the switch makes of the pairs, one after the other.
abbrev pub set_labels : List (Text × Text) → DcgmLabels → DcgmLabels
set_labels [] l = l
set_labels ((key, value) ∷ kvs) l = set_labels kvs (set_label key value l)

abbrev pub Lacks : ℕ → Text → Type 0
Lacks b = All (λ c. (c == b) ≡ false)

pub cut-Lacks : (b : ℕ) (k s : Text) → Lacks b k → cut b (k ++ (b ∷ s)) ≡ some (k, s)
unfolding cut
cut-Lacks b [] s h = ground arith
cut-Lacks b (c ∷ k) s h = rw (h.0, cut-Lacks b k s h.1) refl

read_plain :
    (c : ℕ) (x val : Text)
    → is_empty x ≡ false
    → (c == b'"') ≡ false
    → (c == b'\\') ≡ false
    → read_value (c ∷ x) val ≡ read_value x (val ++ c ∷ [])
unfolding read_value
read_plain c [] val e p q = ground arith
read_plain c (d ∷ s) val e p q = rw (p, q) refl

read_quote : (rest val : Text) → read_value (b'"' ∷ rest) val ≡ (val, rest)
unfolding read_value
read_quote [] val = refl
read_quote (c ∷ rest) val = refl

nonempty_tail : (s rest : Text) → is_empty (s ++ (b'"' ∷ rest)) ≡ false
nonempty_tail [] rest = refl
nonempty_tail (c ∷ s) rest = refl

read_escape :
    (c : ℕ) (x val : Text)
    → is_empty x ≡ false
    → read_value (escape c ++ x) val ≡ read_value x (val ++ c ∷ [])
unfolding escape read_value
read_escape c x val e = ground (arith, read_plain c x val e)

read_escaped : (s rest val : Text) → read_value (escaped s ++ (b'"' ∷ rest)) val ≡ (val ++ s, rest)
unfolding escaped
read_escaped [] rest val = read_quote rest val ∙ rw append-nil refl
read_escaped (c ∷ s) rest val = rw (append_assoc (escape c) (escaped s) (b'"' ∷ rest)) (
    read_escape c (escaped s ++ (b'"' ∷ rest)) val (nonempty_tail (escaped s) rest)
    ∙ read_escaped s rest (val ++ c ∷ [])
    ∙ ap (λ v. (v, rest)) (append_assoc val (c ∷ []) s))

-- One round over one printed pair, with or without a comma behind it.
next_label-print :
    (key value rest : Text)
    → Lacks b'=' key
    → next_label (print_label (key, value) ++ rest) ≡ some (key, value, skip_comma rest)
unfolding next_label
next_label-print key value rest h =
    let shape : print_label (key, value) ++ rest
        ≡ key ++ (b'=' ∷ b'"' ∷ (escaped value ++ (b'"' ∷ rest))) =
      append_assoc key _ rest
      ∙ ap (λ t. key ++ (b'=' ∷ b'"' ∷ t)) (append_assoc (escaped value) (b'"' ∷ []) rest) in
    rw (shape, cut-Lacks b'=' key _ h) (rw (read_escaped value rest []) refl)

abbrev pub HasKeys : List (Text × Text) → Type 0
HasKeys = All (λ kv. Lacks b'=' kv.0)

labels_loop-next :
    (s : Text) {key value rest : Text} (n : ℕ) (l : DcgmLabels)
    → next_label s ≡ some (key, value, rest)
    → labels_loop (suc n) s l ≡ labels_loop n rest (set_label key value l)
unfolding labels_loop
labels_loop-next s n l e = rw (e, labels_loop) refl

labels_loop-nil : (n : ℕ) (l : DcgmLabels) → labels_loop (suc n) [] l ≡ some l
unfolding labels_loop next_label cut
labels_loop-nil n l = refl

skip_trailing : (trailing : Bool) → skip_comma (if trailing then b',' ∷ [] else []) ≡ []
skip_trailing true = refl
skip_trailing false = refl

labels_loop-print :
    (trailing : Bool) (kvs : List (Text × Text)) (n : ℕ) (l : DcgmLabels)
    → HasKeys kvs
    → length kvs < n
    → labels_loop n (print_labels trailing kvs) l ≡ some (set_labels kvs l)
labels_loop-print trailing kvs zero l h lt = absurd (omega arith)
labels_loop-print trailing [] (suc n) l h lt = labels_loop-nil n l
labels_loop-print trailing ((k, v) ∷ []) (suc zero) l h lt = absurd (omega arith)
labels_loop-print trailing ((k, v) ∷ []) (suc (suc n)) l h lt =
    labels_loop-next _ (suc n) l (next_label-print k v (if trailing then b',' ∷ [] else []) h.0)
    ∙ ap (λ rest. labels_loop (suc n) rest (set_label k v l)) (skip_trailing trailing)
    ∙ labels_loop-nil n (set_label k v l)
labels_loop-print trailing ((k, v) ∷ kv ∷ kvs) (suc n) l h lt =
    labels_loop-next _ n l (next_label-print k v (b',' ∷ print_labels trailing (kv ∷ kvs)) h.0)
    ∙ labels_loop-print trailing (kv ∷ kvs) n (set_label k v l) h.1 (omega arith)

length-print_label :
    (kv : Text × Text) (rest : Text) → suc (length rest) ≤ length (print_label kv ++ rest)
length-print_label (k, v) rest =
    omega (arith, length-append (print_label (k, v)) rest, length-append k _)

length-print_labels :
    (trailing : Bool) (kvs : List (Text × Text)) → length kvs ≤ length (print_labels trailing kvs)
length-print_labels trailing [] = omega arith
length-print_labels trailing (kv ∷ []) =
    omega (arith, length-print_label kv (if trailing then b',' ∷ [] else []))
length-print_labels trailing (kv ∷ kv' ∷ kvs) = omega (
  arith,
  length-print_label kv (b',' ∷ print_labels trailing (kv' ∷ kvs)),
  length-print_labels trailing (kv' ∷ kvs),
)

-- Label pairs whose keys hold no `=`, printed with their values escaped, are read back by
-- parseLabels one after the other, whatever quotes, commas, backslashes and line feeds the values
-- hold, and with a comma behind the last pair or without.
pub parse_labels-print :
    (trailing : Bool) (kvs : List (Text × Text))
    → HasKeys kvs
    → parse_labels (print_labels trailing kvs) ≡ some (set_labels kvs no_labels)
unfolding parse_labels
parse_labels-print trailing kvs h =
    labels_loop-print trailing kvs (suc (length (print_labels trailing kvs))) no_labels h
      (omega (arith, length-print_labels trailing kvs))
