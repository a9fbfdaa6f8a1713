-- ===== src/Dcgm/Lines/Sample.antt =====
-- A sample line as an exporter writes it is read back, with a timestamp or without.
use mathlib.Core.List.{append_assoc, append-nil}
use kubeadapt_agent.Prelude.{
  ℕ, ◌≡◌, refl, sym, ap, ◌∙◌, Bool, true, false, ◌&&◌, Option, none, some, List, [], ◌∷◌, ◌++◌,
  ℕ_eq, is_empty, arith, All, Bool-cases, inl, inr,
}
use kubeadapt_agent.Transport.Message.{Text}
use kubeadapt_agent.Dcgm.Labels.{no_labels}
use kubeadapt_agent.Dcgm.Labels.RoundTrip.{
  print_labels, set_labels, Lacks, cut-Lacks, HasKeys, parse_labels-print,
}
use kubeadapt_agent.Dcgm.Lines.{
  is_space, trim_left, trim_right, fields_from, fields, last_cut, parse_sample_line,
}

-- A field: not empty, and with no white space.
abbrev pub IsWord : Text → Type 0
IsWord w = (is_empty w ≡ false) × All (λ c. is_space c ≡ false) w

-- `name{labels} value`, and the timestamp behind it if there is one.
abbrev pub stamp : Option Text → Text
stamp none = []
stamp (some t) = b' ' ∷ t

abbrev pub print_sample : Text → Text → Text → Option Text → Text
print_sample name labels value t = name ++ (b'{' ∷ (labels ++ (b'}' ∷ b' ' ∷ (value ++ stamp t))))

last_cut-Lacks : (b : ℕ) (s : Text) → Lacks b s → last_cut b s ≡ none
unfolding last_cut
last_cut-Lacks b [] h = refl
last_cut-Lacks b (c ∷ s) h = rw (last_cut-Lacks b s h.1, h.0) refl

pub last_cut-append : (b : ℕ) (s t : Text) → Lacks b t → last_cut b (s ++ (b ∷ t)) ≡ some (s, t)
unfolding last_cut
last_cut-append b [] t h = rw (last_cut-Lacks b t h) (ground arith)
last_cut-append b (c ∷ s) t h = rw (last_cut-append b s t h) refl

is_empty-nil : (s : Text) → is_empty s ≡ true → s ≡ []
is_empty-nil [] h = refl
is_empty-nil (c ∷ s) h = ground arith

trim_right-cons :
    (c : ℕ) (s : Text)
    → (is_empty (trim_right s) && is_space c) ≡ false
    → trim_right (c ∷ s) ≡ c ∷ trim_right s
unfolding trim_right
trim_right-cons c s h = rw h refl

trim_right-blank :
    (c : ℕ) (s : Text)
    → is_empty (trim_right s) ≡ true
    → is_space c ≡ true
    → trim_right (c ∷ s) ≡ []
unfolding trim_right
trim_right-blank c s e h = rw (e, h) refl

fields-trim_right : (s word : Text) → fields_from word (trim_right s) ≡ fields_from word s
unfolding fields_from
fields-trim_right [] word = unfold trim_right in refl
fields-trim_right (c ∷ s) word = elim (Bool-cases (is_empty (trim_right s) && is_space c)) [
  | inl p ↦
      let e : is_empty (trim_right s) ≡ true = ground arith in
      let h : is_space c ≡ true = ground arith in
      let none_left : fields_from [] s ≡ [] =
        sym (fields-trim_right s []) ∙ ap (fields_from []) (is_empty-nil (trim_right s) e) in
      rw (trim_right-blank c s e h, h, none_left) (ground arith)
  | inr p ↦
      rw (trim_right-cons c s p)
        (rw (fields-trim_right s []) (rw (fields-trim_right s (word ++ c ∷ [])) refl))
]

fields-word :
    (w tail word : Text)
    → All (λ c. is_space c ≡ false) w
    → fields_from word (w ++ tail) ≡ fields_from (word ++ w) tail
unfolding fields_from
fields-word [] tail word h = rw append-nil refl
fields-word (c ∷ w) tail word h = rw (h.0) (
    fields-word w tail (word ++ c ∷ []) h.1
    ∙ ap (λ v. fields_from v tail) (append_assoc word (c ∷ []) w))

-- What the fields behind the first one are does not matter.
first_field :
    (w : Text) (t : Option Text)
    → is_empty w ≡ false
    → (more : List Text) × (fields_from w (stamp t) ≡ w ∷ more)
unfolding fields_from
first_field w none h = ([], rw h refl)
first_field w (some t) h = (fields_from [] t, rw h refl)

trim_left-word : (c : ℕ) (s : Text) → is_space c ≡ false → trim_left (c ∷ s) ≡ c ∷ s
unfolding trim_left
trim_left-word c s h = rw h refl

fields-trim_left : (s : Text) → fields (trim_left s) ≡ fields s
unfolding fields_from trim_left
fields-trim_left [] = refl
fields-trim_left (c ∷ s) = elim (Bool-cases (is_space c)) [
  | inl p ↦ rw (p, trim_left, fields_from) (fields-trim_left s)
  | inr p ↦ ap fields (trim_left-word c s p)
]

fields-trim_space : (s : Text) → fields (trim_right (trim_left s)) ≡ fields s
fields-trim_space s = fields-trim_right (trim_left s) [] ∙ fields-trim_left s

value_field :
    (value : Text) (t : Option Text)
    → IsWord value
    → (more : List Text) × (fields (trim_right (trim_left (b' ' ∷ (value ++ stamp t))))
        ≡ value ∷ more)
unfolding fields_from
value_field value t (ne, w) =
    let (more, e) = first_field value t ne in
    (more, fields-trim_space (b' ' ∷ (value ++ stamp t)) ∙ fields-word value (stamp t) [] w ∙ e)

stamped_Lacks :
    (value : Text) (t : Option Text)
    → Lacks b'}' value
    → Lacks b'}' (stamp t)
    → Lacks b'}' (value ++ stamp t)
stamped_Lacks [] t h k = k
stamped_Lacks (c ∷ value) t h k = (h.0, stamped_Lacks value t h.1 k)

-- A sample line whose name holds no `{`, whose labels are printed with their values escaped, and
-- whose value is a word that ParseFloat reads, is read back, braces, quotes and commas in the label
-- values included, with a timestamp that holds no `}` behind the value or without one.
pub parse_sample_line-print :
    {R : Type 0} (parse_float : Text → Option R) (trailing : Bool) (name : Text)
    (kvs : List (Text × Text)) (value : Text) (t : Option Text) (v : R)
    → Lacks b'{' name
    → HasKeys kvs
    → IsWord value
    → Lacks b'}' value
    → Lacks b'}' (stamp t)
    → parse_float value ≡ some v
    → parse_sample_line parse_float (print_sample name (print_labels trailing kvs) value t)
      ≡ some (record { name = name; labels = set_labels kvs no_labels; value = v })
unfolding parse_sample_line
parse_sample_line-print parse_float trailing name kvs value t v hn hk hw hv ht hf =
    let inner = print_labels trailing kvs in
    let behind = b' ' ∷ (value ++ stamp t) in
    let (more, e) = value_field value t hw in
    rw (cut-Lacks b'{' name (inner ++ (b'}' ∷ behind)) hn) (
      rw (last_cut-append b'}' inner behind (refl, stamped_Lacks value t hv ht))
        (rw (parse_labels-print trailing kvs hk, e, hf) refl))
