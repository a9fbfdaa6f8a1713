-- ===== src/Dcgm/Lines.antt =====
-- internal/collector/gpu/parser.go: parsePrometheusText and parseSampleLine. White space is that
-- of ASCII; strconv.ParseFloat is the parameter `parse_float`.
pub mod Sample
use kubeadapt_agent.Prelude.{
  ℕ, suc, ◌+◌, Bool, true, false, ◌&&◌, ◌||◌, Option, none, some, List, [], ◌∷◌, ◌++◌,
  if◌then◌else◌, ◌==◌, ℕ_eq, is_empty, leb, length, ltb,
}
use kubeadapt_agent.Transport.Message.{Text, text}
use kubeadapt_agent.Dcgm.Labels.{DcgmLabels, no_labels, cut, parse_labels}

pub record ParsedSample (R : Type 0) : Type 0 where
  pub name : Text
  pub labels : DcgmLabels
  pub value : R

abbrev pub is_space : ℕ → Bool
is_space c = (leb 9 c && leb c 13) || c == 32

-- strings.TrimSpace
unfoldable pub trim_left : Text → Text
trim_left [] = []
trim_left (c ∷ s) = let rest = trim_left s in if is_space c then rest else c ∷ s

unfoldable pub trim_right : Text → Text
trim_right [] = []
trim_right (c ∷ s) = let rest = trim_right s in if is_empty rest && is_space c then [] else c ∷ rest

abbrev pub trim_space : Text → Text
trim_space s = trim_right (trim_left s)

-- strings.Fields; `word` is the field so far.
abbrev pub flush : Text → List Text → List Text
flush word rest = if is_empty word then rest else word ∷ rest

unfoldable pub fields_from : Text → Text → List Text
fields_from word [] = flush word []
fields_from word (c ∷ s) =
    let next = fields_from [] s in
    let more = fields_from (word ++ c ∷ []) s in if is_space c then flush word next else more

abbrev pub fields : Text → List Text
fields = fields_from []

-- strings.LastIndexByte with the two slices around the byte that it finds
abbrev pub last_of : ℕ → ℕ → Text → Option (Text × Text) → Option (Text × Text)
last_of b c s (some (x, y)) = some (c ∷ x, y)
last_of b c s none = if c == b then some ([], s) else none

unfoldable pub last_cut : ℕ → Text → Option (Text × Text)
last_cut b [] = none
last_cut b (c ∷ s) = last_of b c s (last_cut b s)

abbrev pub drop_cr : Text → Text
drop_cr [] = []
drop_cr (c ∷ []) = if c == b'\r' then [] else c ∷ []
drop_cr (c ∷ d ∷ s) = c ∷ drop_cr (d ∷ s)

-- The lines of a bufio.Scanner, which ends without a word at a line of 65536 bytes or more; `size`
-- is the number of bytes in `line`.
unfoldable pub scan_lines : ℕ → Text → Text → List Text
scan_lines size line [] = if is_empty line then [] else drop_cr line ∷ []
scan_lines size line (c ∷ s) =
    let next = scan_lines 0 [] s in
    let more = scan_lines (size + 1) (line ++ c ∷ []) s in
    if c == b'\n' then drop_cr line ∷ next else if leb 65535 size then [] else more

module _ {R : Type 0} (parse_float : Text → Option R) where
  abbrev pub sample_of : Text → Option DcgmLabels → Option R → Option (ParsedSample R)
  sample_of name none value = none
  sample_of name (some l) none = none
  sample_of name (some l) (some v) = some (record { name = name; labels = l; value = v })

  -- "name value"
  abbrev pub bare_sample : List Text → Option (ParsedSample R)
  bare_sample [] = none
  bare_sample (name ∷ []) = none
  bare_sample (name ∷ value ∷ more) = sample_of name (some no_labels) (parse_float value)

  abbrev pub valued_sample : Text → Option DcgmLabels → List Text → Option (ParsedSample R)
  valued_sample name l [] = none
  valued_sample name l (value ∷ more) = sample_of name l (parse_float value)

  -- From the slice behind the first `{`: its last `}`, if it has one, is the last of the line.
  abbrev pub labelled_sample : Text → Option (Text × Text) → Option (ParsedSample R)
  labelled_sample name none = none
  labelled_sample name (some (inner, behind)) =
      valued_sample name (parse_labels inner) (fields (trim_space behind))

  abbrev pub sample_at : Text → Option (Text × Text) → Option (ParsedSample R)
  sample_at line none = bare_sample (fields line)
  sample_at line (some (name, rest)) = labelled_sample name (last_cut b'}' rest)

  unfoldable pub parse_sample_line : Text → Option (ParsedSample R)
  parse_sample_line line = sample_at line (cut b'{' line)

  abbrev pub is_skipped_line : Text → Bool
  is_skipped_line [] = true
  is_skipped_line (c ∷ s) = c == b'#'

  abbrev pub add_sample : Option (ParsedSample R) → List (ParsedSample R) → List (ParsedSample R)
  add_sample none rest = rest
  add_sample (some s) rest = s ∷ rest

  unfoldable pub parse_lines : List Text → List (ParsedSample R)
  parse_lines [] = []
  parse_lines (line ∷ lines) =
      let rest = parse_lines lines in
      let trimmed = trim_space line in
      if is_skipped_line trimmed then rest else add_sample (parse_sample_line trimmed) rest

  unfoldable pub parse_prometheus_text : Text → List (ParsedSample R)
  parse_prometheus_text content = parse_lines (scan_lines 0 [] content)
