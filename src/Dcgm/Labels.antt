-- ===== src/Dcgm/Labels.antt =====
-- internal/collector/gpu/parser.go: parseLabels, the text between the braces of a sample line.
pub mod Ends
pub mod RoundTrip
use kubeadapt_agent.Prelude.{
  ℕ, zero, suc, Bool, true, false, Option, none, some, List, [], ◌∷◌, ◌++◌, if◌then◌else◌, ◌==◌,
  ℕ_eq, bytes_comparable, is_empty, length,
}
use kubeadapt_agent.Transport.Message.{Text, text}

pub record DcgmLabels : Type 0 where
  pub gpu : Text
  pub uuid : Text
  pub device : Text
  pub model_name : Text
  pub driver_version : Text
  pub hostname : Text
  pub pod_name : Text
  pub namespace : Text
  pub container_name : Text
  pub gpu_instance_id : Text
  pub gpu_profile : Text

abbrev pub no_labels : DcgmLabels
no_labels = record {
  gpu = [];
  uuid = [];
  device = [];
  model_name = [];
  driver_version = [];
  hostname = [];
  pod_name = [];
  namespace = [];
  container_name = [];
  gpu_instance_id = [];
  gpu_profile = [];
}

-- What an old-style label leaves of a field: the field, if it is set.
abbrev pub or_value : Text → Text → Text
or_value old value = if is_empty old then value else old

-- The switch at the end of a round.
unfoldable pub set_label : Text → Text → DcgmLabels → DcgmLabels
set_label key value l =
    if key == text "gpu"
    then record l { gpu = value }
    else if key == text "UUID"
    then record l { uuid = value }
    else if key == text "uuid"
    then record l { uuid = value }
    else if key == text "device"
    then record l { device = value }
    else if key == text "modelName"
    then record l { model_name = value }
    else if key == text "DCGM_FI_DRIVER_VERSION"
    then record l { driver_version = value }
    else if key == text "Hostname"
    then record l { hostname = value }
    else if key == text "pod"
    then record l { pod_name = value }
    else if key == text "namespace"
    then record l { namespace = value }
    else if key == text "container"
    then record l { container_name = value }
    else if key == text "pod_name"
    then record l { pod_name = or_value l.pod_name value }
    else if key == text "pod_namespace"
    then record l { namespace = or_value l.namespace value }
    else if key == text "container_name"
    then record l { container_name = or_value l.container_name value }
    else if key == text "GPU_I_ID"
    then record l { gpu_instance_id = value }
    else if key == text "GPU_I_PROFILE"
    then record l { gpu_profile = value }
    else l

abbrev pub before : ℕ → Option (Text × Text) → Option (Text × Text)
before c none = none
before c (some (x, y)) = some (c ∷ x, y)

-- strings.IndexByte with the two slices around the byte that it finds
unfoldable pub cut : ℕ → Text → Option (Text × Text)
cut b [] = none
cut b (c ∷ s) = let rest = cut b s in if c == b then some ([], s) else before c rest

abbrev pub open_quote : Text → Option Text
open_quote [] = none
open_quote (c ∷ s) = if c == b'"' then some s else none

-- What the byte behind a backslash stands for.
abbrev pub unescape : ℕ → Text
unescape d =
    if d == b'"'
    then b'"' ∷ []
    else if d == b'\\'
    then b'\\' ∷ []
    else if d == b'n'
    then b'\n' ∷ []
    else b'\\' ∷ d ∷ []

-- The loop over the value, and the slice behind its closing quote.
unfoldable pub read_value : Text → Text → Text × Text
read_value [] val = (val, [])
read_value (c ∷ []) val = if c == b'"' then (val, []) else (val ++ c ∷ [], [])
read_value (c ∷ d ∷ s) val =
    let escaped = read_value s (val ++ unescape d) in
    let plain = read_value (d ∷ s) (val ++ c ∷ []) in
    if c == b'\\' then escaped else if c == b'"' then (val, d ∷ s) else plain

abbrev pub skip_comma : Text → Text
skip_comma [] = []
skip_comma (c ∷ s) = if c == b',' then s else c ∷ s

abbrev pub value_at : Text → Option Text → Option (Text × Text × Text)
value_at key none = none
value_at key (some s) = let (value, rest) = read_value s [] in some (key, value, skip_comma rest)

abbrev pub label_at : Option (Text × Text) → Option (Text × Text × Text)
label_at none = none
label_at (some (key, s)) = value_at key (open_quote s)

-- A round up to the switch: key, value, and what is left; `none` where the loop breaks.
unfoldable pub next_label : Text → Option (Text × Text × Text)
next_label s = label_at (cut b'=' s)

-- At most `fuel` rounds; `none` if they do not reach the end.
unfoldable pub labels_loop : ℕ → Text → DcgmLabels → Option DcgmLabels
labels_loop zero s l = none
labels_loop (suc fuel) s l = elim (next_label s) [
  | none ↦ some l
  | some (key, value, rest) ↦ labels_loop fuel rest (set_label key value l)
]

-- Each round but the last takes a byte at least.
unfoldable pub parse_labels : Text → Option DcgmLabels
parse_labels s = labels_loop (suc (length s)) s no_labels
