-- ===== src/Convert/Annotations.antt =====
-- internal/convert/helpers.go: FilterAnnotations. A nil map and an empty one are both the empty
-- list; a key or a value is its bytes.
pub mod Kept
use kubeadapt_agent.Prelude.{
  ℕ, Bool, true, false, List, [], ◌∷◌, bytes_comparable, if◌then◌else◌, ◌==◌, ltb, length, take,
}
use kubeadapt_agent.GoMap.{GoMap, insert}
use kubeadapt_agent.Transport.Message.{Text, text}

abbrev pub last_applied : Text
last_applied = text "kubectl.kubernetes.io/last-applied-configuration"

abbrev pub max_annotation_bytes : ℕ
max_annotation_bytes = 1024

abbrev pub shortened : Text → Text
shortened v = if ltb max_annotation_bytes (length v) then take max_annotation_bytes v else v

-- The loop over the annotations; `filtered` is what it has filled so far.
unfoldable pub filter_loop : GoMap Text Text → GoMap Text Text → GoMap Text Text
filter_loop filtered [] = filtered
filter_loop filtered ((k, v) ∷ m) =
    filter_loop (if k == last_applied then filtered else insert k (shortened v) filtered) m

unfoldable pub filter_annotations : GoMap Text Text → GoMap Text Text
filter_annotations annotations = filter_loop [] annotations
