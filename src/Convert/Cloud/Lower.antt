-- ===== src/Convert/Cloud/Lower.antt =====
-- Capacity types are normalised to lower case.
use kubeadapt_agent.Prelude.{
  ℕ, ◌≡◌, refl, Bool, true, false, ◌&&◌, Option, none, some, List, [], ◌∷◌, arith, leb, map, All,
  any, All-any, bytes_comparable, ◌==◌, if◌then◌else◌,
}
use kubeadapt_agent.Transport.Message.{Text, text}
use kubeadapt_agent.GoMap.{lookup}
use kubeadapt_agent.Convert.Cloud.{
  Labels, lower, upper, fargate, eks_capacity, karpenter_capacity, spot_if, preemptible, lifecycle,
  first_of, extract_capacity_type,
}

abbrev pub is_upper : ℕ → Bool
is_upper c = leb b'A' c && leb c b'Z'

abbrev pub IsLowerCase : Text → Type 0
IsLowerCase = All (λ c. is_upper c ≡ false)

lower_byte : (c : ℕ) → is_upper (lower c) ≡ false
unfolding lower
lower_byte c = ground arith

map-IsLowerCase : (s : Text) → IsLowerCase (map lower s)
map-IsLowerCase [] = tt
map-IsLowerCase (c ∷ s) = (lower_byte c, map-IsLowerCase s)

-- What a case returns, if it does, is in lower case.
abbrev IsLowered : Option Text → Type 0
IsLowered none = Unit {0}
IsLowered (some v) = IsLowerCase v

literal : (s : Text) → any is_upper s ≡ false → IsLowerCase s
literal = All-any is_upper

when-IsLowered :
    (b : Bool) (s : Text) (o : Option Text)
    → IsLowerCase s
    → IsLowered o
    → IsLowered (if b then some s else o)
when-IsLowered true s o h k = h
when-IsLowered false s o h k = k

fargate-IsLowered : (o : Option Text) → IsLowered (fargate o)
fargate-IsLowered none = tt
fargate-IsLowered (some v) =
    when-IsLowered (v == text "fargate") (text "fargate") none (literal (text "fargate") refl) tt

eks_capacity-IsLowered : (o : Option Text) → IsLowered (eks_capacity o)
eks_capacity-IsLowered none = tt
eks_capacity-IsLowered (some v) =
    let rest = if map upper v == text "SPOT" then some (text "spot") else some (map lower v) in
    when-IsLowered (map upper v == text "ON_DEMAND") (text "on-demand") rest
      (literal (text "on-demand") refl)
      (when-IsLowered (map upper v == text "SPOT") (text "spot") (some (map lower v))
        (literal (text "spot") refl) (map-IsLowerCase v))

karpenter-IsLowered : (o : Option Text) → IsLowered (karpenter_capacity o)
karpenter-IsLowered none = tt
karpenter-IsLowered (some v) = map-IsLowerCase v

spot_if-IsLowered : (w : Text) (o : Option Text) → IsLowered (spot_if w o)
spot_if-IsLowered w none = tt
spot_if-IsLowered w (some v) =
    when-IsLowered (map lower v == w) (text "spot") none (literal (text "spot") refl) tt

preemptible-IsLowered : (o : Option Text) → IsLowered (preemptible o)
preemptible-IsLowered none = tt
preemptible-IsLowered (some v) = literal (text "preemptible") refl

lifecycle-IsLowered : (o : Option Text) → IsLowered (lifecycle o)
lifecycle-IsLowered none = tt
lifecycle-IsLowered (some v) =
    let rest =
      if map lower v == text "normal" then some (text "on-demand") else some (map lower v) in
    when-IsLowered (map lower v == text "spot") (text "spot") rest (literal (text "spot") refl) (
      when-IsLowered (map lower v == text "normal") (text "on-demand") (some (map lower v))
        (literal (text "on-demand") refl) (map-IsLowerCase v))

first_of-IsLowerCase :
    (cases : List (Option Text)) → All IsLowered cases → IsLowerCase (first_of cases)
first_of-IsLowerCase [] h = tt
first_of-IsLowerCase (none ∷ cases) h = first_of-IsLowerCase cases h.1
first_of-IsLowerCase (some v ∷ cases) h = h.0

-- Whatever the labels of a node, its capacity type has no upper-case letter.
pub extract_capacity_type-IsLowerCase :
    (labels : Labels) → IsLowerCase (extract_capacity_type labels)
unfolding extract_capacity_type
extract_capacity_type-IsLowerCase labels =
    let compute = lookup (text "eks.amazonaws.com/compute-type") labels in
    let eks = lookup (text "eks.amazonaws.com/capacityType") labels in
    let karpenter = lookup (text "karpenter.sh/capacity-type") labels in
    let aks = lookup (text "kubernetes.azure.com/scalesetpriority") labels in
    let gke_preemptible = lookup (text "cloud.google.com/gke-preemptible") labels in
    let gke_spot = lookup (text "cloud.google.com/gke-spot") labels in
    let generic = lookup (text "node.kubernetes.io/lifecycle") labels in
    first_of-IsLowerCase
      (fargate compute
        ∷ eks_capacity eks
        ∷ karpenter_capacity karpenter
        ∷ spot_if (text "spot") aks
        ∷ preemptible gke_preemptible
        ∷ spot_if (text "true") gke_spot
        ∷ lifecycle generic
        ∷ [])
      (
        fargate-IsLowered compute,
        (
          eks_capacity-IsLowered eks,
          (
            karpenter-IsLowered karpenter,
            (
              spot_if-IsLowered (text "spot") aks,
              (
                preemptible-IsLowered gke_preemptible,
                (spot_if-IsLowered (text "true") gke_spot, (lifecycle-IsLowered generic, tt)),
              ),
            ),
          ),
        ),
      )
