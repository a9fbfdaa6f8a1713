-- ===== src/Convert/Nodes/Mig.antt =====
-- The MIG resources of a node.
use kubeadapt_agent.Prelude.{
  ℕ, ◌≡◌, refl, sym, ap, ◌∙◌, Bool, true, false, Option, none, some, [], ◌∷◌, String, String_eq,
  if◌then◌else◌, ◌==◌, Bool-cases, inl, inr,
}
use kubeadapt_agent.GoMap.{GoMap, lookup, insert, lookup-insert}
use kubeadapt_agent.GoMap.Keys.{IsMap, has_key, lookup-of-not_has_key}
use kubeadapt_agent.Convert.Api.{Quantities}
use kubeadapt_agent.Convert.Nodes.{Node, is_mig, mig_loop, detect_mig_resources}

module _ {Q R : Type 0} (q : Quantities Q R) where
  abbrev pub counted : Option Q → Option ℕ
  counted none = none
  counted (some a) = some (q.value_of a)

  -- Whether some resource is one of MIG.
  abbrev pub has_mig : GoMap String Q → Bool
  has_mig [] = false
  has_mig ((name, v) ∷ rl) = if is_mig name then true else has_mig rl

  enabled-mig_loop :
      (found : Bool × GoMap String ℕ) (rl : GoMap String Q)
      → (mig_loop q found rl).0 ≡ (if has_mig rl then true else found.0)
  unfolding mig_loop
  enabled-mig_loop found [] = refl
  enabled-mig_loop found ((name, v) ∷ rl) = elim (Bool-cases (is_mig name)) [
    | inl e ↦
        rw (e, mig_loop)
          (enabled-mig_loop (true, insert name (q.value_of v) found.1) rl
            ∙ elim (Bool-cases (has_mig rl)) [ inl m ↦ rw m refl | inr m ↦ rw m refl ])
    | inr e ↦ rw (e, mig_loop) (enabled-mig_loop found rl)
  ]

  lookup-mig_loop :
      (k : String) (found : Bool × GoMap String ℕ) (rl : GoMap String Q)
      → IsMap rl
      → is_mig k ≡ true
      → lookup k (mig_loop q found rl).1
        ≡ (if has_key k rl then counted (lookup k rl) else lookup k found.1)
  unfolding mig_loop lookup
  lookup-mig_loop k found [] h mig = refl
  lookup-mig_loop k found ((name, v) ∷ rl) h mig = elim (Bool-cases (name == k)) [
    | inl e ↦
        let same : name ≡ k = (String_eq.equal_iff name k).0 e in
        let named : is_mig name ≡ true = ap (is_mig) same ∙ mig in
        let absent : has_key k rl ≡ false = ap (λ (n : String). has_key n rl) (sym same) ∙ h.0 in
        rw (named, mig_loop)
          (lookup-mig_loop k (true, insert name (q.value_of v) found.1) rl h.1 mig
            ∙ rw absent (rw e (lookup-insert name k (q.value_of v) found.1 ∙ rw e refl)))
    | inr e ↦
        lookup-mig_loop k
          (if is_mig name then (true, insert name (q.value_of v) found.1) else found) rl h.1 mig
        ∙ rw e (elim (Bool-cases (has_key k rl)) [
          | inl m ↦ rw m refl
          | inr m ↦ rw m (elim (Bool-cases (is_mig name)) [
            | inl g ↦ rw g (lookup-insert name k (q.value_of v) found.1 ∙ rw e refl)
            | inr g ↦ rw g refl
          ])
        ])
  ]

  lookup-mig_loop_other :
      (k : String) (found : Bool × GoMap String ℕ) (rl : GoMap String Q)
      → is_mig k ≡ false
      → lookup k (mig_loop q found rl).1 ≡ lookup k found.1
  unfolding mig_loop
  lookup-mig_loop_other k found [] mig = refl
  lookup-mig_loop_other k found ((name, v) ∷ rl) mig = elim (Bool-cases (is_mig name)) [
    | inl e ↦
        let other : (name == k) ≡ false = elim (Bool-cases (name == k)) [
          | inl same ↦
              let clash : true ≡ false =
                sym e ∙ ap (is_mig) ((String_eq.equal_iff name k).0 same) ∙ mig in
              absurd (cc)
          | inr differs ↦ differs
        ] in
        rw (e, mig_loop)
          (lookup-mig_loop_other k (true, insert name (q.value_of v) found.1) rl mig
            ∙ lookup-insert name k (q.value_of v) found.1
            ∙ rw other refl)
    | inr e ↦ rw (e, mig_loop) (lookup-mig_loop_other k found rl mig)
  ]

  -- If no resource is allocatable twice: MIG is found exactly when some allocatable resource has
  -- the prefix of MIG, and the devices are these resources with their counts, and no others.
  pub detect_mig_resources_lem :
      (node : Node Q) (k : String)
      → IsMap node.allocatable
      → ((detect_mig_resources q node).0 ≡ has_mig node.allocatable)
        × (lookup k (detect_mig_resources q node).1
            ≡ (if is_mig k then counted (lookup k node.allocatable) else none))
  unfolding detect_mig_resources
  detect_mig_resources_lem node k h = (
    enabled-mig_loop (false, []) node.allocatable
        ∙ elim (Bool-cases (has_mig node.allocatable)) [ inl m ↦ rw m refl | inr m ↦ rw m refl ],
    elim (Bool-cases (is_mig k)) [
      | inl e ↦
          lookup-mig_loop k (false, []) node.allocatable h e
          ∙ rw e (elim (Bool-cases (has_key k node.allocatable)) [
            | inl m ↦ rw m refl
            | inr m ↦ rw m (rw (lookup-of-not_has_key k node.allocatable m) (unfold lookup in refl))
          ])
      | inr e ↦
          lookup-mig_loop_other k (false, []) node.allocatable e ∙ rw e (unfold lookup in refl)
    ],
  )
