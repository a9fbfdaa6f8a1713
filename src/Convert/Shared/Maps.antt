-- ===== src/Convert/Shared/Maps.antt =====
-- The printed resource lists of limit ranges and quotas.
use kubeadapt_agent.Prelude.{
  ◌≡◌, refl, ◌∙◌, Option, none, some, [], ◌∷◌, String, String_eq, arith, if◌then◌else◌, Bool-cases,
  inl, inr,
}
use kubeadapt_agent.GoMap.{GoMap, lookup, insert, lookup-insert}
use kubeadapt_agent.GoMap.Keys.{IsMap, has_key, lookup-of-not_has_key}
use kubeadapt_agent.Transport.Message.{Text}
use kubeadapt_agent.Convert.Api.{Quantities}
use kubeadapt_agent.Convert.Shared.{string_map_loop, resource_list_to_string_map}

module _ {Q R : Type 0} (q : Quantities Q R) where
  abbrev pub printed : Option Q → Option Text
  printed none = none
  printed (some a) = some (q.string_of a)

  lookup-string_map_loop :
      (k : String) (m : GoMap String Text) (rl : GoMap String Q)
      → IsMap rl
      → lookup k (string_map_loop q m rl)
        ≡ (if has_key k rl then printed (lookup k rl) else lookup k m)
  unfolding string_map_loop lookup
  lookup-string_map_loop k m [] h = refl
  lookup-string_map_loop k m ((j, v) ∷ rl) h =
      lookup-string_map_loop k (insert j (q.string_of v) m) rl h.1
      ∙ ground (
        arith,
        lookup-insert j k (q.string_of v) m,
        String_eq.equal_iff j k,
        lookup-of-not_has_key k rl,
      )

  -- If no resource is listed twice, the printed list has for every resource the printed form of its
  -- quantity, and nothing for a resource that is not listed.
  pub resource_list_to_string_map_lem :
      (k : String) (rl : GoMap String Q)
      → IsMap rl
      → lookup k (resource_list_to_string_map q rl) ≡ printed (lookup k rl)
  unfolding resource_list_to_string_map lookup
  resource_list_to_string_map_lem k rl h =
      lookup-string_map_loop k [] rl h ∙ elim (Bool-cases (has_key k rl)) [
        | inl e ↦ rw e refl
        | inr e ↦ rw e (rw (lookup-of-not_has_key k rl e) refl)
      ]
