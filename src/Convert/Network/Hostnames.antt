-- ===== src/Convert/Network/Hostnames.antt =====
-- The addresses that a converted Ingress lists.
use mathlib.Core.List.{append_assoc, append-nil}
use kubeadapt_agent.Prelude.{
  ◌≡◌, sym, ◌∙◌, not, List, [], ◌∷◌, ◌++◌, String, String_eq, map, keep, if◌then◌else◌, ◌==◌,
  Bool-cases, inl, inr,
}
use kubeadapt_agent.Convert.Network.{LoadBalancerPoint, hostnames_loop, Ingress, ingress_to_model}

-- The hostname, or the address without one.
abbrev pub address : LoadBalancerPoint → String
address p = if p.hostname == "" then p.ip else p.hostname

abbrev pub addresses : List LoadBalancerPoint → List String
addresses points = keep (λ a. not (a == "")) (map address points)

hostnames_loop_lem :
    (hostnames : List String) (points : List LoadBalancerPoint)
    → hostnames_loop hostnames points ≡ hostnames ++ addresses points
unfolding hostnames_loop
hostnames_loop_lem hostnames [] = sym (append-nil hostnames)
hostnames_loop_lem hostnames (p ∷ points) = elim (Bool-cases (p.hostname == "")) [
  | inl named ↦ rw named (elim (Bool-cases (p.ip == "")) [
    | inl e ↦ rw e (hostnames_loop_lem hostnames points)
    | inr e ↦ rw e (
        hostnames_loop_lem (hostnames ++ p.ip ∷ []) points
        ∙ append_assoc hostnames (p.ip ∷ []) (addresses points))
  ])
  | inr named ↦ rw named (
      rw named (
        hostnames_loop_lem (hostnames ++ p.hostname ∷ []) points
        ∙ append_assoc hostnames (p.hostname ∷ []) (addresses points)))
]

-- A converted Ingress lists, for each point of its load balancer in order, the hostname, or the
-- address where there is no hostname; a point with neither is left out, so no entry is empty.
pub ingress_to_model_hostnames :
    (ing : Ingress) → (ingress_to_model ing).load_balancer_hostnames ≡ addresses ing.points
unfolding ingress_to_model
ingress_to_model_hostnames ing = hostnames_loop_lem [] ing.points
