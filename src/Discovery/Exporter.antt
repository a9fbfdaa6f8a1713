-- ===== src/Discovery/Exporter.antt =====
-- Which endpoints of dcgm-exporter are found.
use mathlib.Core.List.{append_assoc, append-nil}
use kubeadapt_agent.Prelude.{
  ◌≡◌, refl, sym, ◌∙◌, Bool, true, false, not, ◌||◌, Option, none, some, List, [], ◌∷◌, ◌++◌,
  String, String_eq, arith, any, is_empty, keep, if◌then◌else◌, ◌==◌, Bool-cases, inl, inr,
}
use kubeadapt_agent.GoMap.{GoMap, lookup, keys}
use kubeadapt_agent.Convert.Api.{Quantities}
use kubeadapt_agent.Convert.Nodes.{Node, is_mig}
use kubeadapt_agent.Discovery.{
  Cluster, endpoints_loop, endpoints_of, selectors_loop, mig_name_loop, positive, has_gpu_loop,
  has_gpu, detect_dcgm_exporter,
}

abbrev pub listed {ℓ} : {A : Type ℓ} → Option (List A) → List A
listed none = []
listed (some l) = l

-- The addresses that a selector gives, without the pods that have none yet.
abbrev pub addresses : Option (List String) → List String
addresses ips = keep (λ ip. not (ip == "")) (listed ips)

endpoints_loop_lem :
    (endpoints ips : List String)
    → endpoints_loop endpoints ips ≡ endpoints ++ keep (λ ip. not (ip == "")) ips
unfolding endpoints_loop
endpoints_loop_lem endpoints [] = sym (append-nil endpoints)
endpoints_loop_lem endpoints (ip ∷ ips) = elim (Bool-cases (ip == "")) [
  | inl e ↦ rw e (endpoints_loop_lem endpoints ips)
  | inr e ↦ rw e (
      endpoints_loop_lem (endpoints ++ ip ∷ []) ips
      ∙ append_assoc endpoints (ip ∷ []) (keep (λ ip. not (ip == "")) ips))
]

endpoints_of_lem : (ips : Option (List String)) → endpoints_of ips ≡ addresses ips
endpoints_of_lem none = refl
endpoints_of_lem (some ips) = endpoints_loop_lem [] ips

-- The first of two lists that is not empty, and whether there is one.
abbrev pub first_found : List String → List String → Bool × List String
first_found a b = if is_empty a then if is_empty b then (false, []) else (true, b) else (true, a)

mig_name_loop_lem : {Q : Type 0} (rl : GoMap String Q) → mig_name_loop rl ≡ any is_mig (keys rl)
unfolding mig_name_loop keys
mig_name_loop_lem [] = refl
mig_name_loop_lem ((name, v) ∷ rl) = ground (arith, mig_name_loop_lem rl)

module _ {Q R : Type 0} (q : Quantities Q R) where
  -- A node with a whole device or a part of one to give.
  abbrev pub gives_gpu : Node Q → Bool
  gives_gpu n =
      positive q (lookup "nvidia.com/gpu" n.allocatable) || any is_mig (keys n.allocatable)

  has_gpu_loop_lem : (nodes : List (Node Q)) → has_gpu_loop q nodes ≡ any gives_gpu nodes
  unfolding has_gpu_loop
  has_gpu_loop_lem [] = refl
  has_gpu_loop_lem (n ∷ nodes) = rw (mig_name_loop_lem n.allocatable) (
      rw (has_gpu_loop_lem nodes)
        (elim (Bool-cases (positive q (lookup "nvidia.com/gpu" n.allocatable))) [
          | inl e ↦ rw e refl
          | inr e ↦ rw e (elim (Bool-cases (any is_mig (keys n.allocatable))) [
            | inl m ↦ rw m refl
            | inr m ↦ rw m refl
          ])
        ]))

  has_gpu_lem : (nodes : Option (List (Node Q))) → has_gpu q nodes ≡ any gives_gpu (listed nodes)
  has_gpu_lem none = refl
  has_gpu_lem (some nodes) = has_gpu_loop_lem nodes

  -- The exporter is found exactly when some node has a device or a part of one to give and one of
  -- the two selectors gives a pod with an address; the endpoints are the addresses that are not
  -- empty of the first such selector. A list that cannot be read counts as empty.
  pub detect_dcgm_exporter_lem :
      (c : Cluster Q)
      → detect_dcgm_exporter q c ≡ (
          if any gives_gpu (listed c.all_nodes)
          then first_found
              (addresses (c.pod_ips "app=nvidia-dcgm-exporter"))
              (addresses (c.pod_ips "app.kubernetes.io/name=dcgm-exporter"))
          else (false, []))
  unfolding detect_dcgm_exporter selectors_loop
  detect_dcgm_exporter_lem c = rw (has_gpu_lem c.all_nodes) (
      rw (endpoints_of_lem (c.pod_ips "app=nvidia-dcgm-exporter"))
        (rw (endpoints_of_lem (c.pod_ips "app.kubernetes.io/name=dcgm-exporter")) refl))
