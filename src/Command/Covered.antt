-- ===== src/Command/Covered.antt =====
-- Which stores have a collector that writes them.
use kubeadapt_agent.Prelude.{
  ◌≡◌, refl, ap, ◌∙◌, Bool, true, false, List, [], ◌∷◌, String, String_eq, arith, All, contains,
  if◌then◌else◌, ◌==◌, contains-append,
}
use kubeadapt_agent.GoMap.{keys}
use kubeadapt_agent.Store.{Store, last_updated_times}
use kubeadapt_agent.Discovery.{Capabilities}
use kubeadapt_agent.Command.{
  GpuConfig, base_collectors, register_if, gpu_registered, register_collectors,
}

-- Whether the cluster has what writes the store of a resource.
abbrev pub is_written : Capabilities → String → Bool
is_written caps r =
    if r == "custom_workloads"
    then false
    else if r == "vpas"
    then caps.vpa
    else if r == "nodepools"
    then caps.karpenter
    else true

contains-register_if :
    (c : Bool) (name r : String) (registry : List String)
    → contains r (register_if c name registry)
      ≡ (if contains r registry then true else if name == r then c else false)
contains-register_if true name r registry = contains-append r registry (name ∷ []) ∙ ground arith
contains-register_if false name r registry = ground arith

abbrev also : Bool → Bool → Bool → Bool
also before same c = if before then true else if same then c else false

contains-register_collectors :
    (caps : Capabilities) (cfg : GpuConfig) (r : String)
    → contains r (register_collectors caps cfg)
      ≡ also
          (also
            (also
              (also (contains r base_collectors) ("vpas" == r) caps.vpa)
              ("nodepools" == r)
              caps.karpenter)
            ("metrics" == r)
            caps.metrics_server)
          ("gpu" == r)
          (gpu_registered caps cfg)
unfolding register_collectors
contains-register_collectors caps cfg r =
    let vpas = register_if caps.vpa "vpas" base_collectors in
    let pools = register_if caps.karpenter "nodepools" vpas in
    let metrics = register_if caps.metrics_server "metrics" pools in
    let gpu = gpu_registered caps cfg in
    contains-register_if gpu "gpu" r metrics
    ∙ ap (λ x. also x ("gpu" == r) gpu)
        (contains-register_if caps.metrics_server "metrics" r pools
          ∙ ap (λ x. also x ("metrics" == r) caps.metrics_server)
              (contains-register_if caps.karpenter "nodepools" r vpas
                ∙ ap (λ x. also x ("nodepools" == r) caps.karpenter)
                    (contains-register_if caps.vpa "vpas" r base_collectors)))

-- What is left of the tests at the name of a collector.
if_twice : (b : Bool) → (if (if b then true else false) then true else false) ≡ b
if_twice true = refl
if_twice false = refl

if_thrice :
    (b : Bool) → (if (if (if b then true else false) then true else false) then true else false) ≡ b
if_thrice true = refl
if_thrice false = refl

infixr 3 ◌<&>◌
-- What holds of an element and of those after it.
abbrev ◌<&>◌ {ℓ κ} : {A : Type ℓ} → {B : Type κ} → A → B → A × B
a <&> b = (a, b)

-- Of the resources whose times the staleness check reads, main registers a collector for all but
-- custom workloads, and for vertical pod autoscalers and node pools exactly where the cluster has
-- their API group.
pub register_collectors-stores :
    {R : Type 0} (s : Store R) (caps : Capabilities) (cfg : GpuConfig)
    → All
        (λ r. contains r (register_collectors caps cfg) ≡ is_written caps r)
        (keys (last_updated_times s))
unfolding keys last_updated_times
register_collectors-stores s caps cfg =
    let at = contains-register_collectors caps cfg in
    at "nodes"
    <&> at "pods"
    <&> at "namespaces"
    <&> at "deployments"
    <&> at "statefulsets"
    <&> at "daemonsets"
    <&> at "replicasets"
    <&> at "jobs"
    <&> at "cronjobs"
    <&> at "custom_workloads"
    <&> at "hpas"
    <&> (at "vpas" ∙ if_thrice caps.vpa)
    <&> at "pdbs"
    <&> at "services"
    <&> at "ingresses"
    <&> at "pvs"
    <&> at "pvcs"
    <&> at "storageclasses"
    <&> at "priorityclasses"
    <&> at "limitranges"
    <&> at "resourcequotas"
    <&> (at "nodepools" ∙ if_twice caps.karpenter)
    <&> tt
