-- ===== src/Command.antt =====
-- cmd/agent/main.go: which collectors main registers, and the endpoints of dcgm-exporter that it
-- hands over.
pub mod Covered
use Prim.Native.String.{◌++◌ as append}
use kubeadapt_agent.Prelude.{
  Bool, ◌&&◌, ◌||◌, not, List, [], ◌∷◌, ◌++◌, String, map, if◌then◌else◌, is_empty,
}
use kubeadapt_agent.Discovery.{Capabilities}

-- What the registration reads of the configuration; the port as it is printed.
pub record GpuConfig : Type 0 where
  pub dcgm_exporter_endpoints : List String
  pub gpu_metrics_enabled : Bool
  pub dcgm_exporter_port : String

-- The collectors that are always registered, by their names.
abbrev pub base_collectors : List String
base_collectors =
    "nodes" ∷ "pods" ∷ "namespaces" ∷ "deployments" ∷ "statefulsets" ∷ "daemonsets" ∷ "replicasets"
    ∷ "jobs" ∷ "cronjobs" ∷ "hpas" ∷ "pdbs" ∷ "services" ∷ "ingresses" ∷ "pvs" ∷ "pvcs"
    ∷ "storageclasses" ∷ "priorityclasses" ∷ "limitranges" ∷ "resourcequotas" ∷ []

-- if c { registry.Register(...) }
abbrev pub register_if : Bool → String → List String → List String
register_if c name registry = if c then registry ++ name ∷ [] else registry

unfoldable pub gpu_registered : Capabilities → GpuConfig → Bool
gpu_registered caps cfg =
    (caps.dcgm_exporter || not (is_empty cfg.dcgm_exporter_endpoints)) && cfg.gpu_metrics_enabled

-- Step 6 of main: the names of the registered collectors, in order.
unfoldable pub register_collectors : Capabilities → GpuConfig → List String
register_collectors caps cfg = register_if (gpu_registered caps cfg) "gpu" (
    register_if caps.metrics_server "metrics"
      (register_if caps.karpenter "nodepools" (register_if caps.vpa "vpas" base_collectors)))

-- fmt.Sprintf("http://%s:%d", ip, port)
abbrev pub endpoint_url : String → String → String
endpoint_url port ip = append "http://" (append ip (append ":" port))

-- endpointsFn, for what DetectDCGMEndpoints finds at that time.
unfoldable pub endpoints_fn : GpuConfig → List String → List String
endpoints_fn cfg detected =
    let static = cfg.dcgm_exporter_endpoints in
    map (endpoint_url cfg.dcgm_exporter_port) (if is_empty static then detected else static)
