-- ===== src/Examples/Starting.antt =====
-- What main finds at the start, and the transport that retries, at concrete inputs.
use kubeadapt_agent.Prelude.{
  ℕ, ◌≡◌, refl, true, false, none, some, [], ◌∷◌, String_eq, bytes_comparable, if◌then◌else◌, ◌==◌,
  any, contains, ◌+◌, ◌≤◌, ltb, All, All-any, ℕ_eq,
}
use kubeadapt_agent.Prelude.Int.{pos}
use kubeadapt_agent.GoMap.{keys}
use kubeadapt_agent.Store.{last_updated_times}
use kubeadapt_agent.Transport.Message.{Text, text}
use kubeadapt_agent.Transport.Middleware.{Reply, network_error, response, round_trip}
use kubeadapt_agent.Transport.Middleware.Trips.{decisive, round_trip_lem}
use kubeadapt_agent.Dcgm.Collector.{Fetched, no_response, response, scrape_endpoint}
use kubeadapt_agent.Discovery.{Capabilities, Cluster, detect_dcgm_exporter}
use kubeadapt_agent.Discovery.Exporter.{
  gives_gpu, listed, addresses, first_found, detect_dcgm_exporter_lem,
}
use kubeadapt_agent.CloudMetadata.{Services, detect_cloud_metadata}
use kubeadapt_agent.CloudMetadata.Zones.{detect_cloud_metadata-gcp}
use kubeadapt_agent.Command.{GpuConfig, register_collectors}
use kubeadapt_agent.Command.Covered.{is_written, register_collectors-stores}
use kubeadapt_agent.Examples.Converting.{quantities}
use kubeadapt_agent.Examples.Nodes.{api_node}
use kubeadapt_agent.Examples.Whole.{store}

-- A node with parts of a device; no pod has the first label, and of two with the second one waits
-- for its address.
abbrev pub cluster : Cluster ℕ
cluster = record {
  groups = some ("apps" ∷ "metrics.k8s.io" ∷ []);
  one_node = some (api_node "node-a" ∷ []);
  all_nodes = some (api_node "node-a" ∷ []);
  pod_ips = λ sel. if sel == "app=nvidia-dcgm-exporter" then none else some ("" ∷ "10.0.0.9" ∷ []);
}

detect_dcgm_exporter_example : detect_dcgm_exporter quantities cluster ≡ (
    if any (gives_gpu quantities) (listed cluster.all_nodes)
    then first_found
        (addresses (cluster.pod_ips "app=nvidia-dcgm-exporter"))
        (addresses (cluster.pod_ips "app.kubernetes.io/name=dcgm-exporter"))
    else (false, []))
detect_dcgm_exporter_example = detect_dcgm_exporter_lem quantities cluster

abbrev pub gcp_answer : Text → Fetched
gcp_answer path =
    let name = text "shop" in
    if path == text "/project/project-id"
    then response 200 (some name)
    else if path == text "/instance/zone"
    then response 200 (some (text "projects/1/zones/europe-west1-b"))
    else response 200 (some (text "projects/1/machineTypes/e2-small"))

abbrev pub services : Services
services = record {
  aws_token = no_response;
  aws_document = λ token. no_response;
  gcp_path = gcp_answer;
  azure_document = no_response;
  decode_aws = λ body. none;
  decode_azure = λ body. none;
}

detect_cloud_metadata_example : detect_cloud_metadata services ≡ record {
  account_id = text "shop";
  region = text "europe-west1";
  zone = text "europe-west1-b";
  instance_type = text "e2-small";
  instance_id = [];
  provider = text "gcp";
}
unfolding scrape_endpoint
detect_cloud_metadata_example =
    detect_cloud_metadata-gcp services (text "shop") (text "projects/1/zones")
      (text "projects/1/machineTypes") (text "e2-small") b'e' (text "urope-west1") (text "b") refl
      refl refl refl (All-any (λ c. c == b'/') (text "europe-west1-b") refl)
      (All-any (λ c. c == b'-') (text "b") refl) (All-any (λ c. c == b'/') (text "e2-small") refl)

abbrev pub capabilities : Capabilities
capabilities = record {
  metrics_server = true;
  vpa = false;
  karpenter = true;
  provider = "gcp";
  dcgm_exporter = false;
  dcgm_exporter_endpoints = [];
}

abbrev pub gpu_config : GpuConfig
gpu_config = record {
  dcgm_exporter_endpoints = "10.0.0.9" ∷ [];
  gpu_metrics_enabled = true;
  dcgm_exporter_port = "9400";
}

register_collectors-stores_example :
    All
      (λ r. contains r (register_collectors capabilities gpu_config) ≡ is_written capabilities r)
      (keys (last_updated_times store))
register_collectors-stores_example = register_collectors-stores store capabilities gpu_config

-- An error of the network, two busy answers, and a good one.
abbrev pub replies : ℕ → Reply
replies i =
    if ltb i 1
    then network_error
    else if ltb i 3
    then response 429 (some (pos 2)) none
    else response 200 none none

round_trip_example :
    ((round_trip 5 replies).reply ≡ some (replies (decisive 5 0 replies)))
    × ((round_trip 5 replies).trips ≡ decisive 5 0 replies + 1)
    × ((round_trip 5 replies).trips ≤ 5 + 1)
round_trip_example = round_trip_lem 5 replies
