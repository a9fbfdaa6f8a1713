-- ===== src/Examples/Nodes.antt =====
-- The conversion of nodes at concrete inputs.
use kubeadapt_agent.Prelude.{
  ℕ, ◌≡◌, refl, false, [], ◌∷◌, String, String_eq, bytes_comparable, arith,
}
use kubeadapt_agent.Prelude.Int.{pos}
use kubeadapt_agent.GoMap.{lookup}
use kubeadapt_agent.Transport.Message.{text}
use kubeadapt_agent.Convert.Cloud.Ids.{NodeId, aws, parts, print_id}
use kubeadapt_agent.Convert.Nodes.{Node, node_to_model}
use kubeadapt_agent.Convert.Nodes.Places.{node_to_model_place}
use kubeadapt_agent.Convert.Shared.{deref_or}
use kubeadapt_agent.Examples.Converting.{quantities}

abbrev pub place : NodeId
place = aws (text "eu-west-1") b'b' (text "i-07")

abbrev pub api_node : String → Node ℕ
api_node name = record {
  name = name;
  uid = "u-9";
  labels = (text "topology.kubernetes.io/zone", text "eu-west-1c") ∷ [];
  annotations = [];
  creation_millis = pos 1700000000000;
  provider_id = print_id place;
  pod_cidr = "10.0.0.0/24";
  pod_cidrs = "10.0.0.0/24" ∷ [];
  unschedulable = false;
  taints = [];
  kubelet_version = "v1.31.0";
  container_runtime_version = "containerd://2";
  os_image = "linux";
  kernel_version = "6.1";
  kube_proxy_version = "";
  capacity = ("cpu", 4) ∷ ("memory", 1000) ∷ [];
  allocatable = ("cpu", 3) ∷ ("nvidia.com/mig-1g.5gb", 2) ∷ [];
  conditions = record { kind = "Ready"; status = "True"; reason = ""; message = "" } ∷ [];
}

node_to_model_place_example :
    ((node_to_model quantities (api_node "node-a")).instance_id ≡ (parts place).instance_id)
    × ((node_to_model quantities (api_node "node-a")).region
        ≡ deref_or
            (parts place).region
            (lookup (text "topology.kubernetes.io/region") (api_node "node-a").labels))
    × ((node_to_model quantities (api_node "node-a")).zone
        ≡ deref_or
            (parts place).az
            (lookup (text "topology.kubernetes.io/zone") (api_node "node-a").labels))
node_to_model_place_example =
    node_to_model_place quantities (api_node "node-a") place (ground arith) refl
