-- ===== src/Convert/Nodes/Places.antt =====
-- Where a converted node is.
use kubeadapt_agent.Prelude.{◌≡◌, ap, ◌∙◌, bytes_comparable}
use kubeadapt_agent.GoMap.{lookup}
use kubeadapt_agent.Transport.Message.{text}
use kubeadapt_agent.Convert.Api.{Quantities}
use kubeadapt_agent.Convert.Cloud.{CloudId, parse_provider_id}
use kubeadapt_agent.Convert.Cloud.Ids.{NodeId, print_id, parts, IsPlain, parse_provider_id-print}
use kubeadapt_agent.Convert.Nodes.{Node, node_to_model}
use kubeadapt_agent.Convert.Shared.{deref_or}

module _ {Q R : Type 0} (q : Quantities Q R) where
  -- A node whose provider id is of AWS, GCE or Azure in the documented form gets the instance of
  -- the id; its region and its zone are those of the topology labels, and without such a label
  -- those of the id.
  pub node_to_model_place :
      (node : Node Q) (id : NodeId)
      → IsPlain id
      → node.provider_id ≡ print_id id
      → ((node_to_model q node).instance_id ≡ (parts id).instance_id)
        × ((node_to_model q node).region
            ≡ deref_or
                (parts id).region
                (lookup (text "topology.kubernetes.io/region") node.labels))
        × ((node_to_model q node).zone
            ≡ deref_or (parts id).az (lookup (text "topology.kubernetes.io/zone") node.labels))
  unfolding node_to_model
  node_to_model_place node id plain e =
      let place : parse_provider_id node.provider_id ≡ parts id =
        ap parse_provider_id e ∙ parse_provider_id-print id plain in
      (
        ap (λ (c : CloudId). c.instance_id) place,
        ap
            (λ (c : CloudId).
              deref_or c.region (lookup (text "topology.kubernetes.io/region") node.labels))
            place,
        ap
            (λ (c : CloudId).
              deref_or c.az (lookup (text "topology.kubernetes.io/zone") node.labels))
            place,
      )
