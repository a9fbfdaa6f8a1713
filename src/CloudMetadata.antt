-- ===== src/CloudMetadata.antt =====
-- internal/cloud/metadata.go: the cloud account of the cluster. What a request is answered is a
-- value of `Fetched`; the decoders of the two JSON documents are parameters.
pub mod Zones
use kubeadapt_agent.Prelude.{ℕ, Option, none, some, List, [], ◌∷◌, is_empty, if◌then◌else◌}
use kubeadapt_agent.Transport.Message.{Text, text}
use kubeadapt_agent.Dcgm.Collector.{Fetched, scrape_endpoint}
use kubeadapt_agent.Dcgm.Lines.{last_cut}

pub record Metadata : Type 0 where
  pub account_id : Text
  pub region : Text
  pub zone : Text
  pub instance_type : Text
  pub instance_id : Text
  pub provider : Text

pub record AwsDocument : Type 0 where
  pub account_id : Text
  pub region : Text
  pub availability_zone : Text
  pub instance_type : Text
  pub instance_id : Text

pub record AzureDocument : Type 0 where
  pub subscription_id : Text
  pub location : Text
  pub vm_size : Text
  pub vm_id : Text

-- The services: the token of AWS, its document for a token, a path of GCP, the document of Azure,
-- and the decoders, `none` for an error.
pub record Services : Type 0 where
  pub aws_token : Fetched
  pub aws_document : Text → Fetched
  pub gcp_path : Text → Fetched
  pub azure_document : Fetched
  pub decode_aws : Text → Option AwsDocument
  pub decode_azure : Text → Option AzureDocument

abbrev pub no_metadata : Metadata
no_metadata = record {
  account_id = [];
  region = [];
  zone = [];
  instance_type = [];
  instance_id = [];
  provider = [];
}

abbrev pub and_then {ℓ κ} : {A : Type ℓ} → {B : Type κ} → Option A → (A → Option B) → Option B
and_then none next = none
and_then (some a) next = next a

abbrev pub aws_metadata : AwsDocument → Option Metadata
aws_metadata doc = some (record {
  account_id = doc.account_id;
  region = doc.region;
  zone = doc.availability_zone;
  instance_type = doc.instance_type;
  instance_id = doc.instance_id;
  provider = text "aws";
})

-- detectAWSURL
unfoldable pub detect_aws : Services → Option Metadata
detect_aws s = and_then (scrape_endpoint s.aws_token) (λ token.
    and_then (scrape_endpoint (s.aws_document token))
      (λ body. and_then (s.decode_aws body) aws_metadata))

-- The text behind the last slash, or all of it.
unfoldable pub after_slash : Text → Text
after_slash path = elim (last_cut b'/' path) [ none ↦ path | some (before, after) ↦ after ]

-- The text before the last dash, unless that is missing or the first byte.
unfoldable pub region_of_zone : Text → Text
region_of_zone zone = elim (last_cut b'-' zone) [
  | none ↦ zone
  | some (before, after) ↦ if is_empty before then zone else before
]

abbrev pub gcp_metadata : Text → Text → Text → Metadata
gcp_metadata project zone_path machine_type_path =
    let zone = after_slash zone_path in
    record {
      account_id = project;
      region = region_of_zone zone;
      zone = zone;
      instance_type = after_slash machine_type_path;
      instance_id = [];
      provider = text "gcp";
    }

-- detectGCPURL
unfoldable pub detect_gcp : Services → Option Metadata
detect_gcp s = and_then (scrape_endpoint (s.gcp_path (text "/project/project-id"))) (λ project.
    and_then (scrape_endpoint (s.gcp_path (text "/instance/zone"))) (λ zone_path.
      and_then (scrape_endpoint (s.gcp_path (text "/instance/machine-type")))
        (λ machine_type_path. some (gcp_metadata project zone_path machine_type_path))))

abbrev pub azure_metadata : AzureDocument → Option Metadata
azure_metadata doc = some (record {
  account_id = doc.subscription_id;
  region = doc.location;
  zone = [];
  instance_type = doc.vm_size;
  instance_id = doc.vm_id;
  provider = text "azure";
})

-- detectAzureURL
unfoldable pub detect_azure : Services → Option Metadata
detect_azure s =
    and_then (scrape_endpoint s.azure_document)
      (λ body. and_then (s.decode_azure body) azure_metadata)

-- The loop over the providers.
unfoldable pub first_detected : List (Option Metadata) → Metadata
first_detected [] = no_metadata
first_detected (none ∷ providers) = first_detected providers
first_detected (some md ∷ providers) = md

unfoldable pub detect_cloud_metadata : Services → Metadata
detect_cloud_metadata s = first_detected (detect_aws s ∷ detect_gcp s ∷ detect_azure s ∷ [])
