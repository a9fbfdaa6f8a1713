-- ===== src/CloudMetadata/Zones.antt =====
-- What is told of an instance of GCP.
use kubeadapt_agent.Prelude.{ℕ, ◌≡◌, refl, none, some, [], ◌∷◌, ◌++◌, ℕ_eq}
use kubeadapt_agent.Transport.Message.{Text, text}
use kubeadapt_agent.Dcgm.Collector.{scrape_endpoint}
use kubeadapt_agent.Dcgm.Labels.RoundTrip.{Lacks}
use kubeadapt_agent.Dcgm.Lines.Sample.{last_cut-append}
use kubeadapt_agent.CloudMetadata.{
  Services, after_slash, region_of_zone, detect_aws, detect_gcp, first_detected,
  detect_cloud_metadata,
}

after_slash-append :
    (path name : Text) → Lacks b'/' name → after_slash (path ++ (b'/' ∷ name)) ≡ name
unfolding after_slash
after_slash-append path name h = rw (last_cut-append b'/' path name h, after_slash) refl

region_of_zone-append :
    (c : ℕ) (region suffix : Text)
    → Lacks b'-' suffix
    → region_of_zone ((c ∷ region) ++ (b'-' ∷ suffix)) ≡ c ∷ region
unfolding region_of_zone
region_of_zone-append c region suffix h =
    rw (last_cut-append b'-' (c ∷ region) suffix h, region_of_zone) refl

-- If the service of AWS gives no token and that of GCP answers with a project, a zone and a
-- machine type in the documented form, a path and a name, where the zone is a region that is not
-- empty with a suffix: the account is the project, and region, zone and machine type are read back.
pub detect_cloud_metadata-gcp :
    (s : Services) (project zone_path machine_path machine : Text) (c : ℕ) (region suffix : Text)
    → scrape_endpoint s.aws_token ≡ none
    → scrape_endpoint (s.gcp_path (text "/project/project-id")) ≡ some project
    → scrape_endpoint (s.gcp_path (text "/instance/zone"))
      ≡ some (zone_path ++ (b'/' ∷ ((c ∷ region) ++ (b'-' ∷ suffix))))
    → scrape_endpoint (s.gcp_path (text "/instance/machine-type"))
      ≡ some (machine_path ++ (b'/' ∷ machine))
    → Lacks b'/' ((c ∷ region) ++ (b'-' ∷ suffix))
    → Lacks b'-' suffix
    → Lacks b'/' machine
    → detect_cloud_metadata s ≡ record {
      account_id = project;
      region = c ∷ region;
      zone = (c ∷ region) ++ (b'-' ∷ suffix);
      instance_type = machine;
      instance_id = [];
      provider = text "gcp";
    }
unfolding detect_cloud_metadata detect_aws detect_gcp first_detected
detect_cloud_metadata-gcp s project zone_path machine_path machine c region suffix token p z m hz hs
      hm =
    let zone = (c ∷ region) ++ (b'-' ∷ suffix) in
    rw token (
      rw p (
        rw z (
          rw m (
            rw (after_slash-append zone_path zone hz) (
              rw (region_of_zone-append c region suffix hs)
                (rw (after_slash-append machine_path machine hm) refl))))))
