-- ===== src/Examples/Configuring.antt =====
-- The configuration and the conversions at concrete inputs.
use kubeadapt_agent.Prelude.{
  arith, ◌≤◌, ◌≡◌, refl, true, false, none, [], ◌∷◌, String, String_eq, bytes_comparable, ℕ_eq,
  if◌then◌else◌, ◌==◌, length, All,
}
use kubeadapt_agent.Prelude.Int.{pos, ◌≤ℤ◌, ◌+ℤ◌}
use kubeadapt_agent.GoMap.{GoMap, lookup}
use kubeadapt_agent.Errors.{new_error_collector}
use kubeadapt_agent.Transport.Message.{Text, text}
use kubeadapt_agent.Transport.Client.{new_client, send}
use kubeadapt_agent.Config.{parse_int, Environment, env_or_fallback, parse_int64, load, validate}
use kubeadapt_agent.Config.Numbers.{atoi, digits_from}
use kubeadapt_agent.Config.Validity.{validate-load}
use kubeadapt_agent.Config.Startup.{client_of, validated_posts}
use kubeadapt_agent.Convert.Cloud.{Labels, extract_capacity_type}
use kubeadapt_agent.Convert.Cloud.Ids.{NodeId, gce}
use kubeadapt_agent.Convert.Cloud.Lower.{IsLowerCase, extract_capacity_type-IsLowerCase}
use kubeadapt_agent.Convert.Annotations.{last_applied, max_annotation_bytes, filter_annotations}
use kubeadapt_agent.Convert.Annotations.Kept.{shortened_or, filter_annotations_lem}
use kubeadapt_agent.Examples.Data.{exchange, answer, send_world}

-- A key, and a number of retries that is no number.
abbrev pub getenv : String → String
getenv key =
    if key == "KUBEADAPT_AGENT_TOKEN"
    then "secret"
    else if key == "KUBEADAPT_MAX_RETRIES"
    then "many"
    else ""

abbrev pub environment : Environment
environment = record { getenv = getenv; duration_of = λ s. none }

environment_is_valid : validate (load environment) ≡ none
unfolding env_or_fallback atoi digits_from
environment_is_valid =
    validate-load environment
      (λ e. let t : false ≡ true = (String_eq.equal_iff "secret" "").1 e in cc) refl refl
      (refl, refl) (refl, refl) refl refl refl

validated_posts_example :
    (1
      ≤ (send
          (send_world (λ n. answer 503))
          (client_of (load environment))
          new_error_collector).2.posts)
    × (pos
          (send
            (send_world (λ n. answer 503))
            (client_of (load environment))
            new_error_collector).2.posts
        ≤ℤ (load environment).max_retries +ℤ pos 1)
unfolding new_client load parse_int parse_int64 atoi digits_from
validated_posts_example =
    validated_posts (load environment) (send_world (λ n. answer 503)) new_error_collector 10 40
      (exchange 503) environment_is_valid (omega arith) refl refl refl

abbrev pub instance_name : NodeId
instance_name = gce (text "shop") (text "us-central1") (text "a") (text "vm-1")

abbrev pub node_labels : Labels
node_labels = (text "karpenter.sh/capacity-type", text "Spot") ∷ []

extract_capacity_type-IsLowerCase_example : IsLowerCase (extract_capacity_type node_labels)
extract_capacity_type-IsLowerCase_example = extract_capacity_type-IsLowerCase node_labels

abbrev pub annotations : GoMap Text Text
annotations = (last_applied, text "{}") ∷ (text "team", text "core") ∷ []

filter_annotations_example :
    ((key : Text)
      → lookup key (filter_annotations annotations)
        ≡ (if key == last_applied then none else shortened_or (lookup key annotations) none))
    × All (λ e. length e.1 ≤ max_annotation_bytes) (filter_annotations annotations)
unfolding lookup
filter_annotations_example = filter_annotations_lem annotations (refl, (refl, tt))
