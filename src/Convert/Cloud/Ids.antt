-- ===== src/Convert/Cloud/Ids.antt =====
-- The provider ids that ParseProviderID documents are read back in full.
use mathlib.Core.List.{append-nil, append_assoc}
use kubeadapt_agent.Prelude.{ℕ, ◌≡◌, refl, ap, ◌∙◌, [], ◌∷◌, ◌++◌, ℕ_eq, arith}
use kubeadapt_agent.Transport.Message.{Text, text}
use kubeadapt_agent.Dcgm.Labels.RoundTrip.{Lacks, cut-Lacks}
use kubeadapt_agent.Dcgm.Lines.Sample.{last_cut-append}
use kubeadapt_agent.Config.{split_from}
use kubeadapt_agent.Convert.Cloud.{
  CloudId, trim_from, drop_last, parse_aws_provider_id, parse_gce_provider_id,
  parse_azure_provider_id, parse_provider_id,
}

-- The parts of a provider id.
pub data NodeId : Type 0 where
  aws : (region : Text) (zone : ℕ) (instance_id : Text) → NodeId
  gce : (project region suffix instance_id : Text) → NodeId
  azure : (path vm : Text) → NodeId

abbrev pub print_id : NodeId → Text
print_id (aws region zone instance_id) =
    text "aws:///" ++ ((region ++ zone ∷ []) ++ (b'/' ∷ instance_id))
print_id (gce project region suffix instance_id) =
    text "gce://" ++ (project ++ (b'/' ∷ ((region ++ (b'-' ∷ suffix)) ++ (b'/' ∷ instance_id))))
print_id (azure path vm) = text "azure:///" ++ (path ++ (b'/' ∷ vm))

abbrev pub parts : NodeId → CloudId
parts (aws region zone instance_id) = record {
  instance_id = instance_id;
  az = region ++ zone ∷ [];
  region = region;
}
parts (gce project region suffix instance_id) = record {
  instance_id = instance_id;
  az = region ++ (b'-' ∷ suffix);
  region = region;
}
parts (azure path vm) = record { instance_id = vm; az = []; region = [] }

-- No part but the instance of AWS and the path of Azure holds a slash, and no suffix a dash.
abbrev pub IsPlain : NodeId → Type 0
IsPlain (aws region zone instance_id) = Lacks b'/' (region ++ zone ∷ [])
IsPlain (gce project region suffix instance_id) =
    Lacks b'/' project
    × Lacks b'/' (region ++ (b'-' ∷ suffix))
    × Lacks b'-' suffix
    × Lacks b'/' instance_id
IsPlain (azure path vm) = Lacks b'/' vm

drop_last-append : (s : Text) (c : ℕ) → drop_last (s ++ c ∷ []) ≡ s
unfolding drop_last
drop_last-append [] c = refl
drop_last-append (a ∷ []) c = refl
drop_last-append (a ∷ b ∷ s) c = rw (drop_last-append (b ∷ s) c) refl

split_from-Lacks :
    (b : ℕ) (part k s : Text)
    → Lacks b k
    → split_from b part (k ++ (b ∷ s)) ≡ (part ++ k) ∷ split_from b [] s
unfolding split_from
split_from-Lacks b part [] s h = rw append-nil (ground arith)
split_from-Lacks b part (c ∷ k) s h = rw (h.0) (
    split_from-Lacks b (part ++ c ∷ []) k s h.1
    ∙ ap (λ w. w ∷ split_from b [] s) (append_assoc part (c ∷ []) k))

split_from-end : (b : ℕ) (part k : Text) → Lacks b k → split_from b part k ≡ (part ++ k) ∷ []
unfolding split_from
split_from-end b part [] h = rw append-nil refl
split_from-end b part (c ∷ k) h =
    rw (h.0)
      (split_from-end b (part ++ c ∷ []) k h.1 ∙ ap (λ w. w ∷ []) (append_assoc part (c ∷ []) k))

-- A provider id of AWS, GCE or Azure in the documented form is read back: the instance, and for
-- AWS and GCE the zone and its region.
pub parse_provider_id-print : (n : NodeId) → IsPlain n → parse_provider_id (print_id n) ≡ parts n
unfolding parse_provider_id parse_aws_provider_id parse_gce_provider_id parse_azure_provider_id
    trim_from
parse_provider_id-print (aws region zone instance_id) h =
    rw (cut-Lacks b'/' (region ++ zone ∷ []) instance_id h, drop_last-append region zone) refl
parse_provider_id-print (gce project region suffix instance_id) h =
    let (p, z, d, i) = h in
    let zone = region ++ (b'-' ∷ suffix) in
    let splits =
      split_from-Lacks b'/' [] project (zone ++ (b'/' ∷ instance_id)) p
      ∙ ap (λ ss. project ∷ ss)
          (split_from-Lacks b'/' [] zone instance_id z
            ∙ ap (λ ss. zone ∷ ss) (split_from-end b'/' [] instance_id i)) in
    rw (splits, last_cut-append b'-' region suffix d) refl
parse_provider_id-print (azure path vm) h = rw (last_cut-append b'/' path vm h) refl
