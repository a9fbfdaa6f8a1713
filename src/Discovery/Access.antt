-- ===== src/Discovery/Access.antt =====
-- What Detect and CheckResource find.
use kubeadapt_agent.Prelude.{
  ◌≡◌, refl, sym, ap, ◌∙◌, Bool, true, false, ◌&&◌, Option, none, some, List, [], ◌∷◌, String,
  String_eq, arith, contains, if◌then◌else◌, Bool-cases, inl, inr,
}
use kubeadapt_agent.GoMap.{GoMap, lookup, insert, get_or, lookup-insert}
use kubeadapt_agent.Convert.Api.{Quantities}
use kubeadapt_agent.Discovery.{
  Capabilities, Cluster, group_set, capabilities, detected, detect, Checked, checked, check_failed,
  has_name, has_api_group, has_resource, can_list_watch_loop, can_list_watch, phase_1, phase_3,
  check_resource,
}

abbrev pub listed_in : String → Option (List String) → Bool
listed_in name none = false
listed_in name (some names) = contains name names

abbrev pub is_allowed : Option Bool → Bool
is_allowed none = false
is_allowed (some allowed) = allowed

abbrev pub is_available : Checked → Bool
is_available (checked b) = b
is_available (check_failed phase) = false

has_name-contains :
    (name : String) (names : List String) → has_name name names ≡ contains name names
unfolding has_name
has_name-contains name [] = refl
has_name-contains name (n ∷ names) = ground (arith, has_name-contains name names)

available_group :
    (groups : Option (List String)) (group : String) (rest : Checked)
    → is_available (phase_1 (has_api_group groups group) rest)
      ≡ (listed_in group groups && is_available rest)
unfolding has_api_group
available_group none group rest = refl
available_group (some groups) group rest =
    let e = has_name-contains group groups in
    rw e (elim (Bool-cases (contains group groups)) [ inl p ↦ rw p refl | inr p ↦ rw p refl ])

listed_resource :
    (resources : Option (List String)) (resource : String)
    → has_resource resources resource ≡ listed_in resource resources
unfolding has_resource
listed_resource none resource = refl
listed_resource (some resources) resource = has_name-contains resource resources

reviewed :
    (list watch : Option Bool) (access : String → Option Bool)
    → access "list" ≡ list
    → access "watch" ≡ watch
    → is_available (phase_3 (can_list_watch access)) ≡ (is_allowed list && is_allowed watch)
unfolding can_list_watch can_list_watch_loop
reviewed none watch access l w = rw l refl
reviewed (some false) watch access l w = rw l refl
reviewed (some true) none access l w = rw l (rw w refl)
reviewed (some true) (some true) access l w = rw l (rw w refl)
reviewed (some true) (some false) access l w = rw l (rw w refl)

-- CheckResource answers true exactly when the API group is listed, the resource is listed in the
-- version of the group, and the reviews allow both to list and to watch it; whatever fails or is
-- missing, it does not answer true.
pub check_resource_lem :
    (groups resources : Option (List String)) (access : String → Option Bool)
    (group resource : String)
    → is_available (check_resource groups resources access group resource) ≡ (
        listed_in group groups
        && (listed_in resource resources
            && (is_allowed (access "list") && is_allowed (access "watch"))))
unfolding check_resource
check_resource_lem groups resources access group resource =
    let third = reviewed (access "list") (access "watch") access refl refl in
    let rest : is_available (
          if has_resource resources resource
          then phase_3 (can_list_watch access)
          else checked false)
        ≡ (listed_in resource resources
            && (is_allowed (access "list") && is_allowed (access "watch"))) =
      rw (listed_resource resources resource) (elim (Bool-cases (listed_in resource resources)) [
        | inl p ↦ rw p third
        | inr p ↦ rw p refl
      ]) in
    available_group groups group
      (if has_resource resources resource then phase_3 (can_list_watch access) else checked false)
    ∙ ap (λ b. listed_in group groups && b) rest

lookup-group_set :
    (k : String) (set : GoMap String Bool) (groups : List String)
    → lookup k (group_set set groups) ≡ (if contains k groups then some true else lookup k set)
unfolding group_set
lookup-group_set k set [] = refl
lookup-group_set k set (g ∷ groups) =
    lookup-group_set k (insert g true set) groups ∙ ground (arith, lookup-insert g k true set)

get_or-group_set :
    (k : String) (groups : List String) → get_or false k (group_set [] groups) ≡ contains k groups
unfolding get_or
get_or-group_set k groups =
    let e : lookup k (group_set [] groups) ≡ (if contains k groups then some true else none) =
      lookup-group_set k [] groups ∙ unfold lookup in refl in
    ground (arith, e)

abbrev flag : (Capabilities → Bool) → Option Capabilities → Bool
flag f none = false
flag f (some caps) = f caps

module _ {Q R : Type 0} (q : Quantities Q R) where
  -- Where the API groups can be listed, Detect finds metrics-server, the autoscaler of pods and
  -- Karpenter exactly when their group is listed.
  pub detect_groups :
      (c : Cluster Q) (groups : List String)
      → c.groups ≡ some groups
      → (caps : Capabilities) → detect q c ≡ some caps
      → (caps.metrics_server ≡ contains "metrics.k8s.io" groups)
        × (caps.vpa ≡ contains "autoscaling.k8s.io" groups)
        × (caps.karpenter ≡ contains "karpenter.sh" groups)
  unfolding detect
  detect_groups c groups g caps e =
      let same : some (capabilities q c groups) ≡ some caps = sym (ap (detected q c) g) ∙ e in
      (
        sym (ap (flag (λ x. x.metrics_server)) same) ∙ get_or-group_set "metrics.k8s.io" groups,
        sym (ap (flag (λ x. x.vpa)) same) ∙ get_or-group_set "autoscaling.k8s.io" groups,
        sym (ap (flag (λ x. x.karpenter)) same) ∙ get_or-group_set "karpenter.sh" groups,
      )
