-- ===== src/Convert/Jobs.antt =====
-- internal/convert/autoscaling.go: JobToModel, CronJobToModel and PDBToModel.
use kubeadapt_agent.Prelude.{
  Bool, false, Option, none, some, List, [], ◌∷◌, String, String_eq, map, if◌then◌else◌, ◌==◌,
}
use kubeadapt_agent.Prelude.Int.{ℤ, ◌-ℤ◌}
use kubeadapt_agent.GoMap.{GoMap}
use kubeadapt_agent.Model.{Float64}
use kubeadapt_agent.Model.Autoscaling.{PdbInfo, LabelSelectorRequirement}
use kubeadapt_agent.Model.Workload.{JobInfo, CronJobInfo}
use kubeadapt_agent.Convert.Api.{Quantities, ObjectMeta, OwnerReference, ContainerSpec, Condition}
use kubeadapt_agent.Convert.Annotations.{filter_annotations}
use kubeadapt_agent.Convert.Shared.{deref_or, convert_conditions, extract_container_specs}

pub record Job (Q : Type 0) : Type 0 where
  pub meta : ObjectMeta
  pub completions : Option ℤ
  pub parallelism : Option ℤ
  pub backoff_limit : Option ℤ
  pub active_deadline_seconds : Option ℤ
  pub ttl_seconds_after_finished : Option ℤ
  pub active : ℤ
  pub succeeded : ℤ
  pub failed : ℤ
  pub containers : List (ContainerSpec Q)
  -- in milliseconds, as UnixMilli gives them
  pub start_millis : Option ℤ
  pub completion_millis : Option ℤ
  pub conditions : List Condition

pub record CronJob (Q : Type 0) : Type 0 where
  pub meta : ObjectMeta
  pub schedule : String
  pub concurrency_policy : String
  pub suspend : Option Bool
  pub last_schedule_millis : Option ℤ
  pub last_successful_millis : Option ℤ
  -- the names of the references
  pub active : List String
  pub containers : List (ContainerSpec Q)

pub record MatchExpression : Type 0 where
  pub key : String
  pub operator : String
  pub values : List String

pub record LabelSelector : Type 0 where
  pub match_labels : GoMap String String
  pub match_expressions : List MatchExpression

pub record PodDisruptionBudget : Type 0 where
  pub meta : ObjectMeta
  pub selector : Option LabelSelector
  pub min_available : Option String
  pub max_unavailable : Option String
  pub current_healthy : ℤ
  pub desired_healthy : ℤ
  pub disruptions_allowed : ℤ
  pub expected_pods : ℤ
  pub conditions : List Condition

-- The loop over the owner references.
unfoldable pub owner_cron_job : List OwnerReference → String
owner_cron_job [] = ""
owner_cron_job (ref ∷ refs) = if ref.kind == "CronJob" then ref.name else owner_cron_job refs

-- float64(completion - start) / 1000.0, if both are set; `float_of` is the conversion of an int64.
-- The difference of two instants in milliseconds is far from the bounds of int64.
unfoldable pub duration_seconds :
    {R : Type 0} → Float64 R → (ℤ → R) → Option ℤ → Option ℤ → Option R
duration_seconds fl float_of (some start) (some completion) =
    some (fl.divide (float_of (completion -ℤ start)) (fl.of_int 1000))
duration_seconds fl float_of (some start) none = none
duration_seconds fl float_of none completion = none

abbrev pub label_selector_requirement : MatchExpression → LabelSelectorRequirement
label_selector_requirement expr = record {
  key = expr.key;
  operator = expr.operator;
  values = expr.values;
}

abbrev pub labels_of_selector : Option LabelSelector → GoMap String String
labels_of_selector none = []
labels_of_selector (some s) = s.match_labels

abbrev pub expressions_of_selector : Option LabelSelector → List LabelSelectorRequirement
expressions_of_selector none = []
expressions_of_selector (some s) = map label_selector_requirement s.match_expressions

unfoldable pub pdb_to_model : PodDisruptionBudget → PdbInfo
pdb_to_model pdb = record {
  name = pdb.meta.name;
  uid = pdb.meta.uid;
  namespace = pdb.meta.namespace;
  match_labels = labels_of_selector pdb.selector;
  match_expressions = expressions_of_selector pdb.selector;
  target_workloads = [];
  min_available = deref_or "" pdb.min_available;
  max_unavailable = deref_or "" pdb.max_unavailable;
  current_healthy = pdb.current_healthy;
  desired_healthy = pdb.desired_healthy;
  disruptions_allowed = pdb.disruptions_allowed;
  expected_pods = pdb.expected_pods;
  conditions = convert_conditions pdb.conditions;
  labels = pdb.meta.labels;
  annotations = filter_annotations pdb.meta.annotations;
  creation_timestamp = pdb.meta.creation_millis;
}

module _ {Q R : Type 0} (fl : Float64 R) (float_of : ℤ → R) (q : Quantities Q R) where
  open fl use {zero_float}

  unfoldable pub job_to_model : Job Q → JobInfo R
  job_to_model job = record {
    name = job.meta.name;
    uid = job.meta.uid;
    namespace = job.meta.namespace;
    owner_cron_job = owner_cron_job job.meta.owner_references;
    completions = job.completions;
    parallelism = job.parallelism;
    backoff_limit = job.backoff_limit;
    active_deadline_seconds = job.active_deadline_seconds;
    ttl_seconds_after_finished = job.ttl_seconds_after_finished;
    active = job.active;
    succeeded = job.succeeded;
    failed = job.failed;
    start_time = job.start_millis;
    completion_time = job.completion_millis;
    duration_seconds = duration_seconds fl float_of job.start_millis job.completion_millis;
    total_cpu_request = zero_float;
    total_memory_request = 0;
    total_cpu_usage = none;
    total_memory_usage = none;
    container_specs = extract_container_specs q job.containers;
    labels = job.meta.labels;
    annotations = filter_annotations job.meta.annotations;
    creation_timestamp = job.meta.creation_millis;
    conditions = convert_conditions job.conditions;
  }

module _ {Q R : Type 0} (q : Quantities Q R) where
  unfoldable pub cron_job_to_model : CronJob Q → CronJobInfo R
  cron_job_to_model cj = record {
    name = cj.meta.name;
    uid = cj.meta.uid;
    namespace = cj.meta.namespace;
    schedule = cj.schedule;
    suspend = deref_or false cj.suspend;
    concurrency_policy = cj.concurrency_policy;
    last_schedule_time = cj.last_schedule_millis;
    last_successful_time = cj.last_successful_millis;
    active_jobs = cj.active;
    container_specs = extract_container_specs q cj.containers;
    labels = cj.meta.labels;
    annotations = filter_annotations cj.meta.annotations;
    creation_timestamp = cj.meta.creation_millis;
  }
