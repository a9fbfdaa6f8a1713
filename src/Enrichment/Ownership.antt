-- ===== src/Enrichment/Ownership.antt =====
-- internal/enrichment/ownership.go: a pod's owner is replaced by the top of its ownership chain.
pub mod Owned
pub mod Top
use Prim.Native.String.{◌++◌ as append}
use kubeadapt_agent.Prelude.{
  ℕ, zero, suc, ◌≡◌, Bool, true, false, Option, none, some, List, [], ◌∷◌, String, String_eq, map,
  if◌then◌else◌, ◌==◌, ◌||◌,
}
use kubeadapt_agent.GoMap.{GoMap, lookup}
use kubeadapt_agent.GoMap.Index.{index_from}
use kubeadapt_agent.Model.Pod.{PodInfo}
use kubeadapt_agent.Model.Workload.{ReplicaSetInfo, JobInfo, CronJobInfo}
use kubeadapt_agent.Model.Cluster.{ClusterSnapshot}

abbrev pub max_owner_depth : ℕ
max_owner_depth = 10

-- "%s/%s"
unfoldable pub ns_name_key : String → String → String
ns_name_key ns name = append ns (append "/" name)

unfoldable pub build_replica_set_map : List ReplicaSetInfo → GoMap String ReplicaSetInfo
build_replica_set_map = index_from (λ rs. ns_name_key rs.namespace rs.name) []

unfoldable pub build_job_map : {R : Type 0} → List (JobInfo R) → GoMap String (JobInfo R)
build_job_map = index_from (λ j. ns_name_key j.namespace j.name) []

unfoldable pub build_cron_job_map :
    {R : Type 0} → List (CronJobInfo R) → GoMap String (CronJobInfo R)
build_cron_job_map = index_from (λ cj. ns_name_key cj.namespace cj.name) []

-- The loop's variables.
pub record Owner : Type 0 where
  pub kind : String
  pub name : String
  pub uid : String

-- The three maps.
pub record OwnerMaps (R : Type 0) : Type 0 where
  pub replica_sets : GoMap String ReplicaSetInfo
  pub jobs : GoMap String (JobInfo R)
  pub cron_jobs : GoMap String (CronJobInfo R)

cron_uid : {R : Type 0} → Option (CronJobInfo R) → String → String
cron_uid none uid = uid
cron_uid (some cj) uid = cj.uid

of_replica_set : Option ReplicaSetInfo → Option Owner
of_replica_set none = none
of_replica_set (some rs) =
    if rs.owner_kind == ""
    then none
    else some (record { kind = rs.owner_kind; name = rs.owner_name; uid = rs.owner_uid })

of_job :
    {R : Type 0} → GoMap String (CronJobInfo R) → String → Owner → Option (JobInfo R) → Option Owner
unfolding cron_uid
of_job cron_jobs ns o none = none
of_job cron_jobs ns o (some job) =
    if job.owner_cron_job == ""
    then none
    else some (record {
      kind = "CronJob";
      name = job.owner_cron_job;
      uid = cron_uid (lookup (ns_name_key ns job.owner_cron_job) cron_jobs) o.uid;
    })

-- One hop; `none` where the body of the loop leaves `resolved` false.
unfoldable pub hop : {R : Type 0} → OwnerMaps R → String → Owner → Option Owner
unfolding of_replica_set of_job
hop m ns o =
    if o.kind == "ReplicaSet"
    then of_replica_set (lookup (ns_name_key ns o.name) m.replica_sets)
    else if o.kind == "Job"
    then of_job m.cron_jobs ns o (lookup (ns_name_key ns o.name) m.jobs)
    else none

unfoldable pub walk : {R : Type 0} → OwnerMaps R → String → ℕ → Owner → Owner
walk m ns zero o = o
walk m ns (suc depth) o = elim (hop m ns o) [ none ↦ o | some o' ↦ walk m ns depth o' ]

abbrev pub owner_of : {R : Type 0} → PodInfo R → Owner
owner_of pod = record { kind = pod.owner_kind; name = pod.owner_name; uid = pod.owner_uid }

abbrev pub with_owner : {R : Type 0} → PodInfo R → Owner → PodInfo R
with_owner pod o = record pod { owner_kind = o.kind; owner_name = o.name; owner_uid = o.uid }

unfoldable pub resolve_owner : {R : Type 0} → OwnerMaps R → PodInfo R → PodInfo R
resolve_owner m pod =
    if pod.owner_kind == "" || pod.owner_kind == "Node"
    then pod
    else with_owner pod (walk m pod.namespace max_owner_depth (owner_of pod))

abbrev pub maps_of : {R : Type 0} → List ReplicaSetInfo → ClusterSnapshot R → OwnerMaps R
maps_of replica_sets s = record {
  replica_sets = build_replica_set_map replica_sets;
  jobs = build_job_map s.jobs;
  cron_jobs = build_cron_job_map s.cron_jobs;
}

unfoldable pub enrich_ownership :
    {R : Type 0} → List ReplicaSetInfo → ClusterSnapshot R → ClusterSnapshot R
enrich_ownership replica_sets s = record s {
  pods = map (resolve_owner (maps_of replica_sets s)) s.pods;
}
