-- ===== src/Examples/Building.antt =====
-- The enrichers at concrete inputs.
use kubeadapt_agent.Prelude.{
  ℕ, ◌%◌, ◌≤◌, ◌≡◌, ◌⊎◌, inl, inr, refl, sym, ap, ◌∙◌, true, false, Option, none, some, List, [],
  ◌∷◌, String, String_eq, if◌then◌else◌, ◌==◌, keep, Bool-cases,
}
use kubeadapt_agent.Prelude.Int.{pos, uint64_mod}
use kubeadapt_agent.GoMap.{lookup}
use kubeadapt_agent.Model.Autoscaling.{PdbInfo}
use kubeadapt_agent.Model.Workload.{ReplicaSetInfo, ServiceInfo}
use kubeadapt_agent.Enrichment.Ownership.{Owner, OwnerMaps, owner_of, resolve_owner}
use kubeadapt_agent.Enrichment.Ownership.Owned.{OwnedBy, Reaches}
use kubeadapt_agent.Enrichment.Ownership.Top.{is_left, IsFlat, resolve_owner_lem}
use kubeadapt_agent.Enrichment.Aggregation.{
  WorkloadKey, WorkloadKey_eq, pods_by_workload, aggregate_workload,
}
use kubeadapt_agent.Enrichment.Aggregation.Totals.{
  owns, over_pods, any_metrics, usage_bytes, aggregate_workload_lem,
}
use kubeadapt_agent.Enrichment.Targets.{WorkloadEntry, by_namespace, target_pdb, target_service}
use kubeadapt_agent.Enrichment.Targets.Matching.{references, selects, targets_lem}
use kubeadapt_agent.Examples.Data.{whole, web_pod, pods, web}

abbrev pub web_replica_set : ReplicaSetInfo
web_replica_set = record {
  name = "web-rs";
  namespace = "shop";
  replicas = pos 1;
  ready_replicas = pos 1;
  selector = [];
  labels = [];
  creation_timestamp = pos 0;
  owner_kind = "Deployment";
  owner_name = "web";
  owner_uid = "u9";
}

abbrev pub owners : OwnerMaps ℕ
owners = record { replica_sets = ("shop/web-rs", web_replica_set) ∷ []; jobs = []; cron_jobs = [] }

abbrev kind_of : Option ReplicaSetInfo → String
kind_of none = ""
kind_of (some rs) = rs.owner_kind

found_flat : (k : String) → (kind_of (lookup k owners.replica_sets) == "ReplicaSet") ≡ false
unfolding lookup
found_flat k = elim (Bool-cases ("shop/web-rs" == k)) [ inl p ↦ rw p refl | inr p ↦ rw p refl ]

owners-IsFlat : IsFlat owners
owners-IsFlat k rs e = ap (λ o. kind_of o == "ReplicaSet") (sym e) ∙ found_flat k

resolve_owner_example :
    ((is_left "ReplicaSet" ≡ true) × (resolve_owner owners web_pod ≡ web_pod))
    ⊎ ((is_left "ReplicaSet" ≡ false)
        × (n : ℕ) × (o : Owner) × (resolve_owner owners web_pod
            ≡ record web_pod { owner_kind = o.kind; owner_name = o.name; owner_uid = o.uid })
        × Reaches owners "shop" n (owner_of web_pod) o
        × (n ≤ 10)
        × (((p : Owner) → ¬ OwnedBy owners "shop" o p) ⊎ (n ≡ 10)))
resolve_owner_example = resolve_owner_lem owners web_pod

aggregate_workload_example :
    let key : WorkloadKey = record { namespace = "shop"; kind = "Deployment"; name = "web" } in
    let owned = keep (owns key) pods in
    let d = aggregate_workload whole (pods_by_workload [] pods) "Deployment" web in
    (d.total_memory_request ≡ over_pods (λ c. c.memory_request_bytes) owned % uint64_mod)
    × (d.total_memory_limit ≡ over_pods (λ c. c.memory_limit_bytes) owned % uint64_mod)
    × (d.total_memory_usage
        ≡ (if any_metrics owned then some (over_pods usage_bytes owned % uint64_mod) else none))
    × (d.name ≡ "web")
    × (d.namespace ≡ "shop")
    × (d.selector ≡ web.selector)
aggregate_workload_example = aggregate_workload_lem whole pods "Deployment" web

abbrev pub entries : List WorkloadEntry
entries =
    record { kind = "Deployment"; name = "web"; namespace = "shop"; selector = ("app", "web") ∷ [] }
    ∷ record { kind = "DaemonSet"; name = "log"; namespace = "sys"; selector = ("app", "web") ∷ [] }
    ∷ []

abbrev pub pdb : PdbInfo
pdb = record {
  name = "web";
  namespace = "shop";
  uid = "";
  match_labels = ("app", "web") ∷ [];
  match_expressions = [];
  target_workloads = [];
  min_available = "";
  max_unavailable = "";
  current_healthy = pos 1;
  desired_healthy = pos 1;
  disruptions_allowed = pos 0;
  expected_pods = pos 1;
  conditions = [];
  labels = [];
  annotations = [];
  creation_timestamp = pos 0;
}

abbrev pub service : ServiceInfo
service = record {
  name = "web";
  namespace = "shop";
  kind = "ClusterIP";
  cluster_ip = "";
  cluster_ips = [];
  external_ips = [];
  load_balancer = none;
  ports = [];
  selector = [];
  target_workloads = [];
  labels = [];
  annotations = [];
  creation_timestamp = pos 0;
  session_affinity = "";
}

targets_example :
    (target_pdb (by_namespace entries) pdb ≡ record pdb {
      target_workloads = references (keep (selects "shop" pdb.match_labels) entries);
    })
    × (target_service (by_namespace entries) service ≡ service)
targets_example = targets_lem entries pdb service
