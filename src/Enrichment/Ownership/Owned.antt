-- ===== src/Enrichment/Ownership/Owned.antt =====
-- When one object is owned by another, by the maps, and that a hop leads to the owner.
use Prim.Native.String.{◌++◌ as append}
use kubeadapt_agent.Prelude.{
  ℕ, zero, suc, ◌≡◌, inl, inr, refl, false, Option, none, some, String, String_eq, ◌==◌, Bool-cases,
}
use kubeadapt_agent.GoMap.{lookup}
use kubeadapt_agent.Model.Workload.{ReplicaSetInfo, JobInfo, CronJobInfo}
use kubeadapt_agent.Enrichment.Ownership.{
  Owner, OwnerMaps, cron_uid, of_replica_set, of_job, hop, ns_name_key,
}

module _ {R : Type 0} (m : OwnerMaps R) (ns : String) where
  -- The key of a namespaced name.
  abbrev pub named : String → String
  named name = append ns (append "/" name)

  -- One object is owned by another: a ReplicaSet by what its controller reference names, a Job by
  -- its CronJob, with the UID of that one if it is known, and the UID that was there if not.
  pub data OwnedBy : Owner → Owner → Type 0 where
    of_set :
        {o : Owner} (rs : ReplicaSetInfo)
        → o.kind ≡ "ReplicaSet"
        → lookup (named o.name) m.replica_sets ≡ some rs
        → (rs.owner_kind == "") ≡ false
        → OwnedBy o (record { kind = rs.owner_kind; name = rs.owner_name; uid = rs.owner_uid })
    of_known :
        {o : Owner} (job : JobInfo R) (cj : CronJobInfo R)
        → o.kind ≡ "Job"
        → lookup (named o.name) m.jobs ≡ some job
        → (job.owner_cron_job == "") ≡ false
        → lookup (named job.owner_cron_job) m.cron_jobs ≡ some cj
        → OwnedBy o (record { kind = "CronJob"; name = job.owner_cron_job; uid = cj.uid })
    of_unknown :
        {o : Owner} (job : JobInfo R)
        → o.kind ≡ "Job"
        → lookup (named o.name) m.jobs ≡ some job
        → (job.owner_cron_job == "") ≡ false
        → lookup (named job.owner_cron_job) m.cron_jobs ≡ none
        → OwnedBy o (record { kind = "CronJob"; name = job.owner_cron_job; uid = o.uid })

  -- `n` steps lead from one owner to another.
  pub data Reaches : ℕ → Owner → Owner → Type 0 where
    here : {o : Owner} → Reaches zero o o
    then : {n : ℕ} {o o' p : Owner} → OwnedBy o o' → Reaches n o' p → Reaches (suc n) o p

module _ {R : Type 0} (m : OwnerMaps R) (ns : String) where
  -- Whatever a hop leads to is the owner.
  abbrev pub IsOwner : Owner → Option Owner → Type 0
  IsOwner o none = Unit
  IsOwner o (some p) = OwnedBy m ns o p

  of_replica_set-IsOwner :
      (o : Owner) (l : Option ReplicaSetInfo)
      → o.kind ≡ "ReplicaSet"
      → lookup (named m ns o.name) m.replica_sets ≡ l
      → IsOwner o (of_replica_set l)
  unfolding of_replica_set
  of_replica_set-IsOwner o none k e = tt
  of_replica_set-IsOwner o (some rs) k e = elim (Bool-cases (rs.owner_kind == "")) [
    | inl q ↦ rw q tt
    | inr q ↦ rw q (OwnedBy.of_set rs k e q)
  ]

  cron_uid-IsOwner :
      (o : Owner) (job : JobInfo R) (l : Option (CronJobInfo R))
      → o.kind ≡ "Job"
      → lookup (named m ns o.name) m.jobs ≡ some job
      → (job.owner_cron_job == "") ≡ false
      → lookup (named m ns job.owner_cron_job) m.cron_jobs ≡ l
      → IsOwner o
          (some (record { kind = "CronJob"; name = job.owner_cron_job; uid = cron_uid l o.uid }))
  unfolding cron_uid
  cron_uid-IsOwner o job none k e q c = OwnedBy.of_unknown job k e q c
  cron_uid-IsOwner o job (some cj) k e q c = OwnedBy.of_known job cj k e q c

  of_job-IsOwner :
      (o : Owner) (l : Option (JobInfo R))
      → o.kind ≡ "Job"
      → lookup (named m ns o.name) m.jobs ≡ l
      → IsOwner o (of_job m.cron_jobs ns o l)
  unfolding of_job ns_name_key
  of_job-IsOwner o none k e = tt
  of_job-IsOwner o (some job) k e = elim (Bool-cases (job.owner_cron_job == "")) [
    | inl q ↦ rw q tt
    | inr q ↦
        rw q
          (cron_uid-IsOwner o job (lookup (named m ns job.owner_cron_job) m.cron_jobs) k e q refl)
  ]

  pub hop-IsOwner : (o : Owner) → IsOwner o (hop m ns o)
  unfolding hop ns_name_key
  hop-IsOwner o = elim (Bool-cases (o.kind == "ReplicaSet")) [
    | inl r ↦ rw r (
        of_replica_set-IsOwner o (lookup (named m ns o.name) m.replica_sets)
          ((String_eq.equal_iff o.kind "ReplicaSet").0 r) refl)
    | inr r ↦ rw r (elim (Bool-cases (o.kind == "Job")) [
      | inl j ↦ rw j (
          of_job-IsOwner o (lookup (named m ns o.name) m.jobs)
            ((String_eq.equal_iff o.kind "Job").0 j) refl)
      | inr j ↦ rw j tt
    ])
  ]

  -- Whoever is owned has a hop to the owner.
  hop-OwnedBy : (o p : Owner) → OwnedBy m ns o p → hop m ns o ≡ some p
  unfolding hop of_replica_set of_job cron_uid ns_name_key
  hop-OwnedBy o p (OwnedBy.of_set rs k e q) = rw k (rw e (rw q refl))
  hop-OwnedBy o p (OwnedBy.of_known job cj k e q c) = rw k (rw e (rw q (rw c refl)))
  hop-OwnedBy o p (OwnedBy.of_unknown job k e q c) = rw k (rw e (rw q (rw c refl)))

  pub none_owned : (o : Owner) → hop m ns o ≡ none → (p : Owner) → ¬ OwnedBy m ns o p
  none_owned o e p owned = let c = hop-OwnedBy o p owned in cc
