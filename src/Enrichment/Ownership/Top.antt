-- ===== src/Enrichment/Ownership/Top.antt =====
-- The owner that a pod ends up with is the top of its chain.
use mathlib.Core.Path.{subst}
use kubeadapt_agent.Prelude.{
  ℕ, zero, suc, ◌≤◌, ◌<◌, ◌≡◌, ◌⊎◌, inl, inr, refl, sym, ap, ◌∙◌, Bool, true, false, Option, none,
  some, String, String_eq, arith, if◌then◌else◌, ◌==◌, ◌||◌, Option-cases, Bool-cases,
}
use kubeadapt_agent.GoMap.{GoMap, lookup}
use kubeadapt_agent.Model.Pod.{PodInfo}
use kubeadapt_agent.Model.Workload.{ReplicaSetInfo, JobInfo, CronJobInfo}
use kubeadapt_agent.Enrichment.Ownership.{
  Owner, OwnerMaps, of_replica_set, of_job, hop, walk, owner_of, resolve_owner, ns_name_key,
}
use kubeadapt_agent.Enrichment.Ownership.Owned.{OwnedBy, Reaches, IsOwner, hop-IsOwner, none_owned}

module _ {R : Type 0} (m : OwnerMaps R) (ns : String) where
  -- The walk follows the chain to its end, or for as many hops as it may make.
  walk-Reaches :
      (depth : ℕ) (o : Owner)
      → (n : ℕ) × Reaches m ns n o (walk m ns depth o)
        × (n ≤ depth)
        × (((p : Owner) → ¬ OwnedBy m ns (walk m ns depth o) p) ⊎ (n ≡ depth))
  unfolding walk
  walk-Reaches zero o = (0, Reaches.here, omega arith, inr refl)
  walk-Reaches (suc depth) o = elim (Option-cases (hop m ns o)) [
    | inl e ↦ rw (e, walk) (0, Reaches.here, omega arith, inl (none_owned m ns o e))
    | inr (o', e) ↦
        rw (e, walk)
          (let (n, r, le, end) = walk-Reaches depth o' in
            (
              suc n,
              Reaches.then (subst (IsOwner m ns o) e (hop-IsOwner m ns o)) r,
              omega arith,
              elim end [ inl t ↦ inl t | inr q ↦ inr (ap suc q) ],
            ))
  ]

  walk-top : (depth : ℕ) (o : Owner) → hop m ns o ≡ none → walk m ns depth o ≡ o
  unfolding walk
  walk-top zero o h = refl
  walk-top (suc depth) o h = rw (h, walk) refl

abbrev pub is_left : String → Bool
is_left kind = kind == "" || kind == "Node"

-- A pod with no owner, or owned by a Node, stays as it is. Every other pod gets the owner at the
-- end of a chain of at most ten steps, each from a ReplicaSet or a Job to its owner by the maps;
-- unless there are ten, that owner has no owner of its own. Nothing else of the pod changes.
pub resolve_owner_lem :
    {R : Type 0} (m : OwnerMaps R) (pod : PodInfo R)
    → ((is_left pod.owner_kind ≡ true) × (resolve_owner m pod ≡ pod))
      ⊎ ((is_left pod.owner_kind ≡ false)
          × (n : ℕ) × (o : Owner) × (resolve_owner m pod
              ≡ record pod { owner_kind = o.kind; owner_name = o.name; owner_uid = o.uid })
          × Reaches m pod.namespace n
              (record { kind = pod.owner_kind; name = pod.owner_name; uid = pod.owner_uid })
              o
          × (n ≤ 10)
          × (((p : Owner) → ¬ OwnedBy m pod.namespace o p) ⊎ (n ≡ 10)))
unfolding resolve_owner
resolve_owner_lem m pod = elim (Bool-cases (is_left pod.owner_kind)) [
  | inl h ↦ inl (h, rw h refl)
  | inr h ↦
      let (n, r, le, end) = walk-Reaches m pod.namespace 10 (owner_of pod) in
      inr (h, n, walk m pod.namespace 10 (owner_of pod), rw h refl, r, le, end)
]

-- No ReplicaSet is owned by a ReplicaSet.
abbrev pub IsFlat : {R : Type 0} → OwnerMaps R → Type 0
IsFlat m =
    (k : String) (rs : ReplicaSetInfo)
    → lookup k m.replica_sets ≡ some rs
    → (rs.owner_kind == "ReplicaSet") ≡ false

-- The hops that are left from an owner of a kind.
rank : String → ℕ
rank kind = if kind == "ReplicaSet" then 2 else if kind == "Job" then 1 else 0

of_replica_set-rank :
    (l : Option ReplicaSetInfo) (o' : Owner)
    → ((rs : ReplicaSetInfo) → l ≡ some rs → (rs.owner_kind == "ReplicaSet") ≡ false)
    → of_replica_set l ≡ some o'
    → rank o'.kind < 2
unfolding of_replica_set rank
of_replica_set-rank none o' h e = cc
of_replica_set-rank (some rs) o' h e = ground (arith, h rs refl)

abbrev rank_of : Option Owner → ℕ
rank_of none = 0
rank_of (some o) = rank o.kind

rank_of-of_job :
    {R : Type 0} (cj : GoMap String (CronJobInfo R)) (ns : String) (o : Owner)
    (l : Option (JobInfo R))
    → rank_of (of_job cj ns o l) ≡ 0
unfolding of_job rank
rank_of-of_job cj ns o none = refl
rank_of-of_job cj ns o (some j) = elim (Bool-cases (j.owner_cron_job == "")) [
  | inl p ↦ rw p refl
  | inr p ↦ rw p refl
]

of_job-rank :
    {R : Type 0} (cj : GoMap String (CronJobInfo R)) (ns : String) (o : Owner)
    (l : Option (JobInfo R)) (o' : Owner)
    → of_job cj ns o l ≡ some o'
    → rank o'.kind ≡ 0
of_job-rank cj ns o l o' e = sym (ap rank_of e) ∙ rank_of-of_job cj ns o l

hop-rank :
    {R : Type 0} (m : OwnerMaps R) (ns : String) (o o' : Owner)
    → IsFlat m
    → hop m ns o ≡ some o'
    → rank o'.kind < rank o.kind
unfolding hop rank
hop-rank m ns o o' flat e = ground (
  arith,
  of_replica_set-rank (lookup (ns_name_key ns o.name) m.replica_sets) o'
      (flat (ns_name_key ns o.name)),
  of_job-rank m.cron_jobs ns o (lookup (ns_name_key ns o.name) m.jobs) o',
)

walk-rank :
    {R : Type 0} (m : OwnerMaps R) (ns : String) (depth : ℕ) (o : Owner)
    → IsFlat m
    → rank o.kind ≤ depth
    → hop m ns (walk m ns depth o) ≡ none
unfolding walk
walk-rank m ns zero o flat h = elim (Option-cases (hop m ns o)) [
  | inl e ↦ e
  | inr (o', e) ↦ ground (arith, hop-rank m ns o o' flat e)
]
walk-rank m ns (suc depth) o flat h = elim (Option-cases (hop m ns o)) [
  | inl e ↦ rw (e, walk) e
  | inr (o', e) ↦
      rw (e, walk) (walk-rank m ns depth o' flat (ground (arith, hop-rank m ns o o' flat e)))
]

-- If no ReplicaSet is owned by a ReplicaSet, the owner that a pod ends up with, whose first owner
-- is not a Node, has no owner of its own, and resolving it once more changes nothing.
pub resolve_owner-top :
    {R : Type 0} (m : OwnerMaps R) (pod : PodInfo R)
    → IsFlat m
    → is_left pod.owner_kind ≡ false
    → (hop m pod.namespace (owner_of (resolve_owner m pod)) ≡ none)
      × (resolve_owner m (resolve_owner m pod) ≡ resolve_owner m pod)
unfolding resolve_owner rank
resolve_owner-top m pod flat owned =
    let o = walk m pod.namespace 10 (owner_of pod) in
    let top : hop m pod.namespace o ≡ none =
      walk-rank m pod.namespace 10 (owner_of pod) flat (ground arith) in
    rw owned (
      top,
      elim (Bool-cases (is_left o.kind)) [
        | inl p ↦ rw p refl
        | inr p ↦ rw (p, walk-top m pod.namespace 10 o top) refl
      ],
    )
