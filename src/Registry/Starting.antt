-- ===== src/Registry/Starting.antt =====
-- What StartAll returns, whatever the order in which the collectors answer.
use mathlib.Core.List.{Perm, Permᴰ}
use mathlib.Core.Logic.{∥∥₁_elim}
use native.Mathlib.Nat.{ℕ_set}
use kubeadapt_agent.Prelude.{
  ℕ, ◌+◌, ◌<◌, ◌≡◌, refl, ap, ◌∙◌, Bool, true, false, Option, none, some, List, [], ◌∷◌, String,
  if◌then◌else◌, arith, length, length-append, keep, length-keep, is_empty, nat_eq,
}
use kubeadapt_agent.Registry.{
  Collector, Registry, StartError, partial_start, all_failed, note_failure, failed_names, start_all,
}

abbrev pub fails : Collector → Bool
fails c = elim c.start_error [ none ↦ false | some e ↦ true ]

-- How many collectors fail to start.
abbrev pub failures : List Collector → ℕ
failures cs = length (keep fails cs)

is_empty_lem : (cs : List Collector) → is_empty cs ≡ true → length cs ≡ 0
is_empty_lem cs h = ground arith

nonempty_lem : (cs : List Collector) → is_empty cs ≡ false → 0 < length cs
nonempty_lem cs h = ground arith

length-failed_names :
    (names : List String) (cs : List Collector)
    → length (failed_names names cs) ≡ length names + failures cs
unfolding failed_names
length-failed_names names [] = omega arith
length-failed_names names (c ∷ cs) = ground (
  arith,
  length-failed_names (note_failure c.start_error c.name names) cs,
  length-append names (c.name ∷ []),
)

length-Permᴰ : {xs ys : List Collector} → Permᴰ xs ys → failures xs ≡ failures ys
length-Permᴰ Permᴰ.nil = refl
length-Permᴰ (Permᴰ.cons e p) = ground (arith, length-Permᴰ p, ap fails e)
length-Permᴰ (Permᴰ.swap e f) = ground (arith, ap fails e, ap fails f)
length-Permᴰ (Permᴰ.trans p q) = length-Permᴰ p ∙ length-Permᴰ q

failures-Perm : {xs ys : List Collector} → Perm xs ys → failures xs ≡ failures ys
failures-Perm p = ∥∥₁_elim p (ℕ_set _ _) length-Permᴰ

abbrev pub error_kind : Option StartError → Option Bool
error_kind none = none
error_kind (some (partial_start names total)) = some false
error_kind (some (all_failed n)) = some true

-- In whatever order the collectors answer, StartAll marks the registry as started, and returns no
-- error if none fails, a PartialStartError if some but not all fail, and the error of a total
-- failure if there are collectors and all fail.
pub start_all_lem :
    (arrivals : List Collector) (r : Registry)
    → Perm arrivals r.collectors
    → ((start_all arrivals r).0 ≡ record r { started = true })
      × (error_kind (start_all arrivals r).1 ≡ (
          if nat_eq (failures r.collectors) 0
          then none
          else if nat_eq (failures r.collectors) (length r.collectors)
          then some true
          else some false))
unfolding start_all
start_all_lem arrivals r p = (
  refl,
  ground (
    arith,
    length-failed_names [] arrivals,
    failures-Perm p,
    length-keep fails r.collectors,
    is_empty_lem r.collectors,
    nonempty_lem r.collectors,
  ),
)

-- After a total failure there are collectors, and all fail.
pub total_failure :
    (arrivals : List Collector) (r : Registry)
    → Perm arrivals r.collectors
    → error_kind (start_all arrivals r).1 ≡ some true
    → (0 < length r.collectors) × (failures r.collectors ≡ length r.collectors)
total_failure arrivals r p e = ground (arith, (start_all_lem arrivals r p).1)
