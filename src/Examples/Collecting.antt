-- ===== src/Examples/Collecting.antt =====
-- The collectors' registry and the typed store at concrete inputs.
use mathlib.Core.List.{Permᴰ}
use kubeadapt_agent.Prelude.{
  ℕ, ◌≡◌, refl, true, false, none, some, List, [], ◌∷◌, String_eq, if◌then◌else◌, nat_eq, length,
}
use kubeadapt_agent.Registry.{start_all}
use kubeadapt_agent.Registry.Starting.{failures, error_kind, start_all_lem}
use kubeadapt_agent.TypedStore.{TypedStore, get}
use kubeadapt_agent.TypedStore.Refinement.{
  Call, set_call, delete_call, calls, spec_calls, get-calls,
}
use kubeadapt_agent.Examples.Data.{registry, collector}

abbrev pub store : TypedStore ℕ
store = record { items = ("a", 1) ∷ ("b", 2) ∷ []; last_updated = 0 }

abbrev pub some_calls : List (Call ℕ)
some_calls = set_call 1 "c" 3 ∷ delete_call 2 "a" ∷ set_call 3 "c" 4 ∷ []

start_all_example :
    let arrivals = collector "nodes" (some "forbidden") false ∷ collector "pods" none true ∷ [] in
    ((start_all arrivals registry).0 ≡ record registry { started = true })
    × (error_kind (start_all arrivals registry).1 ≡ (
        if nat_eq (failures registry.collectors) 0
        then none
        else if nat_eq (failures registry.collectors) (length registry.collectors)
        then some true
        else some false))
start_all_example =
    start_all_lem (collector "nodes" (some "forbidden") false ∷ collector "pods" none true ∷ [])
      registry ∣ Permᴰ.swap refl refl ∣₁

get-calls_example : (λ j. get j (calls some_calls store)) ≡ spec_calls some_calls (λ j. get j store)
get-calls_example = get-calls some_calls store
