-- ===== src/Informers.antt =====
-- internal/collector/resource: the handlers by which a collector keeps its store up to date with
-- the informer of its resource, the same in all files but for the resource, and runner.go, which
-- runs the informer. The informer is client-go's: its calls of the handlers come as a list of
-- events, and what it hands over is a value of `Notified`.
pub mod Mirror
pub mod Gauges
pub mod Recovery
pub mod Resources
pub mod Keyed
use kubeadapt_agent.Prelude.{
  ℕ, zero, suc, ◌+◌, ◌*◌, Bool, true, false, List, [], ◌∷◌, ◌++◌, String, if◌then◌else◌, ltb,
  nat_eq,
}
use kubeadapt_agent.TypedStore.{TypedStore, set, delete_key, len}

-- An object of the watched type, a DeletedFinalStateUnknown with what it holds, or anything else.
pub data Notified (O : Type 0) : Type 0 where
  object : O → Notified O
  tombstone : Notified O → Notified O
  foreign : Notified O

-- A call on the Prometheus metrics: InformerEventsTotal of a resource and an event, and StoreItems
-- of a resource.
pub data MetricCall : Type 0 where
  inc_event : (resource event : String) → MetricCall
  set_items : (resource : String) (items : ℕ) → MetricCall

-- What the handlers of a resource have of their own.
pub record Watch (O V : Type 0) : Type 0 where
  pub resource : String
  pub to_model : O → V
  pub info_key : V → String
  pub object_key : O → String

-- The store that a collector writes, and the calls on the metrics in order.
pub record Collected (V : Type 0) : Type 0 where
  pub store : TypedStore V
  pub calls : List MetricCall

-- A call of a handler, with the instant that Set or Delete reads.
pub data Event (O : Type 0) : Type 0 where
  added : (now : ℕ) → Notified O → Event O
  updated : (now : ℕ) → (old_obj new_obj : Notified O) → Event O
  deleted : (now : ℕ) → Notified O → Event O

-- The two calls on the metrics after a write.
abbrev pub metric_calls : {O V : Type 0} → Watch O V → String → TypedStore V → List MetricCall
metric_calls w event s = inc_event w.resource event ∷ set_items w.resource (len s) ∷ []

module _ {O V : Type 0} (w : Watch O V) where
  -- The body of AddFunc and UpdateFunc after the type assertion.
  unfoldable pub put : String → ℕ → O → Collected V → Collected V
  put event now o c =
      let info = w.to_model o in
      let s = set now (w.info_key info) info c.store in
      record { store = s; calls = c.calls ++ metric_calls w event s }

  -- The end of DeleteFunc.
  unfoldable pub remove : ℕ → O → Collected V → Collected V
  remove now o c =
      let s = delete_key now (w.object_key o) c.store in
      record { store = s; calls = c.calls ++ metric_calls w "delete" s }

  unfoldable pub add_func : ℕ → Notified O → Collected V → Collected V
  add_func now (object o) c = put "add" now o c
  add_func now (tombstone obj) c = c
  add_func now foreign c = c

  unfoldable pub update_func : ℕ → Notified O → Notified O → Collected V → Collected V
  update_func now old_obj (object o) c = put "update" now o c
  update_func now old_obj (tombstone obj) c = c
  update_func now old_obj foreign c = c

  unfoldable pub delete_func : ℕ → Notified O → Collected V → Collected V
  delete_func now (object o) c = remove now o c
  delete_func now (tombstone (object o)) c = remove now o c
  delete_func now (tombstone (tombstone obj)) c = c
  delete_func now (tombstone foreign) c = c
  delete_func now foreign c = c

  unfoldable pub handle : Event O → Collected V → Collected V
  handle (added now obj) c = add_func now obj c
  handle (updated now old_obj new_obj) c = update_func now old_obj new_obj c
  handle (deleted now obj) c = delete_func now obj c

  unfoldable pub handle_all : List (Event O) → Collected V → Collected V
  handle_all [] c = c
  handle_all (e ∷ es) c = handle_all es (handle e c)

-- What runInformerWithRecovery does.
pub data RunnerStep : Type 0 where
  sleep : (seconds : ℕ) → RunnerStep
  run_informer : RunnerStep
  give_up : RunnerStep
  close_done : RunnerStep

abbrev pub informer_max_retries : ℕ
informer_max_retries = 3

-- The loop from `attempt` on; `stopped i` says whether stopCh is closed when the i-th Run returns.
unfoldable pub attempts : ℕ → ℕ → (ℕ → Bool) → List RunnerStep
attempts zero attempt stopped = []
attempts (suc fuel) attempt stopped =
    let again = attempts fuel (attempt + 1) stopped in
    let ended = if stopped attempt then close_done ∷ [] else again in
    if ltb informer_max_retries attempt
    then give_up ∷ close_done ∷ []
    else if nat_eq attempt 0
    then run_informer ∷ ended
    else sleep (attempt * 5) ∷ run_informer ∷ ended

unfoldable pub run_informer_with_recovery : (ℕ → Bool) → List RunnerStep
run_informer_with_recovery = attempts (informer_max_retries + 2) 0
