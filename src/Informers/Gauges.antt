-- ===== src/Informers/Gauges.antt =====
-- The metrics that a collector reports of its store and of its events.
use kubeadapt_agent.Prelude.{
  ℕ, ◌+◌, ◌≡◌, refl, ◌∙◌, List, [], ◌∷◌, ◌++◌, String, String_eq, arith, ==_refl, if◌then◌else◌,
  ◌==◌, ◌&&◌,
}
use kubeadapt_agent.TypedStore.{TypedStore, new_typed_store, len, set, delete_key}
use kubeadapt_agent.Informers.{
  Notified, object, tombstone, foreign, MetricCall, inc_event, set_items, metric_calls, Watch,
  Collected, Event, added, updated, deleted, put, remove, add_func, update_func, delete_func,
  handle, handle_all,
}

-- What StoreItems of a resource shows after the calls, if it showed `shown` before them.
abbrev pub gauge : String → ℕ → List MetricCall → ℕ
gauge resource shown [] = shown
gauge resource shown (inc_event r event ∷ calls) = gauge resource shown calls
gauge resource shown (set_items r items ∷ calls) =
    gauge resource (if r == resource then items else shown) calls

-- How often InformerEventsTotal of a resource and an event has been increased.
abbrev pub counter : String → String → List MetricCall → ℕ
counter resource event [] = 0
counter resource event (inc_event r e ∷ calls) =
    (if (r == resource) && (e == event) then 1 else 0) + counter resource event calls
counter resource event (set_items r items ∷ calls) = counter resource event calls

gauge-append :
    (resource : String) (shown : ℕ) (xs ys : List MetricCall)
    → gauge resource shown (xs ++ ys) ≡ gauge resource (gauge resource shown xs) ys
gauge-append resource shown [] ys = refl
gauge-append resource shown (inc_event r event ∷ xs) ys = gauge-append resource shown xs ys
gauge-append resource shown (set_items r items ∷ xs) ys =
    gauge-append resource (if r == resource then items else shown) xs ys

counter-append :
    (resource event : String) (xs ys : List MetricCall)
    → counter resource event (xs ++ ys) ≡ counter resource event xs + counter resource event ys
counter-append resource event [] ys = omega arith
counter-append resource event (inc_event r e ∷ xs) ys =
    ground (arith, counter-append resource event xs ys)
counter-append resource event (set_items r items ∷ xs) ys = counter-append resource event xs ys

module _ {O : Type 0} where
  -- One if the event is one that its handler counts as `event`.
  abbrev pub tally_object : String → String → Notified O → ℕ
  tally_object event name (object o) = if name == event then 1 else 0
  tally_object event name (tombstone obj) = 0
  tally_object event name foreign = 0

  abbrev pub tally_deleted : String → Notified O → ℕ
  tally_deleted event (object o) = if "delete" == event then 1 else 0
  tally_deleted event (tombstone obj) = tally_object event "delete" obj
  tally_deleted event foreign = 0

  abbrev pub tally_one : String → Event O → ℕ
  tally_one event (added now obj) = tally_object event "add" obj
  tally_one event (updated now old_obj new_obj) = tally_object event "update" new_obj
  tally_one event (deleted now obj) = tally_deleted event obj

  abbrev pub tally : String → List (Event O) → ℕ
  tally event [] = 0
  tally event (e ∷ es) = tally_one event e + tally event es

module _ {O V : Type 0} (w : Watch O V) (event : String) where
  metrics-write :
      (name : String) (calls : List MetricCall) (s : TypedStore V)
      → (gauge w.resource 0 (calls ++ metric_calls w name s) ≡ len s)
        × (counter w.resource event (calls ++ metric_calls w name s)
            ≡ counter w.resource event calls + (if name == event then 1 else 0))
  metrics-write name calls s = (
    gauge-append w.resource 0 calls (metric_calls w name s) ∙ rw (==_refl w.resource) refl,
    counter-append w.resource event calls (metric_calls w name s)
        ∙ rw (==_refl w.resource) (ground arith),
  )

  -- The gauge shows the size of the store, and `n` more events have been counted than at `c`.
  abbrev Follows : Collected V → ℕ → Collected V → Type 0
  Follows c n d =
      (gauge w.resource 0 d.calls ≡ len d.store)
      × (counter w.resource event d.calls ≡ counter w.resource event c.calls + n)

  unmoved : (c : Collected V) → gauge w.resource 0 c.calls ≡ len c.store → Follows c 0 c
  unmoved c h = (h, omega arith)

  put-Follows :
      (name : String) (now : ℕ) (o : O) (c : Collected V)
      → Follows c (if name == event then 1 else 0) (put w name now o c)
  unfolding put
  put-Follows name now o c =
      metrics-write name c.calls (set now (w.info_key (w.to_model o)) (w.to_model o) c.store)

  remove-Follows :
      (now : ℕ) (o : O) (c : Collected V)
      → Follows c (if "delete" == event then 1 else 0) (remove w now o c)
  unfolding remove
  remove-Follows now o c = metrics-write "delete" c.calls (delete_key now (w.object_key o) c.store)

  handle-Follows :
      (e : Event O) (c : Collected V)
      → gauge w.resource 0 c.calls ≡ len c.store
      → Follows c (tally_one event e) (handle w e c)
  unfolding handle add_func update_func delete_func
  handle-Follows (added now (object o)) c h = put-Follows "add" now o c
  handle-Follows (added now (tombstone obj)) c h = unmoved c h
  handle-Follows (added now foreign) c h = unmoved c h
  handle-Follows (updated now old_obj (object o)) c h = put-Follows "update" now o c
  handle-Follows (updated now old_obj (tombstone obj)) c h = unmoved c h
  handle-Follows (updated now old_obj foreign) c h = unmoved c h
  handle-Follows (deleted now (object o)) c h = remove-Follows now o c
  handle-Follows (deleted now (tombstone (object o))) c h = remove-Follows now o c
  handle-Follows (deleted now (tombstone (tombstone obj))) c h = unmoved c h
  handle-Follows (deleted now (tombstone foreign)) c h = unmoved c h
  handle-Follows (deleted now foreign) c h = unmoved c h

  handle_all-Follows :
      (es : List (Event O)) (c : Collected V)
      → gauge w.resource 0 c.calls ≡ len c.store
      → Follows c (tally event es) (handle_all w es c)
  unfolding handle_all
  handle_all-Follows [] c h = unmoved c h
  handle_all-Follows (e ∷ es) c h =
      let step = handle-Follows e c h in
      let rest = handle_all-Follows es (handle w e c) step.0 in
      (rest.0, omega (arith, rest.1, step.1))

  -- After any events from an empty store, StoreItems of the resource shows how many items the store
  -- has, and InformerEventsTotal counts for each kind of event those that brought an object of the
  -- watched type, in a tombstone too for a deletion, and no others.
  pub handle_all_metrics :
      (es : List (Event O)) (now : ℕ)
      → let c = handle_all w es (record { store = new_typed_store now; calls = [] }) in
        (gauge w.resource 0 c.calls ≡ len c.store)
        × (counter w.resource event c.calls ≡ tally event es)
  handle_all_metrics es now =
      let follows =
        handle_all-Follows es (record { store = new_typed_store now; calls = [] })
          (unfold len in unfold new_typed_store in refl) in
      (follows.0, omega (arith, follows.1))
