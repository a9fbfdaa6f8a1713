-- ===== src/Informers/Keyed.antt =====
-- The keys of a store that handlers fill are the keys of its values, up to a built snapshot.
use kubeadapt_agent.Prelude.{
  ℕ, ◌≡◌, refl, ap, ◌∙◌, Bool, true, false, Option, none, some, List, [], ◌∷◌, String, String_eq,
  arith, if◌then◌else◌, ◌==◌, contains, map,
}
use kubeadapt_agent.GoMap.{GoMap, lookup, insert, delete, values}
use kubeadapt_agent.TypedStore.{TypedStore, new_typed_store, set, delete_key, get, store_values}
use kubeadapt_agent.TypedStore.Refinement.{is_some}
use kubeadapt_agent.Model.{Float64}
use kubeadapt_agent.Model.Node.{NodeInfo}
use kubeadapt_agent.Convert.Api.{Quantities}
use kubeadapt_agent.Convert.Nodes.{Node, node_to_model}
use kubeadapt_agent.Snapshot.Backfill.Present.{node_names, names_node}
use kubeadapt_agent.Snapshot.Build.{SnapshotBuilder, BuildWorld, default_pipeline, build}
use kubeadapt_agent.Snapshot.Build.Whole.{build_nodes}
use kubeadapt_agent.Informers.{
  object, tombstone, foreign, Watch, Collected, Event, added, updated, deleted, put, remove,
  add_func, update_func, delete_func, handle, handle_all,
}
use kubeadapt_agent.Informers.Mirror.{KeepsKey, observe_all, in_model, mirror}
use kubeadapt_agent.Informers.Resources.{nodes_watch}

module _ {O V : Type 0} (w : Watch O V) where
  abbrev Keyed : GoMap String V → Type 0
  Keyed [] = Unit
  Keyed ((k, v) ∷ m) = (w.info_key v ≡ k) × Keyed m

  insert-Keyed :
      (k : String) (v : V) (m : GoMap String V) → w.info_key v ≡ k → Keyed m → Keyed (insert k v m)
  unfolding insert
  insert-Keyed k v [] e h = (e, tt)
  insert-Keyed k v ((j, x) ∷ m) e h =
      ground (arith, e, String_eq.equal_iff j k, insert-Keyed k v m e h.1)

  delete-Keyed : (k : String) (m : GoMap String V) → Keyed m → Keyed (delete k m)
  unfolding delete
  delete-Keyed k [] h = tt
  delete-Keyed k ((j, x) ∷ m) h = ground (arith, delete-Keyed k m h.1)

  put-Keyed :
      (event : String) (now : ℕ) (o : O) (c : Collected V)
      → Keyed c.store.items
      → Keyed (put w event now o c).store.items
  unfolding put set
  put-Keyed event now o c h =
      insert-Keyed (w.info_key (w.to_model o)) (w.to_model o) c.store.items refl h

  remove-Keyed :
      (now : ℕ) (o : O) (c : Collected V)
      → Keyed c.store.items
      → Keyed (remove w now o c).store.items
  unfolding remove delete_key
  remove-Keyed now o c h = delete-Keyed (w.object_key o) c.store.items h

  handle-Keyed :
      (e : Event O) (c : Collected V) → Keyed c.store.items → Keyed (handle w e c).store.items
  unfolding handle add_func update_func delete_func
  handle-Keyed (added now (object o)) c h = put-Keyed "add" now o c h
  handle-Keyed (added now (tombstone obj)) c h = h
  handle-Keyed (added now foreign) c h = h
  handle-Keyed (updated now old_obj (object o)) c h = put-Keyed "update" now o c h
  handle-Keyed (updated now old_obj (tombstone obj)) c h = h
  handle-Keyed (updated now old_obj foreign) c h = h
  handle-Keyed (deleted now (object o)) c h = remove-Keyed now o c h
  handle-Keyed (deleted now (tombstone (object o))) c h = remove-Keyed now o c h
  handle-Keyed (deleted now (tombstone (tombstone obj))) c h = h
  handle-Keyed (deleted now (tombstone foreign)) c h = h
  handle-Keyed (deleted now foreign) c h = h

  handle_all-Keyed :
      (es : List (Event O)) (c : Collected V)
      → Keyed c.store.items
      → Keyed (handle_all w es c).store.items
  unfolding handle_all
  handle_all-Keyed [] c h = h
  handle_all-Keyed (e ∷ es) c h = handle_all-Keyed es (handle w e c) (handle-Keyed e c h)

  contains-values :
      (k : String) (m : GoMap String V)
      → Keyed m
      → contains k (map w.info_key (values m)) ≡ is_some (lookup k m)
  unfolding values lookup is_some
  contains-values k [] h = refl
  contains-values k ((j, x) ∷ m) h = ground (arith, contains-values k m h.1)

  -- The keys of what Values returns, after any events from an empty store, are those that Get
  -- finds.
  pub contains-handled :
      (es : List (Event O)) (now : ℕ) (k : String)
      → let s = (handle_all w es (record { store = new_typed_store now; calls = [] })).store in
        contains k (map w.info_key (store_values s)) ≡ is_some (get k s)
  unfolding store_values get
  contains-handled es now k =
      let c = handle_all w es (record { store = new_typed_store now; calls = [] }) in
      contains-values k c.store.items (
        handle_all-Keyed es (record { store = new_typed_store now; calls = [] })
          (unfold new_typed_store in tt))

module _ {Q R : Type 0} (q : Quantities Q R) where
  -- The node store after the events that the informer of the nodes has delivered.
  abbrev pub node_store : List (Event (Node Q)) → ℕ → TypedStore (NodeInfo R)
  node_store es now =
      (handle_all (nodes_watch q) es (record { store = new_typed_store now; calls = [] })).store

  -- Whether the events say that the cluster has the node.
  abbrev pub in_cluster : List (Event (Node Q)) → String → Bool
  in_cluster es name = is_some (observe_all (nodes_watch q) es (λ k. none) name)

  is_some-in_model : (o : Option (Node Q)) → is_some (in_model (nodes_watch q) o) ≡ is_some o
  unfolding is_some
  is_some-in_model none = refl
  is_some-in_model (some n) = refl

  contains-node_store :
      (es : List (Event (Node Q))) (now : ℕ) (name : String)
      → contains name (node_names (store_values (node_store es now))) ≡ in_cluster es name
  contains-node_store es now name =
      let keys : contains name (node_names (store_values (node_store es now)))
          ≡ is_some (get name (node_store es now)) =
        unfold nodes_watch in contains-handled (nodes_watch q) es now name in
      let keeps : KeepsKey (nodes_watch q) =
        unfold nodes_watch in unfold node_to_model in λ o. refl in
      keys
      ∙ ap is_some (mirror (nodes_watch q) keeps es now name)
      ∙ is_some-in_model (observe_all (nodes_watch q) es (λ k. none) name)

module _ {Q R : Type 0} (fl : Float64 R) (q : Quantities Q R) where
  -- If the node store is what the node collector made of the events it was told of, some before the
  -- first read and some before the second, then with the pipeline of main: a node name is in the
  -- built snapshot exactly when the events before the first read say that the cluster has it, or
  -- when it is not empty, a pod that was read names it and the events before the second read say
  -- that the cluster has it.
  pub build_nodes-mirror :
      (before later : List (Event (Node Q))) (started : ℕ) (w : BuildWorld R)
      (b : SnapshotBuilder R) (name : String)
      → b.pipeline ≡ some (default_pipeline fl)
      → w.stores.nodes ≡ node_store q before started
      → w.nodes_later ≡ node_store q later started
      → contains name (node_names (build fl w b).nodes) ≡ (
          if in_cluster q before name
          then true
          else if name == ""
          then false
          else if names_node name (store_values w.stores.pods)
          then in_cluster q later name
          else false)
  build_nodes-mirror before later started w b name piped first second =
      let outcome = λ (read named again : Bool).
        if read then true else if name == "" then false else if named then again else false in
      let named = names_node name (store_values w.stores.pods) in
      let read =
        ap (λ (s : TypedStore (NodeInfo R)). contains name (node_names (store_values s))) first
        ∙ contains-node_store q before started name in
      let again =
        ap (λ (s : TypedStore (NodeInfo R)). contains name (node_names (store_values s))) second
        ∙ contains-node_store q later started name in
      build_nodes fl w b name piped
      ∙ ap (λ r. outcome r named (contains name (node_names (store_values w.nodes_later)))) read
      ∙ ap (outcome (in_cluster q before name) named) again
