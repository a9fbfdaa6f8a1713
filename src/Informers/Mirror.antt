-- ===== src/Informers/Mirror.antt =====
-- The store of a collector mirrors the objects of its resource.
use kubeadapt_agent.Prelude.{
  ℕ, ◌≡◌, refl, ◌∙◌, Option, none, some, List, [], ◌∷◌, String, String_eq, if◌then◌else◌, ◌==◌,
  Bool-cases, inl, inr,
}
use kubeadapt_agent.GoMap.{lookup-insert, lookup-delete, lookup}
use kubeadapt_agent.TypedStore.{new_typed_store, set, delete_key, get}
use kubeadapt_agent.Informers.{
  Notified, object, tombstone, foreign, Watch, Collected, Event, added, updated, deleted, put,
  remove, add_func, update_func, delete_func, handle, handle_all,
}

-- The objects that a view of the cluster has, by key.
abbrev pub View : Type 0 → Type 0
View O = String → Option O

module _ {O V : Type 0} (w : Watch O V) where
  abbrev pub with_object : O → View O → View O
  with_object o view k = if w.object_key o == k then some o else view k

  abbrev pub without_object : O → View O → View O
  without_object o view k = if w.object_key o == k then none else view k

  -- The object that a handler is told of, if there is one: only DeleteFunc looks into a tombstone.
  abbrev pub seen : Notified O → (O → View O → View O) → View O → View O
  seen (object o) change view = change o view
  seen (tombstone obj) change view = view
  seen foreign change view = view

  abbrev pub seen_deleted : Notified O → View O → View O
  seen_deleted (object o) view = without_object o view
  seen_deleted (tombstone obj) view = seen obj without_object view
  seen_deleted foreign view = view

  -- The specification: what an event says of the cluster.
  abbrev pub observe : Event O → View O → View O
  observe (added now obj) view = seen obj with_object view
  observe (updated now old_obj new_obj) view = seen new_obj with_object view
  observe (deleted now obj) view = seen_deleted obj view

  abbrev pub observe_all : List (Event O) → View O → View O
  observe_all [] view = view
  observe_all (e ∷ es) view = observe_all es (observe e view)

  abbrev pub in_model : Option O → Option V
  in_model none = none
  in_model (some o) = some (w.to_model o)

  -- The conversion leaves the key as it is.
  abbrev pub KeepsKey : Type 0
  KeepsKey = (o : O) → w.info_key (w.to_model o) ≡ w.object_key o

  abbrev Mirrors : Collected V → View O → Type 0
  Mirrors c view = (j : String) → get j c.store ≡ in_model (view j)

  put-Mirrors :
      KeepsKey
      → (event : String) (now : ℕ) (o : O) (c : Collected V) (view : View O) → Mirrors c view
      → Mirrors (put w event now o c) (with_object o view)
  unfolding put set get
  put-Mirrors keeps event now o c view h j =
      lookup-insert (w.info_key (w.to_model o)) j (w.to_model o) c.store.items
      ∙ rw (keeps o)
          (elim (Bool-cases (w.object_key o == j)) [ inl e ↦ rw e refl | inr e ↦ rw e (h j) ])

  remove-Mirrors :
      (now : ℕ) (o : O) (c : Collected V) (view : View O)
      → Mirrors c view
      → Mirrors (remove w now o c) (without_object o view)
  unfolding remove delete_key get
  remove-Mirrors now o c view h j =
      lookup-delete (w.object_key o) j c.store.items
      ∙ elim (Bool-cases (w.object_key o == j)) [ inl e ↦ rw e refl | inr e ↦ rw e (h j) ]

  handle-Mirrors :
      KeepsKey
      → (e : Event O) (c : Collected V) (view : View O) → Mirrors c view
      → Mirrors (handle w e c) (observe e view)
  unfolding handle add_func update_func delete_func
  handle-Mirrors keeps (added now (object o)) c view h = put-Mirrors keeps "add" now o c view h
  handle-Mirrors keeps (added now (tombstone obj)) c view h = h
  handle-Mirrors keeps (added now foreign) c view h = h
  handle-Mirrors keeps (updated now old_obj (object o)) c view h =
      put-Mirrors keeps "update" now o c view h
  handle-Mirrors keeps (updated now old_obj (tombstone obj)) c view h = h
  handle-Mirrors keeps (updated now old_obj foreign) c view h = h
  handle-Mirrors keeps (deleted now (object o)) c view h = remove-Mirrors now o c view h
  handle-Mirrors keeps (deleted now (tombstone (object o))) c view h = remove-Mirrors now o c view h
  handle-Mirrors keeps (deleted now (tombstone (tombstone obj))) c view h = h
  handle-Mirrors keeps (deleted now (tombstone foreign)) c view h = h
  handle-Mirrors keeps (deleted now foreign) c view h = h

  handle_all-Mirrors :
      KeepsKey
      → (es : List (Event O)) (c : Collected V) (view : View O) → Mirrors c view
      → Mirrors (handle_all w es c) (observe_all es view)
  unfolding handle_all
  handle_all-Mirrors keeps [] c view h = h
  handle_all-Mirrors keeps (e ∷ es) c view h =
      handle_all-Mirrors keeps es (handle w e c) (observe e view) (handle-Mirrors keeps e c view h)

  -- If the conversion leaves the key as it is, then after any events from an empty store the store
  -- has under each key the converted form of the object that the events say the cluster has there,
  -- in its last version, and nothing under a key whose object they say was deleted.
  pub mirror :
      KeepsKey
      → (es : List (Event O)) (now : ℕ) (j : String)
      → get j (handle_all w es (record { store = new_typed_store now; calls = [] })).store
        ≡ in_model (observe_all es (λ k. none) j)
  mirror keeps es now j =
      handle_all-Mirrors keeps es (record { store = new_typed_store now; calls = [] }) (λ k. none)
        (λ k. unfold get in unfold new_typed_store in unfold lookup in refl) j
