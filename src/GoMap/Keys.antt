-- ===== src/GoMap/Keys.antt =====
-- The keys of a map are distinct, and every write keeps them so.
use kubeadapt_agent.Prelude.{
  suc, ◌≡◌, refl, Bool, true, false, none, some, [], ◌∷◌, arith, Comparable, ◌==◌, if◌then◌else◌,
  length,
}
use kubeadapt_agent.Prelude.{◌++◌, keep, ==_refl}
use kubeadapt_agent.GoMap.{GoMap, lookup, insert, delete}

module _ {ℓ κ} {K : Type ℓ} {V : Type κ} ⦃e : Comparable K⦄ where
  abbrev pub has_key : K → GoMap K V → Bool
  has_key k [] = false
  has_key k ((j, v) ∷ m) = if j == k then true else has_key k m

  -- No key stands twice.
  abbrev pub IsMap : GoMap K V → Type 0
  IsMap [] = Unit
  IsMap ((k, v) ∷ m) = (has_key k m ≡ false) × IsMap m

  has_key-insert :
      (k j : K) (v : V) (m : GoMap K V)
      → has_key j (insert k v m) ≡ (if k == j then true else has_key j m)
  unfolding insert
  has_key-insert k j v [] = refl
  has_key-insert k j v ((other, old) ∷ rest) =
      let ih = has_key-insert k j v rest in
      ground (ih, arith, e.equal_iff other j, e.equal_iff other k, e.equal_iff k j)

  has_key-delete :
      (k j : K) (m : GoMap K V) → has_key j (delete k m) ≡ (if k == j then false else has_key j m)
  unfolding delete
  has_key-delete k j [] = ground arith
  has_key-delete k j ((i, w) ∷ m) =
      ground (arith, e.equal_iff k j, e.equal_iff i k, e.equal_iff i j, has_key-delete k j m)

  pub insert-IsMap : (k : K) (v : V) (m : GoMap K V) → IsMap m → IsMap (insert k v m)
  unfolding insert
  insert-IsMap k v [] h = (refl, tt)
  insert-IsMap k v ((j, w) ∷ m) h =
      ground
        (arith, e.equal_iff j k, e.equal_iff k j, has_key-insert k j v m, insert-IsMap k v m h.1)

  pub delete-IsMap : (k : K) (m : GoMap K V) → IsMap m → IsMap (delete k m)
  unfolding delete
  delete-IsMap k [] h = tt
  delete-IsMap k ((j, w) ∷ m) h =
      ground (arith, e.equal_iff k j, has_key-delete k j m, delete-IsMap k m h.1)

  pub has_key-of-lookup : (k : K) (v : V) (m : GoMap K V) → lookup k m ≡ some v → has_key k m ≡ true
  unfolding lookup
  has_key-of-lookup k v [] h = ground arith
  has_key-of-lookup k v ((j, w) ∷ m) h = ground (arith, has_key-of-lookup k v m)

  pub lookup-of-not_has_key : (k : K) (m : GoMap K V) → has_key k m ≡ false → lookup k m ≡ none
  unfolding lookup
  lookup-of-not_has_key k [] h = refl
  lookup-of-not_has_key k ((j, w) ∷ m) h = ground (arith, lookup-of-not_has_key k m)

  pub length-insert :
      (k : K) (v : V) (m : GoMap K V)
      → length (insert k v m) ≡ (if has_key k m then length m else suc (length m))
  unfolding insert
  length-insert k v [] = refl
  length-insert k v ((j, w) ∷ m) = ground (arith, length-insert k v m)

  delete-of-not_has_key : (k : K) (m : GoMap K V) → has_key k m ≡ false → delete k m ≡ m
  unfolding delete
  delete-of-not_has_key k [] h = refl
  delete-of-not_has_key k ((j, w) ∷ m) h = ground (arith, delete-of-not_has_key k m)

  pub length-delete :
      (k : K) (m : GoMap K V)
      → IsMap m
      → length m ≡ (if has_key k m then suc (length (delete k m)) else length (delete k m))
  unfolding delete
  length-delete k [] h = refl
  length-delete k ((j, w) ∷ m) h =
      ground (arith, e.equal_iff j k, delete-of-not_has_key k m, length-delete k m h.1)

  has_key-middle :
      (pre post : GoMap K V) (k : K) (v : V) → has_key k (pre ++ ((k, v) ∷ post)) ≡ true
  has_key-middle [] post k v = ground (arith, ==_refl k)
  has_key-middle ((j, w) ∷ pre) post k v = ground (arith, has_key-middle pre post k v)

  has_key-drop :
      (pre post : GoMap K V) (j k : K) (v : V)
      → has_key j (pre ++ ((k, v) ∷ post)) ≡ false
      → has_key j (pre ++ post) ≡ false
  has_key-drop [] post j k v h = ground arith
  has_key-drop ((i, w) ∷ pre) post j k v h = ground (arith, has_key-drop pre post j k v)

  -- Deleting the entry that a `range` stands at leaves the others as they are.
  pub delete-middle :
      (pre post : GoMap K V) (k : K) (v : V)
      → IsMap (pre ++ ((k, v) ∷ post))
      → delete k (pre ++ ((k, v) ∷ post)) ≡ pre ++ post
  unfolding delete
  delete-middle [] post k v h = ground (arith, ==_refl k, delete-of-not_has_key k post)
  delete-middle ((j, w) ∷ pre) post k v h =
      ground (arith, e.equal_iff j k, has_key-middle pre post k v, delete-middle pre post k v h.1)

  pub drop_middle-IsMap :
      (pre post : GoMap K V) (k : K) (v : V) → IsMap (pre ++ ((k, v) ∷ post)) → IsMap (pre ++ post)
  drop_middle-IsMap [] post k v h = h.1
  drop_middle-IsMap ((j, w) ∷ pre) post k v h =
      ground (arith, has_key-drop pre post j k v, drop_middle-IsMap pre post k v h.1)

  has_key-keep :
      (p : K × V → Bool) (k : K) (m : GoMap K V)
      → has_key k m ≡ false
      → has_key k (keep p m) ≡ false
  has_key-keep p k [] h = refl
  has_key-keep p k ((j, w) ∷ m) h = ground (arith, has_key-keep p k m)

  pub keep-IsMap : (p : K × V → Bool) (m : GoMap K V) → IsMap m → IsMap (keep p m)
  keep-IsMap p [] h = tt
  keep-IsMap p ((j, w) ∷ m) h = ground (arith, has_key-keep p j m, keep-IsMap p m h.1)

  -- In a filtered map a key is found exactly if its entry passes the filter.
  pub lookup-keep :
      (p : K × V → Bool) (k : K) (m : GoMap K V)
      → IsMap m
      → lookup k (keep p m)
        ≡ elim (lookup k m) [ none ↦ none | some v ↦ if p (k, v) then some v else none ]
  unfolding lookup
  lookup-keep p k [] h = refl
  lookup-keep p k ((j, w) ∷ m) h =
      ground (arith, e.equal_iff j k, lookup-keep p k m h.1, lookup-of-not_has_key k m)
