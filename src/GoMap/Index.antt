-- ===== src/GoMap/Index.antt =====
-- The two loops by which the agent indexes a slice: `m[key] = x`, and `m[key] = append(m[key], x)`.
use kubeadapt_agent.Prelude.{
  ◌≡◌, refl, Option, some, List, [], ◌∷◌, ◌++◌, arith, Comparable, ◌==◌, if◌then◌else◌, keep,
  Bool-cases, inl, inr,
}
use mathlib.Core.List.{append_assoc, append-nil}
use kubeadapt_agent.GoMap.{GoMap, lookup, insert, get_or, lookup-insert}
use kubeadapt_agent.GoMap.Keys.{IsMap, insert-IsMap}

module _ {ℓ κ} {K : Type ℓ} {A : Type κ} ⦃e : Comparable K⦄ where
  -- for _, x := range xs { m[key(x)] = x }
  unfoldable pub index_from : (A → K) → GoMap K A → List A → GoMap K A
  index_from key m [] = m
  index_from key m (x ∷ xs) = index_from key (insert (key x) x m) xs

  -- The last element with the key, if there is one; `found` otherwise.
  unfoldable pub find_last : (A → K) → K → Option A → List A → Option A
  find_last key k found [] = found
  find_last key k found (x ∷ xs) = find_last key k (if key x == k then some x else found) xs

  pub lookup-index_from :
      (key : A → K) (k : K) (m : GoMap K A) (xs : List A)
      → lookup k (index_from key m xs) ≡ find_last key k (lookup k m) xs
  unfolding index_from find_last
  lookup-index_from key k m [] = refl
  lookup-index_from key k m (x ∷ xs) =
      rw (lookup-index_from key k (insert (key x) x m) xs) (rw lookup-insert refl)

  pub index_from-IsMap :
      (key : A → K) (m : GoMap K A) (xs : List A) → IsMap m → IsMap (index_from key m xs)
  unfolding index_from
  index_from-IsMap key m [] h = h
  index_from-IsMap key m (x ∷ xs) h =
      index_from-IsMap key (insert (key x) x m) xs (insert-IsMap (key x) x m h)

  -- for _, x := range xs { m[key(x)] = append(m[key(x)], x) }
  unfoldable pub group_from : (A → K) → GoMap K (List A) → List A → GoMap K (List A)
  group_from key m [] = m
  group_from key m (x ∷ xs) = group_from key (insert (key x) (get_or [] (key x) m ++ x ∷ []) m) xs

  pub get_or-insert :
      (k j : K) (v : List A) (m : GoMap K (List A))
      → get_or [] j (insert k v m) ≡ (if k == j then v else get_or [] j m)
  unfolding get_or
  get_or-insert k j v m = ground (arith, lookup-insert k j v m)

  -- What is grouped under a key is what a filter by the key selects, in order.
  pub get_or-group_from :
      (key : A → K) (k : K) (m : GoMap K (List A)) (xs : List A)
      → get_or [] k (group_from key m xs) ≡ get_or [] k m ++ keep (λ x. key x == k) xs
  unfolding group_from
  get_or-group_from key k m [] = rw append-nil
  get_or-group_from key k m (x ∷ xs) = elim (Bool-cases (key x == k)) [
    | inl p ↦
        rw (get_or-group_from key k (insert (key x) (get_or [] (key x) m ++ x ∷ []) m) xs)
          (rw (get_or-insert, p) (rw (append_assoc, (e.equal_iff (key x) k).0 p) refl))
    | inr p ↦
        rw (get_or-group_from key k (insert (key x) (get_or [] (key x) m ++ x ∷ []) m) xs)
          (rw (get_or-insert, p) refl)
  ]
