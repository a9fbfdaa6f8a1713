-- ===== src/GoMap.antt =====
-- Go's built-in map, as an association list. A list of entries stands for one map together with
-- the order in which a `range` over it visits the entries.
pub mod Keys
pub mod Index
use kubeadapt_agent.Prelude.{
  ℕ, ◌≡◌, refl, Bool, true, false, Option, none, some, List, [], ◌∷◌, map, arith, Comparable, ◌==◌,
  if◌then◌else◌,
}

abbrev pub GoMap {ℓ κ} : Type ℓ → Type κ → Type (ℓ ⊔ κ)
GoMap K V = List (K × V)

module _ {ℓ κ} {K : Type ℓ} {V : Type κ} ⦃e : Comparable K⦄ where
  -- v, ok := m[k]
  unfoldable pub lookup : K → GoMap K V → Option V
  lookup wanted [] = none
  lookup wanted ((key, value) ∷ rest) = if key == wanted then some value else lookup wanted rest

  -- m[k] = v
  unfoldable pub insert : K → V → GoMap K V → GoMap K V
  insert key value [] = (key, value) ∷ []
  insert key value ((other, old) ∷ rest) =
      let inserted = insert key value rest in
      if other == key then (key, value) ∷ rest else (other, old) ∷ inserted

  -- delete(m, k)
  unfoldable pub delete : K → GoMap K V → GoMap K V
  delete key [] = []
  delete key ((other, value) ∷ rest) =
      let deleted = delete key rest in if other == key then deleted else (other, value) ∷ deleted

  -- m[k], with the zero value of `V` for a missing key
  unfoldable pub get_or : V → K → GoMap K V → V
  unfolding lookup
  get_or zero_value k m = elim (lookup k m) [ none ↦ zero_value | some v ↦ v ]

  pub lookup-insert :
      (key wanted : K) (value : V) (m : GoMap K V)
      → lookup wanted (insert key value m) ≡ (if key == wanted then some value else lookup wanted m)
  unfolding insert lookup
  lookup-insert key wanted value [] = refl
  lookup-insert key wanted value ((other, old) ∷ rest) =
      let ih = lookup-insert key wanted value rest in
      ground (ih, arith, e.equal_iff other wanted, e.equal_iff other key, e.equal_iff key wanted)

  pub lookup-delete :
      (k j : K) (m : GoMap K V) → lookup j (delete k m) ≡ (if k == j then none else lookup j m)
  unfolding lookup delete
  lookup-delete k j [] = ground arith
  lookup-delete k j ((i, w) ∷ m) =
      ground (arith, e.equal_iff k j, e.equal_iff i k, e.equal_iff i j, lookup-delete k j m)

module _ {ℓ κ} {K : Type ℓ} {V : Type κ} where
  unfoldable pub keys : GoMap K V → List K
  keys [] = []
  keys ((k, v) ∷ m) = k ∷ keys m

  unfoldable pub values : GoMap K V → List V
  values [] = []
  values ((k, v) ∷ m) = v ∷ values m
