-- ===== src/TypedStore.antt =====
-- internal/store/typed.go: the generic store. The mutex makes each method one step; the order of
-- the entries stands for the order in which a `range` visits them.
pub mod Refinement
use kubeadapt_agent.Prelude.{
  ℕ, Bool, true, false, Option, none, some, List, [], ◌∷◌, String, String_eq, length,
}
use kubeadapt_agent.GoMap.{GoMap, lookup, insert, delete, values}

pub record TypedStore (V : Type 0) : Type 0 where
  pub items : GoMap String V
  pub last_updated : ℕ

module _ {V : Type 0} where
  unfoldable pub new_typed_store : ℕ → TypedStore V
  new_typed_store now = record { items = []; last_updated = now }

  unfoldable pub set : ℕ → String → V → TypedStore V → TypedStore V
  set now key value s = record { items = insert key value s.items; last_updated = now }

  unfoldable pub delete_key : ℕ → String → TypedStore V → TypedStore V
  delete_key now key s = record { items = delete key s.items; last_updated = now }

  unfoldable pub get : String → TypedStore V → Option V
  get key s = lookup key s.items

  unfoldable pub len : TypedStore V → ℕ
  len s = length s.items

  -- The loop of Snapshot over what the range still has to visit.
  unfoldable pub copy_loop : GoMap String V → GoMap String V → GoMap String V
  copy_loop [] cp = cp
  copy_loop ((k, v) ∷ todo) cp = copy_loop todo (insert k v cp)

  unfoldable pub snapshot : TypedStore V → GoMap String V
  snapshot s = copy_loop s.items []

  unfoldable pub store_values : TypedStore V → List V
  store_values s = values s.items

  unfoldable pub clear : TypedStore V → TypedStore V
  clear s = record s { items = [] }
