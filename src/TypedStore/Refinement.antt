-- ===== src/TypedStore/Refinement.antt =====
-- The store refines a partial function from keys to values.
use mathlib.Core.Path.{fun_ext}
use kubeadapt_agent.Prelude.{
  ℕ, suc, ◌≡◌, refl, ap, ◌∙◌, Bool, true, false, Option, none, some, List, [], ◌∷◌, String,
  String_eq, arith, length, if◌then◌else◌, ◌==◌,
}
use kubeadapt_agent.GoMap.{GoMap, lookup, insert, values, lookup-insert, lookup-delete}
use kubeadapt_agent.GoMap.Keys.{
  IsMap, has_key, insert-IsMap, delete-IsMap, lookup-of-not_has_key, length-insert, length-delete,
}
use kubeadapt_agent.TypedStore.{
  TypedStore, set, delete_key, get, len, copy_loop, snapshot, store_values, clear,
}

-- A call that changes the store; Set and Delete carry the time that they read.
pub data Call (V : Type 0) : Type 0 where
  set_call : ℕ → String → V → Call V
  delete_call : ℕ → String → Call V
  clear_call : Call V

module _ {V : Type 0} where
  unfoldable pub call : Call V → TypedStore V → TypedStore V
  call (set_call now k v) s = set now k v s
  call (delete_call now k) s = delete_key now k s
  call clear_call s = clear s

  unfoldable pub calls : List (Call V) → TypedStore V → TypedStore V
  calls [] s = s
  calls (c ∷ cs) s = calls cs (call c s)

  -- The specification: the function that the calls make of a function.
  abbrev pub spec_call : Call V → (String → Option V) → String → Option V
  spec_call (set_call now k v) f j = if k == j then some v else f j
  spec_call (delete_call now k) f j = if k == j then none else f j
  spec_call clear_call f j = none

  abbrev pub spec_calls : List (Call V) → (String → Option V) → String → Option V
  spec_calls [] f = f
  spec_calls (c ∷ cs) f = spec_calls cs (spec_call c f)

  get-call : (c : Call V) (s : TypedStore V) → (λ j. get j (call c s)) ≡ spec_call c (λ j. get j s)
  unfolding get call set delete_key clear lookup
  get-call (set_call now k v) s = fun_ext λ j. lookup-insert k j v s.items
  get-call (delete_call now k) s = fun_ext λ j. lookup-delete k j s.items
  get-call clear_call s = refl

  -- After any calls, Get answers what the function made by these calls answers.
  pub get-calls :
      (cs : List (Call V)) (s : TypedStore V)
      → (λ j. get j (calls cs s)) ≡ spec_calls cs (λ j. get j s)
  unfolding calls
  get-calls [] s = refl
  get-calls (c ∷ cs) s = get-calls cs (call c s) ∙ ap (spec_calls cs) (get-call c s)

  call-IsMap : (c : Call V) (s : TypedStore V) → IsMap s.items → IsMap (call c s).items
  unfolding call set delete_key clear
  call-IsMap (set_call now k v) s h = insert-IsMap k v s.items h
  call-IsMap (delete_call now k) s h = delete-IsMap k s.items h
  call-IsMap clear_call s h = tt

  pub calls-IsMap :
      (cs : List (Call V)) (s : TypedStore V) → IsMap s.items → IsMap (calls cs s).items
  unfolding calls
  calls-IsMap [] s h = h
  calls-IsMap (c ∷ cs) s h = calls-IsMap cs (call c s) (call-IsMap c s h)

  unfoldable pub is_some : Option V → Bool
  is_some none = false
  is_some (some v) = true

  is_some-lookup : (k : String) (m : GoMap String V) → is_some (lookup k m) ≡ has_key k m
  unfolding is_some lookup
  is_some-lookup k [] = refl
  is_some-lookup k ((j, w) ∷ m) = ground (arith, is_some-lookup k m)

  -- If no key has two entries, Len counts the keys that Get finds: Set adds one to it for a key
  -- that is not there, Delete takes one off for a key that is.
  pub len-call :
      (now : ℕ) (k : String) (v : V) (s : TypedStore V)
      → IsMap s.items
      → (len (set now k v s) ≡ (if is_some (get k s) then len s else suc (len s)))
        × (len s ≡ (
            if is_some (get k s) then suc (len (delete_key now k s)) else len (delete_key now k s)))
  unfolding len set delete_key get
  len-call now k v s h =
      rw (is_some-lookup k s.items) (length-insert k v s.items, length-delete k s.items h)

  copy_loop_lem :
      (todo cp : GoMap String V) (j : String)
      → IsMap todo
      → lookup j (copy_loop todo cp) ≡ (if has_key j todo then lookup j todo else lookup j cp)
  unfolding copy_loop lookup
  copy_loop_lem [] cp j h = refl
  copy_loop_lem ((k, v) ∷ todo) cp j h =
      copy_loop_lem todo (insert k v cp) j h.1
      ∙ ground (arith, lookup-insert k j v cp, String_eq.equal_iff k j)

  length-copy_loop : (todo cp : GoMap String V) → length (values todo) ≡ length todo
  unfolding values
  length-copy_loop [] cp = refl
  length-copy_loop ((k, v) ∷ todo) cp = ap suc (length-copy_loop todo cp)

  -- If no key has two entries, Snapshot is a map of its own with the same answers, and Values has
  -- one value for each key.
  pub snapshot_lem :
      (s : TypedStore V)
      → IsMap s.items
      → ((j : String) → lookup j (snapshot s) ≡ get j s) × (length (store_values s) ≡ len s)
  unfolding snapshot get store_values len
  snapshot_lem s h = (
    λ j.
        copy_loop_lem s.items [] j h
        ∙ unfold lookup in ground (arith, lookup-of-not_has_key j s.items),
    length-copy_loop s.items [],
  )
