-- ===== src/Snapshot/Backfill/Present.antt =====
-- The nodes of a snapshot after the backfill, told by name.
use kubeadapt_agent.Prelude.{
  ◌≡◌, refl, ap, ◌∙◌, Bool, true, false, Option, none, some, List, [], ◌∷◌, ◌++◌, String, String_eq,
  if◌then◌else◌, ◌==◌, any, is_empty, contains, contains-append, map, arith,
}
use mathlib.Core.List.{map-append}
use kubeadapt_agent.GoMap.{GoMap, lookup}
use kubeadapt_agent.GoMap.Index.{index_from, find_last, lookup-index_from}
use kubeadapt_agent.Model.Node.{NodeInfo}
use kubeadapt_agent.Model.Pod.{PodInfo}
use kubeadapt_agent.Snapshot.Backfill.{
  add_name, referenced_from, Filled, fill_one, fill, backfill_referenced_nodes,
}

abbrev pub node_names : {R : Type 0} → List (NodeInfo R) → List String
node_names = map (λ n. n.name)

abbrev pub names_node : {R : Type 0} → String → List (PodInfo R) → Bool
names_node name = any (λ p. p.node_name == name)

contains-referenced_from :
    {R : Type 0} (name : String) (present names : List String) (pods : List (PodInfo R))
    → contains name (referenced_from present names pods) ≡ (
        if contains name names
        then true
        else if name == ""
        then false
        else if contains name present
        then false
        else names_node name pods)
unfolding referenced_from
contains-referenced_from name present names [] = ground arith
contains-referenced_from name present names (p ∷ ps) =
    contains-referenced_from name present
      (if p.node_name == ""
        then names
        else if contains p.node_name present
        then names
        else add_name p.node_name names)
      ps
    ∙ (ground (
      arith,
      String_eq.equal_iff p.node_name name,
      String_eq.equal_iff name "",
      String_eq.equal_iff p.node_name "",
    ))

-- A node found under a name has the name.
abbrev fits : {R : Type 0} → String → Option (NodeInfo R) → Bool
fits name none = true
fits name (some n) = n.name == name

abbrev is_some : {A : Type 0} → Option A → Bool
is_some none = false
is_some (some a) = true

find_last-fits :
    {R : Type 0} (name : String) (found : Option (NodeInfo R)) (xs : List (NodeInfo R))
    → fits name found ≡ true
    → fits name (find_last (λ n. n.name) name found xs) ≡ true
unfolding find_last
find_last-fits name found [] h = h
find_last-fits name found (x ∷ xs) h =
    find_last-fits name (if x.name == name then some x else found) xs (ground arith)

is_some-find_last :
    {R : Type 0} (name : String) (found : Option (NodeInfo R)) (xs : List (NodeInfo R))
    → is_some (find_last (λ n. n.name) name found xs)
      ≡ (if contains name (node_names xs) then true else is_some found)
unfolding find_last
is_some-find_last name found [] = refl
is_some-find_last name found (x ∷ xs) =
    is_some-find_last name (if x.name == name then some x else found) xs ∙ (ground arith)

contains-names_snoc :
    {R : Type 0} (name : String) (xs : List (NodeInfo R)) (n : NodeInfo R)
    → contains name (node_names (xs ++ n ∷ []))
      ≡ (if contains name (node_names xs) then true else n.name == name)
contains-names_snoc name xs n =
    ap (contains name) (map-append (λ x. x.name) xs (n ∷ []))
    ∙ contains-append name (node_names xs) (n.name ∷ [])
    ∙ (ground arith)

contains-fill_one :
    {R : Type 0} (name k : String) (o : Option (NodeInfo R)) (f : Filled R)
    → fits k o ≡ true
    → contains name (node_names (fill_one o k f).nodes) ≡ (
        if contains name (node_names f.nodes) then true else if k == name then is_some o else false)
contains-fill_one name k none f h = ground arith
contains-fill_one name k (some n) f h =
    contains-names_snoc name f.nodes n
    ∙ (ground (
      arith,
      String_eq.equal_iff n.name k,
      String_eq.equal_iff n.name name,
      String_eq.equal_iff k name,
    ))

contains-fill :
    {R : Type 0} (index : GoMap String (NodeInfo R)) (name : String) (names : List String)
    (f : Filled R)
    → ((k : String) → fits k (lookup k index) ≡ true)
    → contains name (node_names (fill index names f).nodes) ≡ (
        if contains name (node_names f.nodes)
        then true
        else if contains name names
        then is_some (lookup name index)
        else false)
unfolding fill
contains-fill index name [] f h = ground arith
contains-fill index name (k ∷ ks) f h =
    contains-fill index name ks (fill_one (lookup k index) k f) h
    ∙ (ground
        (arith, contains-fill_one name k (lookup k index) f (h k), String_eq.equal_iff k name))

any-is_empty : {A : Type 0} (p : A → Bool) (xs : List A) → is_empty xs ≡ true → any p xs ≡ false
any-is_empty p [] h = refl
any-is_empty p (x ∷ xs) h = ground arith

contains-is_empty : (a : String) (xs : List String) → is_empty xs ≡ true → contains a xs ≡ false
contains-is_empty a [] h = refl
contains-is_empty a (x ∷ xs) h = ground arith

-- Whatever the store, the pods and the nodes of the snapshot, after the backfill a node name is
-- in the snapshot exactly when it was there before, or when it is not empty, some pod names it and
-- a node of the store has it.
pub backfill_present :
    {R : Type 0} (store : List (NodeInfo R)) (pods : List (PodInfo R)) (nodes : List (NodeInfo R))
    (name : String)
    → contains name (node_names (backfill_referenced_nodes store pods nodes).nodes) ≡ (
        if contains name (node_names nodes)
        then true
        else if name == ""
        then false
        else if names_node name pods
        then contains name (node_names store)
        else false)
unfolding backfill_referenced_nodes lookup
backfill_present {R} store pods nodes name =
    let index = index_from (λ n. n.name) [] store in
    let names = referenced_from (node_names nodes) [] pods in
    let fit = λ (k : String).
      ap (fits k) (lookup-index_from (λ n. n.name) k [] store) ∙ find_last-fits k none store refl in
    let found =
      ap is_some (lookup-index_from (λ n. n.name) name [] store)
      ∙ is_some-find_last name none store in
    let before : Filled R = record { nodes = nodes; orphans = [] } in
    ground (
      arith,
      contains-fill index name names before fit,
      found,
      contains-referenced_from name (node_names nodes) [] pods,
      any-is_empty (λ (p : PodInfo R). p.node_name == name) pods,
      contains-is_empty name names,
    )
