-- ===== src/Convert/Annotations/Kept.antt =====
-- Which annotations FilterAnnotations keeps, and how long they are.
use mathlib.Core.Path.{subst}
use kubeadapt_agent.Prelude.{
  ℕ, zero, suc, sym, ◌≤◌, ◌≡◌, refl, ap, ◌∙◌, Bool, true, false, Option, none, some, [], ◌∷◌,
  bytes_comparable, if◌then◌else◌, ◌==◌, ltb, length, take, length-take, arith, All, ==_refl,
  Bool-cases, inl, inr,
}
use kubeadapt_agent.GoMap.{GoMap, lookup, insert, lookup-insert}
use kubeadapt_agent.GoMap.Keys.{IsMap, has_key, lookup-of-not_has_key}
use kubeadapt_agent.Transport.Message.{Text, text}
use kubeadapt_agent.Convert.Annotations.{last_applied, shortened, filter_loop, filter_annotations}

-- The value under a key in the result: the first 1024 bytes of the one in the annotations, or else
-- the one from `before`.
abbrev pub shortened_or : Option Text → Option Text → Option Text
shortened_or none before = before
shortened_or (some v) before = some (take 1024 v)

take_all : (n : ℕ) (v : Text) → length v ≤ n → take n v ≡ v
take_all zero [] h = refl
take_all zero (c ∷ v) h = absurd (omega arith)
take_all (suc n) [] h = refl
take_all (suc n) (c ∷ v) h = ap (λ w. c ∷ w) (take_all n v (omega arith))

cut_short : (n : ℕ) (v : Text) → (if ltb n (length v) then take n v else v) ≡ take n v
cut_short n v = elim (Bool-cases (ltb n (length v))) [
  | inl e ↦ rw e refl
  | inr e ↦ rw e (sym (take_all n v (ground arith)))
]

shortened_lem : (v : Text) → shortened v ≡ take 1024 v
shortened_lem v = cut_short 1024 v

if_same : (b : Bool) (o : Option Text) → o ≡ (if b then o else shortened_or none o)
if_same true o = refl
if_same false o = refl

-- A round, for a key that the loop leaves out and for the others.
kept_round :
    (banned k key v : Text) (rest before : Option Text)
    → (k ≡ key → rest ≡ none)
    → let now = if k == banned then before else if k == key then some (take 1024 v) else before in
      (if key == banned then now else shortened_or rest now)
      ≡ (if key == banned then before else shortened_or (if k == key then some v else rest) before)
kept_round banned k key v rest before once = elim (Bool-cases (k == key)) [
  | inl same ↦
      let e = (bytes_comparable.equal_iff k key).0 same in
      rw (once e, e, ==_refl key) (ground arith)
  | inr other ↦ rw other (ground arith)
]

lookup-if_insert :
    (skip : Bool) (k key s : Text) (filtered : GoMap Text Text)
    → lookup key (if skip then filtered else insert k s filtered)
      ≡ (if skip then lookup key filtered else if k == key then some s else lookup key filtered)
lookup-if_insert true k key s filtered = refl
lookup-if_insert false k key s filtered = lookup-insert k key s filtered

absent : (k key : Text) (m : GoMap Text Text) → has_key k m ≡ false → k ≡ key → lookup key m ≡ none
absent k key m h e = subst (λ j. lookup j m ≡ none) e (lookup-of-not_has_key k m h)

lookup-filter_loop :
    (key : Text) (filtered m : GoMap Text Text)
    → IsMap m
    → lookup key (filter_loop filtered m) ≡ (
        if key == last_applied
        then lookup key filtered
        else shortened_or (lookup key m) (lookup key filtered))
unfolding filter_loop lookup
lookup-filter_loop key filtered [] h = if_same (key == last_applied) (lookup key filtered)
lookup-filter_loop key filtered ((k, v) ∷ m) h =
    let s = shortened v in
    lookup-filter_loop key (if k == last_applied then filtered else insert k s filtered) m h.1
    ∙ ap
        (λ (now : Option Text).
          if key == last_applied then now else shortened_or (lookup key m) now)
        (lookup-if_insert (k == last_applied) k key s filtered
          ∙ ap
              (λ x.
                if k == last_applied
                then lookup key filtered
                else if k == key
                then some x
                else lookup key filtered)
              (shortened_lem v))
    ∙ kept_round last_applied k key v (lookup key m) (lookup key filtered) (absent k key m h.0)

abbrev IsShort : GoMap Text Text → Type 0
IsShort = All (λ e. length e.1 ≤ 1024)

length-shortened : (v : Text) → length (shortened v) ≤ 1024
length-shortened v = rw (shortened_lem v) (length-take 1024 v)

insert-IsShort :
    (k v : Text) (m : GoMap Text Text) → length v ≤ 1024 → IsShort m → IsShort (insert k v m)
unfolding insert
insert-IsShort k v [] h s = (h, tt)
insert-IsShort k v ((j, w) ∷ m) h s = elim (Bool-cases (j == k)) [
  | inl e ↦ rw e (h, s.1)
  | inr e ↦ rw e (s.0, insert-IsShort k v m h s.1)
]

if-IsShort :
    (skip : Bool) (k v : Text) (m : GoMap Text Text)
    → IsShort m
    → IsShort (if skip then m else insert k (shortened v) m)
if-IsShort true k v m h = h
if-IsShort false k v m h = insert-IsShort k (shortened v) m (length-shortened v) h

filter_loop-IsShort :
    (filtered m : GoMap Text Text) → IsShort filtered → IsShort (filter_loop filtered m)
unfolding filter_loop
filter_loop-IsShort filtered [] h = h
filter_loop-IsShort filtered ((k, v) ∷ m) h =
    filter_loop-IsShort (if k == last_applied then filtered else insert k (shortened v) filtered) m
      (if-IsShort (k == last_applied) k v filtered h)

-- If no annotation is listed twice, FilterAnnotations drops the last applied configuration, keeps
-- every other key with the first 1024 bytes of its value, adds no key, and no value in the result
-- is longer.
pub filter_annotations_lem :
    (annotations : GoMap Text Text)
    → IsMap annotations
    → ((key : Text)
        → lookup key (filter_annotations annotations) ≡ (
            if key == text "kubectl.kubernetes.io/last-applied-configuration"
            then none
            else shortened_or (lookup key annotations) none))
      × All (λ e. length e.1 ≤ 1024) (filter_annotations annotations)
unfolding filter_annotations lookup
filter_annotations_lem annotations h =
    ((λ key. lookup-filter_loop key [] annotations h), filter_loop-IsShort [] annotations tt)
