-- ===== src/Dcgm/Devices/Utilization.antt =====
-- The utilization of a device: a profiling sample wins over a coarse one, whatever their order.
use mathlib.Core.Path.{subst}
use kubeadapt_agent.Prelude.{
  ◌≡◌, refl, sym, ap, ◌∙◌, Bool, true, false, not, ◌&&◌, Option, none, some, List, [], ◌∷◌,
  if◌then◌else◌, ◌==◌, ℕ_eq, bytes_comparable, ==_refl, arith, Bool-cases, inl, inr,
}
use kubeadapt_agent.GoMap.{GoMap, lookup, insert, get_or, lookup-insert}
use kubeadapt_agent.Model.{Float64}
use kubeadapt_agent.Transport.Message.{Text}
use kubeadapt_agent.Dcgm.Lines.{ParsedSample}
use kubeadapt_agent.Dcgm.Devices.{
  GpuDeviceMetrics, Devices, metric_prof_gr_engine_active, metric_dev_gpu_util, found_or_new,
  key_of, is_sentinel, measure, has_key_label, add_measure, gather,
}

lookup-insert_same :
    {A : Type 0} (key : Text) (a : A) (m : GoMap Text A) → lookup key (insert key a m) ≡ some a
lookup-insert_same key a m = rw (lookup-insert key key a m) (rw (==_refl key) refl)

lookup-insert_other :
    {A : Type 0} (key wanted : Text) (a : A) (m : GoMap Text A)
    → (key == wanted) ≡ false
    → lookup wanted (insert key a m) ≡ lookup wanted m
lookup-insert_other key wanted a m h = rw (lookup-insert key wanted a m) (rw h refl)

module _ {R : Type 0} (fl : Float64 R) where
  -- A sample of a device, under a metric, with a value that is not blank.
  abbrev pub reads : Text → Text → ParsedSample R → Bool
  reads key name s =
      has_key_label fl s && key_of s.labels == key && s.name == name && not (is_sentinel fl s.value)

  -- The last such value, if there is one; `found` otherwise.
  unfoldable pub last_value : Text → Text → Option R → List (ParsedSample R) → Option R
  last_value key name found [] = found
  last_value key name found (s ∷ samples) =
      last_value key name (if reads key name s then some s.value else found) samples

  -- A profiling value is a fraction, and it is preferred.
  abbrev pub preferred : Option R → Option R → Option R
  preferred (some p) coarse = some (fl.times p (fl.of_int 100))
  preferred none coarse = coarse

  abbrev pub utilization : Option (GpuDeviceMetrics R) → Option R
  utilization none = none
  utilization (some g) = g.gpu_utilization

  abbrev is_set : Option R → Bool
  is_set none = false
  is_set (some v) = true

  measure_utilization :
      (prof : Bool) (name : Text) (v : R) (g : GpuDeviceMetrics R)
      → (measure fl prof name v g).gpu_utilization ≡ (
          if name == metric_prof_gr_engine_active
          then some (fl.times v (fl.of_int 100))
          else if name == metric_dev_gpu_util
          then if prof then g.gpu_utilization else some v
          else g.gpu_utilization)
  unfolding measure
  measure_utilization prof name v g = ground arith

  new_utilization :
      (s : ParsedSample R) (o : Option (GpuDeviceMetrics R))
      → (found_or_new o s.labels).gpu_utilization ≡ utilization o
  new_utilization s none = refl
  new_utilization s (some g) = refl

  names_differ :
      (name : Text)
      → (name == metric_prof_gr_engine_active) ≡ true
      → (name == metric_dev_gpu_util) ≡ false
  names_differ name h = rw ((bytes_comparable.equal_iff name _).0 h) refl

  abbrev updated : Text → Text → ParsedSample R → Option R → Option R
  updated key name s o = if reads key name s then some s.value else o

  -- The invariant of the loop, at a key, with the last values so far.
  abbrev Holds : Text → Option R → Option R → Devices R → Type 0
  Holds key p c d =
      (get_or false key d.has_prof ≡ is_set p) × (utilization (lookup key d.gpus) ≡ preferred p c)

  same_key :
      (s : ParsedSample R) (p c : Option R) (d : Devices R)
      → has_key_label fl s ≡ true
      → Holds (key_of s.labels) p c d
      → Holds
          (key_of s.labels)
          (updated (key_of s.labels) metric_prof_gr_engine_active s p)
          (updated (key_of s.labels) metric_dev_gpu_util s c)
          (add_measure fl s d)
  unfolding add_measure get_or
  same_key s p c d k h =
      let key = key_of s.labels in
      let g = (found_or_new (lookup key d.gpus) s.labels) in
      let prof = get_or false key d.has_prof in
      let measured = measure fl prof s.name s.value g in
      let g' = if is_sentinel fl s.value then g else measured in
      let kept = new_utilization s (lookup key d.gpus) in
      let new = measure_utilization prof s.name s.value g in
      (
        ground (arith, lookup-insert key key true d.has_prof, ==_refl key),
        ap utilization (lookup-insert_same key g' d.gpus)
            ∙ (ground (arith, ==_refl key, kept, new, names_differ s.name)),
      )

  other_key :
      (key : Text) (s : ParsedSample R) (p c : Option R) (d : Devices R)
      → (key_of s.labels == key) ≡ false
      → Holds key p c d
      → Holds key p c (add_measure fl s d)
  unfolding add_measure get_or
  other_key key s p c d k h =
      let key' = key_of s.labels in
      let g = (found_or_new (lookup key' d.gpus) s.labels) in
      let measured = measure fl (get_or false key' d.has_prof) s.name s.value g in
      let g' = if is_sentinel fl s.value then g else measured in
      (
        ground (arith, lookup-insert key' key true d.has_prof),
        ap utilization (lookup-insert_other key' key g' d.gpus k) ∙ h.1,
      )

  unread :
      (key name : Text) (s : ParsedSample R) (o : Option R)
      → (has_key_label fl s && key_of s.labels == key) ≡ false
      → updated key name s o ≡ o
  unread key name s o h = ground arith

  step-Holds :
      (key : Text) (s : ParsedSample R) (p c : Option R) (d : Devices R)
      → Holds key p c d
      → Holds key
          (updated key metric_prof_gr_engine_active s p)
          (updated key metric_dev_gpu_util s c)
          (if has_key_label fl s then add_measure fl s d else d)
  step-Holds key s p c d h = elim (Bool-cases (has_key_label fl s)) [
    | inr k ↦ rw k h
    | inl k ↦ elim (Bool-cases (key_of s.labels == key)) [
      | inl same ↦
          let e = (bytes_comparable.equal_iff (key_of s.labels) key).0 same in
          let h' = subst (λ j. Holds j p c d) (sym e) h in
          subst
            (λ b.
              Holds key (updated key metric_prof_gr_engine_active s p)
                (updated key metric_dev_gpu_util s c) (if b then add_measure fl s d else d))
            (sym k)
            (subst
              (λ j.
                Holds j (updated j metric_prof_gr_engine_active s p)
                  (updated j metric_dev_gpu_util s c) (add_measure fl s d))
              e (same_key s p c d k h'))
      | inr other ↦ rw (k, other) (other_key key s p c d other h)
    ]
  ]

  gather-Holds :
      (key : Text) (samples : List (ParsedSample R)) (p c : Option R) (d : Devices R)
      → Holds key p c d
      → Holds key
          (last_value key metric_prof_gr_engine_active p samples)
          (last_value key metric_dev_gpu_util c samples)
          (gather fl samples d)
  unfolding gather last_value
  gather-Holds key [] p c d h = h
  gather-Holds key (s ∷ samples) p c d h = gather-Holds key samples _ _ _ (step-Holds key s p c d h)

  -- Whatever the samples and their order, a device's utilization is a hundred times its last
  -- profiling value that is not blank, if there is one, and its last coarse value that is not blank
  -- otherwise.
  pub utilization_lem :
      (key : Text) (samples : List (ParsedSample R))
      → utilization (lookup key (gather fl samples (record { gpus = []; has_prof = [] })).gpus)
        ≡ preferred
            (last_value key metric_prof_gr_engine_active none samples)
            (last_value key metric_dev_gpu_util none samples)
  unfolding lookup get_or
  utilization_lem key samples =
      (gather-Holds key samples none none (record { gpus = []; has_prof = [] }) (refl, refl)).1
