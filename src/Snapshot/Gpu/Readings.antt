-- ===== src/Snapshot/Gpu/Readings.antt =====
-- What the readings of some devices come to, and that the adding up of the merges gives it.
pub mod Nodes
pub mod Containers
use kubeadapt_agent.Prelude.{
  ℕ, ◌+◌, ◌%◌, ◌<◌, ◌≡◌, refl, ap, ◌∙◌, sym, Bool, true, false, ◌&&◌, ◌||◌, Option, none, some,
  List, [], ◌∷◌, map, arith, any, if◌then◌else◌, is_empty, length, ltb,
}
use kubeadapt_agent.Prelude.Int.{uint64_mod, int64_half, add64}
use kubeadapt_agent.Model.{Float64}
use kubeadapt_agent.Model.Node.{NodeInfo}
use kubeadapt_agent.Model.Pod.{ContainerInfo}
use kubeadapt_agent.Dcgm.Devices.{GpuDeviceMetrics}
use kubeadapt_agent.Snapshot.Summary.{
  plus_reading, count_reading, flag_reading, add_reading, average,
}
use kubeadapt_agent.Snapshot.Gpu.{
  GpuTotals, is_enabled, is_positive, or_else, hotter, add_device, add_devices, no_gpu_totals,
  with_devices,
}
use kubeadapt_agent.Snapshot.Gpu.Containers.{
  ContainerGpu, add_to_container, found_or_no_gpu, no_gpu, with_container_gpu,
}

-- An element in front of a list, if there is one.
abbrev pub present : {A : Type 0} → Option A → List A → List A
present none vs = vs
present (some v) vs = v ∷ vs

-- One reading of some devices, of those that have it, in order.
abbrev pub readings : {A D : Type 0} → (D → Option A) → List D → List A
readings f [] = []
readings f (d ∷ ds) = present (f d) (readings f ds)

abbrev pub total : List ℕ → ℕ
total [] = 0
total (v ∷ vs) = v + total vs

-- Whether a device is told to be split.
abbrev pub is_split : Option Bool → Bool
is_split none = false
is_split (some b) = b

pub split_step :
    (o : Option Bool) (b rest : Bool)
    → ((b || is_enabled o) || rest) ≡ (b || (if is_split o then true else rest))
split_step none b rest = ground arith
split_step (some c) b rest = ground arith

pub or_false : (b : Bool) → b ≡ (b || false)
or_false b = ground arith

pub add_zero : (n : ℕ) → n ≡ n + 0
add_zero n = omega arith

-- The sum as an int64, if there is something to add.
abbrev pub sum_or : List ℕ → Option ℕ → Option ℕ
sum_or [] old = old
sum_or (v ∷ vs) old = some (total (v ∷ vs) % uint64_mod)

-- The sum as an int64, if that is positive.
abbrev pub positive_sum_or : List ℕ → Option ℕ → Option ℕ
positive_sum_or vs old =
    let sum = total vs % uint64_mod in if ltb 0 sum && ltb sum int64_half then some sum else old

-- The adding up of the code: the 64-bit sums, and whether there was a reading.
abbrev pub add_all : ℕ → List ℕ → ℕ
add_all s [] = s
add_all s (v ∷ vs) = add_all (add64 s v) vs

abbrev pub flag_all : {A : Type 0} → Bool → List A → Bool
flag_all b [] = b
flag_all b (v ∷ vs) = true

pub add_all_lem :
    (s : ℕ) (vs : List ℕ) → s < uint64_mod → add_all s vs ≡ (s + total vs) % uint64_mod
unfolding add64
add_all_lem s [] h = omega arith
add_all_lem s (v ∷ vs) h = add_all_lem (add64 s v) vs (omega arith) ∙ omega arith

pub add_step :
    (o : Option ℕ) (s : ℕ) (vs : List ℕ) → add_all (add_reading o s) vs ≡ add_all s (present o vs)
add_step none s vs = refl
add_step (some v) s vs = refl

pub flag_step :
    {A : Type 0} (o : Option A) (b : Bool) (vs : List A)
    → flag_all (flag_reading o b) vs ≡ flag_all b (present o vs)
flag_step none b vs = refl
flag_step (some v) b [] = refl
flag_step (some v) b (w ∷ vs) = refl

pub count_step :
    {A : Type 0} (o : Option A) (n : ℕ) (vs : List A)
    → count_reading o n + length vs ≡ n + length (present o vs)
count_step none n vs = refl
count_step (some v) n vs = omega arith

pub positive_sum_lem :
    (vs : List ℕ) (old : Option ℕ)
    → or_else (if is_positive (add_all 0 vs) then some (add_all 0 vs) else none) old
      ≡ positive_sum_or vs old
positive_sum_lem vs old =
    let e : add_all 0 vs ≡ total vs % uint64_mod = add_all_lem 0 vs (omega arith) ∙ omega arith in
    rw e (ground arith)

pub sum_lem :
    (vs : List ℕ) (old : Option ℕ)
    → or_else (if flag_all false vs then some (add_all 0 vs) else none) old ≡ sum_or vs old
sum_lem [] old = refl
sum_lem (v ∷ vs) old = ap some (add_all_lem 0 (v ∷ vs) (omega arith) ∙ omega arith)

module _ {R : Type 0} (fl : Float64 R) where
  open fl use {zero_float, plus, divide, of_int, less}

  -- The sum from the left, as floats are added.
  abbrev pub float_sum : R → List R → R
  float_sum s [] = s
  float_sum s (v ∷ vs) = float_sum (plus s v) vs

  -- The mean, if there is a reading.
  abbrev pub mean_or : List R → Option R → Option R
  mean_or [] old = old
  mean_or (v ∷ vs) old = some (divide (float_sum zero_float (v ∷ vs)) (of_int (length (v ∷ vs))))

  -- The sum, if there is a reading.
  abbrev pub float_sum_or : List R → Option R → Option R
  float_sum_or [] old = old
  float_sum_or (v ∷ vs) old = some (float_sum zero_float (v ∷ vs))

  -- The largest of some readings and a first one.
  abbrev pub largest : R → List R → R
  largest max [] = max
  largest max (v ∷ vs) = largest (if less max v then v else max) vs

  abbrev pub largest_or : List R → Option R → Option R
  largest_or [] old = old
  largest_or (v ∷ vs) old = some (largest zero_float (v ∷ vs))

  pub plus_step :
      (o : Option R) (s : R) (vs : List R)
      → float_sum (plus_reading fl o s) vs ≡ float_sum s (present o vs)
  plus_step none s vs = refl
  plus_step (some v) s vs = refl

  pub hotter_step :
      (o : Option R) (max : R) (vs : List R)
      → largest (hotter fl o max) vs ≡ largest max (present o vs)
  hotter_step none max vs = refl
  hotter_step (some v) max vs = refl

  pub mean_lem :
      (vs : List R) (old : Option R)
      → or_else (average fl (float_sum zero_float vs) (0 + length vs)) old ≡ mean_or vs old
  mean_lem [] old = refl
  mean_lem (v ∷ vs) old = ground arith

  pub largest_lem :
      (vs : List R) (old : Option R)
      → or_else (if flag_all false vs then some (largest zero_float vs) else none) old
        ≡ largest_or vs old
  largest_lem [] old = refl
  largest_lem (v ∷ vs) old = refl

  pub float_sum_lem :
      (vs : List R) (old : Option R)
      → or_else (if flag_all false vs then some (float_sum zero_float vs) else none) old
        ≡ float_sum_or vs old
  float_sum_lem [] old = refl
  float_sum_lem (v ∷ vs) old = refl
