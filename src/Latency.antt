-- ===== src/Latency.antt =====
-- include/LatencyTracker.h: the samples of a consumer, and the percentiles it reports.
pub mod Sorting
pub mod Recording
pub mod Percentiles
use lock_free_spmc_queue_dis.Common.{
  ℕ, ◌-◌, ◌*◌, ◌/◌, ◌%◌, Option, none, some, List, [], ◌∷◌, ◌++◌, ltb, leb, length, get_elem?,
  if◌then◌else◌, u64_mod, ◌>>=◌,
}

-- `LatencyTracker`; the buffer does not grow, so its capacity is that of the constructor.
pub record Tracker {ℓ} (Double : Type ℓ) : Type ℓ where
  pub samples : List ℕ
  pub capacity : ℕ
  pub cycles_per_ns : Double

-- The arithmetic on `double` that a report does.
pub record Doubles {ℓ} (Double : Type ℓ) : Type ℓ where
  pub zero : Double
  pub thousand : Double
  pub of_u64 : ℕ → Double
  pub to_u64 : Double → ℕ
  pub plus : Double → Double → Double
  pub over : Double → Double → Double

-- The values that a report prints.
pub record Statistics {ℓ} (A : Type ℓ) : Type ℓ where
  pub avg : A
  pub p50 : A
  pub p95 : A
  pub p99 : A
  pub max : A

-- What `report` does; `out_of_range` is an index outside the sorted samples.
pub data Report {ℓ} (A : Type ℓ) : Type ℓ where
  no_samples : Report A
  out_of_range : Report A
  printed : (n : ℕ) → Statistics A → Report A

-- `std::sort`, by insertion.
abbrev pub insert : ℕ → List ℕ → List ℕ
insert x [] = x ∷ []
insert x (y ∷ ys) = if leb x y then x ∷ y ∷ ys else (y ∷ insert x ys)

abbrev pub sort : List ℕ → List ℕ
sort [] = []
sort (x ∷ xs) = insert x (sort xs)

-- `n * percent / 100` on `size_t`
abbrev pub percent_index : ℕ → ℕ → ℕ
percent_index n percent = n * percent % u64_mod / 100

module _ {ℓ} {Double : Type ℓ} where
  -- The constructor, with the capacity that `reserve` gives.
  abbrev pub new_tracker : ℕ → Double → Tracker Double
  new_tracker capacity cycles_per_ns = record {
    samples = [];
    capacity = capacity;
    cycles_per_ns = cycles_per_ns;
  }

  -- `record`
  unfoldable pub record_sample : ℕ → Tracker Double → Tracker Double
  record_sample cycles t =
      if ltb (length t.samples) t.capacity
      then record t { samples = t.samples ++ cycles ∷ [] }
      else t

  -- `count`
  abbrev pub count : Tracker Double → ℕ
  count t = length t.samples

  module _ (double : Doubles Double) where
    -- `to_us`
    abbrev pub to_us : Tracker Double → ℕ → Double
    to_us t cycles =
        double.over (double.over (double.of_u64 cycles) t.cycles_per_ns) double.thousand

    abbrev pub sum_samples : List ℕ → Double → Double
    sum_samples [] avg = avg
    sum_samples (s ∷ ss) avg = sum_samples ss (double.plus avg (double.of_u64 s))

    -- The average, as it is truncated for printing.
    abbrev pub average : List ℕ → ℕ
    average sorted =
        double.to_u64 (double.over (sum_samples sorted double.zero) (double.of_u64 (length sorted)))

    -- The values of a report; none if an index is outside the sorted samples.
    abbrev pub statistics : Tracker Double → List ℕ → Option (Statistics Double)
    statistics t sorted = do
      let n : ℕ = length sorted
      p50 ← get_elem? sorted (percent_index n 50)
      p95 ← get_elem? sorted (percent_index n 95)
      p99 ← get_elem? sorted (percent_index n 99)
      max ← get_elem? sorted (n - 1)
      some (record {
        avg = to_us t (average sorted);
        p50 = to_us t p50;
        p95 = to_us t p95;
        p99 = to_us t p99;
        max = to_us t max;
      })

    printed_or_not : ℕ → Option (Statistics Double) → Report Double
    printed_or_not n none = out_of_range
    printed_or_not n (some s) = printed n s

    -- `report`
    unfoldable pub report : Tracker Double → Report Double
    unfolding printed_or_not
    report t = elim t.samples [
      | [] ↦ no_samples
      | x ∷ xs ↦ printed_or_not (length (sort (x ∷ xs))) (statistics t (sort (x ∷ xs)))
    ]
