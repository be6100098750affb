-- ===== src/Latency/Percentiles.antt =====
-- The percentiles that `report` of include/LatencyTracker.h prints.
use lock_free_spmc_queue_dis.Common.{
  ℕ, zero, suc, ◌-◌, ◌*◌, ◌/◌, ◌<◌, ◌≤◌, ◌≡◌, refl, some, List, [], ◌∷◌, arith, length, get_elem?,
  u64_mod, ap, ◌∙◌,
}
use lock_free_spmc_queue_dis.Latency.{
  Tracker, Doubles, Statistics, printed, sort, percent_index, to_us, average, statistics, report,
  printed_or_not,
}
use lock_free_spmc_queue_dis.Latency.Sorting.{
  sort-Sorted, length-sort, count_le, count_lt, count_le-sort, count_lt-sort, Sorted-mono,
  Sorted-rank,
}

get_elem?-some : (xs : List ℕ) (i : ℕ) → i < length xs → (x : ℕ) × (get_elem? xs i ≡ some x)
get_elem?-some [] i h = absurd (omega arith)
get_elem?-some (x ∷ xs) zero h = (x, refl)
get_elem?-some (x ∷ xs) (suc i) h = get_elem?-some xs i (omega arith)

-- Sample `v` has rank `i` in the samples: more than `i` are at or below it, at most `i` below.
pub record HasRank (samples : List ℕ) (i v : ℕ) : Type 0 where
  pub at_or_below : i < count_le v samples
  pub below : count_lt v samples ≤ i

sort-HasRank : (xs : List ℕ) (i v : ℕ) → get_elem? (sort xs) i ≡ some v → HasRank xs i v
sort-HasRank xs i v e =
    let r = Sorted-rank (sort xs) i v (sort-Sorted xs) e in
    record {
      at_or_below = omega (arith, r.0, count_le-sort v xs);
      below = omega (arith, r.1, count_lt-sort v xs);
    }

-- The entry of the sorted samples at an index inside them, with its rank.
sort-entry :
    (xs : List ℕ) (i : ℕ)
    → i < length xs
    → (v : ℕ) × (get_elem? (sort xs) i ≡ some v) × HasRank xs i v
sort-entry xs i h =
    let (v, e) = get_elem?-some (sort xs) i (omega (arith, length-sort xs)) in
    (v, e, sort-HasRank xs i v e)

-- Four values with the ranks that a report is to show.
pub record Percentiles (samples : List ℕ) : Type 0 where
  pub p50 : ℕ
  pub p95 : ℕ
  pub p99 : ℕ
  pub max : ℕ
  pub rank50 : HasRank samples (length samples * 50 / 100) p50
  pub rank95 : HasRank samples (length samples * 95 / 100) p95
  pub rank99 : HasRank samples (length samples * 99 / 100) p99
  pub rank_max : HasRank samples (length samples - 1) max
  pub rising : (p50 ≤ p95) × (p95 ≤ p99) × (p99 ≤ max)

module _ {ℓ} {Double : Type ℓ} (double : Doubles Double) where
  abbrev tracker : List ℕ → ℕ → Double → Tracker Double
  tracker samples capacity cycles_per_ns = record {
    samples = samples;
    capacity = capacity;
    cycles_per_ns = cycles_per_ns;
  }

  abbrev pub shown : (t : Tracker Double) → Percentiles t.samples → Statistics Double
  shown t p = record {
    avg = to_us double t (average double (sort t.samples));
    p50 = to_us double t p.p50;
    p95 = to_us double t p.p95;
    p99 = to_us double t p.p99;
    max = to_us double t p.max;
  }

  statistics_at :
      (t : Tracker Double) (sorted : List ℕ) (p50 p95 p99 top : ℕ)
      → get_elem? sorted (percent_index (length sorted) 50) ≡ some p50
      → get_elem? sorted (percent_index (length sorted) 95) ≡ some p95
      → get_elem? sorted (percent_index (length sorted) 99) ≡ some p99
      → get_elem? sorted (length sorted - 1) ≡ some top
      → statistics double t sorted
        ≡ some (record {
          avg = to_us double t (average double sorted);
          p50 = to_us double t p50;
          p95 = to_us double t p95;
          p99 = to_us double t p99;
          max = to_us double t top;
        })
  statistics_at t sorted p50 p95 p99 top e f g h = rw (e, f, g, h) refl

  statistics-Percentiles :
      (t : Tracker Double)
      → 0 < length t.samples
      → length t.samples * 100 < u64_mod
      → (p : Percentiles t.samples) × (statistics double t (sort t.samples) ≡ some (shown t p))
  statistics-Percentiles t h small =
      let n : ℕ = length t.samples in
      let len = length-sort t.samples in
      let (p50, e50, r50) = sort-entry t.samples (n * 50 / 100) (omega arith) in
      let (p95, e95, r95) = sort-entry t.samples (n * 95 / 100) (omega arith) in
      let (p99, e99, r99) = sort-entry t.samples (n * 99 / 100) (omega arith) in
      let (top, e_top, r_top) = sort-entry t.samples (n - 1) (omega arith) in
      let i50 : percent_index n 50 ≡ n * 50 / 100 = omega arith in
      let i95 : percent_index n 95 ≡ n * 95 / 100 = omega arith in
      let i99 : percent_index n 99 ≡ n * 99 / 100 = omega arith in
      let s = sort-Sorted t.samples in
      let sorted : List ℕ = sort t.samples in
      let l50 : get_elem? sorted (percent_index (length sorted) 50) ≡ some p50 =
        ap (λ i. get_elem? sorted i) (ap (λ m. percent_index m 50) len ∙ i50) ∙ e50 in
      let l95 : get_elem? sorted (percent_index (length sorted) 95) ≡ some p95 =
        ap (λ i. get_elem? sorted i) (ap (λ m. percent_index m 95) len ∙ i95) ∙ e95 in
      let l99 : get_elem? sorted (percent_index (length sorted) 99) ≡ some p99 =
        ap (λ i. get_elem? sorted i) (ap (λ m. percent_index m 99) len ∙ i99) ∙ e99 in
      let l_top : get_elem? sorted (length sorted - 1) ≡ some top =
        ap (λ m. get_elem? sorted (m - 1)) len ∙ e_top in
      (
        record {
          p50 = p50;
          p95 = p95;
          p99 = p99;
          max = top;
          rank50 = r50;
          rank95 = r95;
          rank99 = r99;
          rank_max = r_top;
          rising = (
            Sorted-mono (sort t.samples) (n * 50 / 100) (n * 95 / 100) p50 p95 s (omega arith) e50
                e95,
            Sorted-mono (sort t.samples) (n * 95 / 100) (n * 99 / 100) p95 p99 s (omega arith) e95
                e99,
            Sorted-mono (sort t.samples) (n * 99 / 100) (n - 1) p99 top s (omega arith) e99 e_top,
          );
        },
        statistics_at t sorted p50 p95 p99 top l50 l95 l99 l_top,
      )

  printed_at :
      (samples : List ℕ) (capacity : ℕ) (cycles_per_ns : Double) (s : Statistics Double)
      → 0 < length samples
      → statistics double (tracker samples capacity cycles_per_ns) (sort samples) ≡ some s
      → report double (tracker samples capacity cycles_per_ns) ≡ printed (length samples) s
  unfolding report printed_or_not
  printed_at [] capacity cycles_per_ns s h e = absurd (omega arith)
  printed_at (x ∷ xs) capacity cycles_per_ns s h e = rw (e, length-sort (x ∷ xs)) refl

  -- For a tracker with samples, fewer than 2 ^ 64 / 100, `report` indexes no element outside them,
  -- and what it prints as p50, p95, p99 and max are samples `v` with the rank that the percentage
  -- asks for (more than that many samples at or below `v`, at most that many below), in ascending
  -- order.
  pub report_lem :
      (t : Tracker Double)
      → 0 < length t.samples
      → length t.samples * 100 < u64_mod
      → (p : Percentiles t.samples) × (report double t ≡ printed (length t.samples) (shown t p))
  report_lem t h small =
      let (p, e) = statistics-Percentiles t h small in
      (p, printed_at t.samples t.capacity t.cycles_per_ns (shown t p) h e)
