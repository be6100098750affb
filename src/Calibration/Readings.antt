-- ===== src/Calibration/Readings.antt =====
-- The differences that `calibrate_cycles_per_ns` of include/Utils.h divides.
use lock_free_spmc_queue_dis.Common.{
  ℕ, ◌+◌, ◌-◌, ◌*◌, ◌%◌, ◌<◌, ◌≤◌, ◌≡◌, u64_mod, sub64, add64, arith, ◌∙◌, ap, inl, inr, ◌⊎◌,
}
use lock_free_spmc_queue_dis.Latency.{Doubles}
use lock_free_spmc_queue_dis.Calibration.{Timespec, billion, delta_ns, calibrate_cycles_per_ns}

-- The time since the clock's start, in nanoseconds.
abbrev pub nanoseconds : Timespec → ℕ
nanoseconds t = t.tv_sec * billion + t.tv_nsec

-- What `clock_gettime` gives.
pub record IsTime (t : Timespec) : Type 0 where
  pub seconds : t.tv_sec * billion + billion ≤ u64_mod
  pub part : t.tv_nsec < billion

delta_ns_lem :
    (ts0 ts1 : Timespec)
    → IsTime ts0
    → IsTime ts1
    → nanoseconds ts0 ≤ nanoseconds ts1
    → delta_ns ts0 ts1 ≡ nanoseconds ts1 - nanoseconds ts0
unfolding delta_ns
delta_ns_lem ts0 ts1 v0 v1 le =
    let seconds : sub64 ts1.tv_sec ts0.tv_sec ≡ ts1.tv_sec - ts0.tv_sec =
      omega (arith, v0.part, v1.part, v1.seconds) in
    let product : sub64 ts1.tv_sec ts0.tv_sec * billion % u64_mod
        ≡ (ts1.tv_sec - ts0.tv_sec) * billion =
      omega (arith, seconds, v1.seconds) in
    add_parts (sub64 ts1.tv_nsec ts0.tv_nsec) _ product (omega (arith, v0.part, v1.part))
  where
    add_parts :
        (nanos product : ℕ)
        → product ≡ (ts1.tv_sec - ts0.tv_sec) * billion
        → (nanos + ts0.tv_nsec ≡ ts1.tv_nsec) ⊎ (nanos + ts0.tv_nsec ≡ ts1.tv_nsec + u64_mod)
        → add64 product nanos ≡ nanoseconds ts1 - nanoseconds ts0
    add_parts nanos product e (inl ahead) = omega (arith, v0.part, v1.part, v1.seconds)
    add_parts nanos product e (inr behind) = omega (arith, v0.part, v1.part, v1.seconds)

module _ {ℓ} {Double : Type ℓ} where
  -- For two times of a clock that does not go back, with seconds whose nanoseconds fit in 64 bits,
  -- and two readings of a counter that has moved by less than 2 ^ 64, `calibrate_cycles_per_ns`
  -- divides the true number of ticks by the true number of nanoseconds, also if the counter wraps
  -- or the nanosecond parts go back.
  pub calibrate_lem :
      (double : Doubles Double) (c0 c1 : ℕ) (ts0 ts1 : Timespec)
      → c0 ≤ c1
      → c1 - c0 < u64_mod
      → IsTime ts0
      → IsTime ts1
      → nanoseconds ts0 ≤ nanoseconds ts1
      → calibrate_cycles_per_ns double (c0 % u64_mod) (c1 % u64_mod) ts0 ts1
        ≡ double.over (double.of_u64 (c1 - c0)) (double.of_u64 (nanoseconds ts1 - nanoseconds ts0))
  unfolding calibrate_cycles_per_ns
  calibrate_lem double c0 c1 ts0 ts1 le near v0 v1 later =
      let cycles : sub64 (c1 % u64_mod) (c0 % u64_mod) ≡ c1 - c0 = omega arith in
      ap (λ x. double.over (double.of_u64 x) (double.of_u64 (delta_ns ts0 ts1))) cycles
      ∙ ap (λ x. double.over (double.of_u64 (c1 - c0)) (double.of_u64 x))
          (delta_ns_lem ts0 ts1 v0 v1 later)
