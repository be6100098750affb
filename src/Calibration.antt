-- ===== src/Calibration.antt =====
-- include/Utils.h: how many ticks of the counter there are in a nanosecond. The counter, the clock
-- and the sleep are the machine's: their readings are arguments.
pub mod Readings
use lock_free_spmc_queue_dis.Common.{ℕ, ◌+◌, ◌*◌, ◌%◌, u64_mod, sub64, add64}
use lock_free_spmc_queue_dis.Latency.{Doubles}

-- `timespec`
pub record Timespec : Type 0 where
  pub tv_sec : ℕ
  pub tv_nsec : ℕ

abbrev pub billion : ℕ
billion = 1000000000

-- `delta_ns`: the signed differences become `uint64_t` in the product and the sum.
unfoldable pub delta_ns : Timespec → Timespec → ℕ
delta_ns ts0 ts1 =
    add64 (sub64 ts1.tv_sec ts0.tv_sec * billion % u64_mod) (sub64 ts1.tv_nsec ts0.tv_nsec)

-- `calibrate_cycles_per_ns`
unfoldable pub calibrate_cycles_per_ns {ℓ} :
    {Double : Type ℓ} → Doubles Double → (t0 t1 : ℕ) → (ts0 ts1 : Timespec) → Double
calibrate_cycles_per_ns double t0 t1 ts0 ts1 =
    double.over (double.of_u64 (sub64 t1 t0)) (double.of_u64 (delta_ns ts0 ts1))
