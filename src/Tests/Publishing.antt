-- ===== src/Tests/Publishing.antt =====
-- Publishing loops with consumers at work between their rounds, a calibration, and the demo.
use lock_free_spmc_queue_dis.Common.{
  ℕ, ◌+◌, ◌-◌, ◌%◌, ◌≡◌, refl, inl, true, some, List, [], ◌∷◌, ◌==◌, arith, u64_max, ◌^◌, ◌≤◌, ◌⊎◌,
  u64_mod, if◌then◌else◌,
}
use lock_free_spmc_queue_dis.Queue.{
  Queue, ConsumerSlot, no_consumer, fresh, publish, write_slot, slot_index,
}
use lock_free_spmc_queue_dis.Queue.Inv.{InWindow, fresh-Inv}
use lock_free_spmc_queue_dis.Queue.Register.{enrolled, enrolled-Inv}
use lock_free_spmc_queue_dis.Queue.RoundTrip.{Receives, publish-consume}
use lock_free_spmc_queue_dis.Message.{Message}
use lock_free_spmc_queue_dis.WaitStrategy.{new_blocking}
use lock_free_spmc_queue_dis.Calibration.{calibrate_cycles_per_ns}
use lock_free_spmc_queue_dis.Calibration.Readings.{nanoseconds, calibrate_lem}
use lock_free_spmc_queue_dis.Consumer.{Shared}
use lock_free_spmc_queue_dis.Producer.{
  Progress, no_progress, publish_from, publish_notify, run_producer_mode, shut_down, then_shut_down,
}
use lock_free_spmc_queue_dis.Producer.Sequence.{Sends, run_producer_mode-Sends}
use lock_free_spmc_queue_dis.Producer.Pace.{LeavesRoom, Completes, run_producer_mode-Completes}
use lock_free_spmc_queue_dis.Demo.Run.{demo_publish, demo_main}
use lock_free_spmc_queue_dis.Demo.Run.Publishing.{demo_publish-eq-publish_from}
use lock_free_spmc_queue_dis.Demo.Run.Ends.{DemoEnds, demo_main-Ends}
use lock_free_spmc_queue_dis.Tests.Program.{counter, blank, nothing_held, whole, tens}
use lock_free_spmc_queue_dis.Tests.Commands.{untouched}
use mathlib.Core.Option.{map as option_map}

-- Consumer 0 reads all there is, and the others leave.
abbrev one_reader : ℕ → ℕ → ConsumerSlot
one_reader n i = if i == 0 then record { active = true; sequence = n + 1 } else no_consumer

abbrev read_all : Shared (Message ℕ) ℕ → Shared (Message ℕ) ℕ
read_all s = record s { queue = record (s.queue) { consumers = one_reader s.queue.next } }

-- At such a consumer the queue is in order.
caught_up-InWindow :
    (next cached v : ℕ)
    → v ≡ next + 1
    → (cached ≤ next + 1) ⊎ (cached ≡ u64_max)
    → InWindow next cached v
caught_up-InWindow next cached v e c = record {
  positive = omega arith;
  reached = omega arith;
  retained = omega arith;
  guarded = ground (arith, c, e);
}

one_reader-position : (n i : ℕ) → (one_reader n i).active ≡ true → (one_reader n i).sequence ≡ n + 1
one_reader-position n i a = ground (arith, a)

read_all-LeavesRoom : LeavesRoom read_all
read_all-LeavesRoom s log inv = (
  record {
    counted = inv.counted;
    small = inv.small;
    held = inv.held;
    stamped = inv.stamped;
    readers = λ i h a.
        caught_up-InWindow s.queue.next s.queue.min_consumer_seq
          (one_reader s.queue.next i).sequence (one_reader-position s.queue.next i a)
          inv.cache.bounded;
    cache = inv.cache;
  },
  record {
    room = λ i h a. omega (arith, one_reader-position s.queue.next i a);
    someone = (0, omega arith, refl);
  },
)

run_producer_mode-Completes_example : Completes counter (new_blocking 5 1000 100) tens [] 2 (
    run_producer_mode counter (new_blocking 5 1000 100) tens (read_all ∷ read_all ∷ []) 2 untouched)
run_producer_mode-Completes_example =
    run_producer_mode-Completes counter (new_blocking 5 1000 100) tens (read_all ∷ read_all ∷ []) 2
      untouched [] (read_all-LeavesRoom, (read_all-LeavesRoom, tt)) (fresh-Inv blank) (omega arith)
      (omega arith) (omega arith)

abbrev idle : List (Shared (Message ℕ) ℕ → Shared (Message ℕ) ℕ)
idle = (λ s. s) ∷ (λ s. s) ∷ []

record Published : Type 0 where
  progress : Progress
  shared : Shared (Message ℕ) ℕ
  returns :
      run_producer_mode counter (new_blocking 5 1000 100) tens idle 2 untouched
      ≡ some (progress, shared)

abbrev two_published : Published
unfolding run_producer_mode publish_from publish_notify shut_down then_shut_down fresh publish
    write_slot
two_published = record { progress = _; shared = _; returns = refl }

run_producer_mode-Sends_example : Sends tens [] 1 2 two_published.shared
run_producer_mode-Sends_example =
    run_producer_mode-Sends counter (new_blocking 5 1000 100) tens idle 2 two_published.progress
      untouched two_published.shared [] ((λ s log inv. inv), ((λ s log inv. inv), tt))
      (fresh-Inv blank) (omega arith) (omega arith) two_published.returns

-- The nanoseconds go back from one reading to the next, and the counter wraps.
calibrate_lem_example :
    calibrate_cycles_per_ns whole
      ((2 ^ 64 - 5) % u64_mod)
      ((2 ^ 64 + 15) % u64_mod)
      (record { tv_sec = 7; tv_nsec = 999999990 })
      (record { tv_sec = 8; tv_nsec = 0 })
    ≡ whole.over (whole.of_u64 (2 ^ 64 + 15 - (2 ^ 64 - 5))) (
        whole.of_u64 (
          nanoseconds (record { tv_sec = 8; tv_nsec = 0 })
          - nanoseconds (record { tv_sec = 7; tv_nsec = 999999990 })))
calibrate_lem_example =
    calibrate_lem whole (2 ^ 64 - 5) (2 ^ 64 + 15) (record { tv_sec = 7; tv_nsec = 999999990 })
      (record { tv_sec = 8; tv_nsec = 0 }) (omega arith) (omega arith)
      (record { seconds = omega arith; part = omega arith })
      (record { seconds = omega arith; part = omega arith }) (omega arith)

demo_publish-eq-publish_from_example :
    demo_publish counter 5 tens idle 1 2 0 untouched
    ≡ option_map
        (λ r. r.1)
        (publish_from counter (new_blocking 5 1000 100) tens idle 1 2 no_progress untouched)
demo_publish-eq-publish_from_example =
    demo_publish-eq-publish_from counter 5 1000 100 tens idle 1 2 no_progress untouched

demo_main-Ends_example :
    DemoEnds {Name = ℕ} tens 2
      (some 9)
      nothing_held
      (demo_main {Name = ℕ} counter tens 2 idle (λ s. s) blank (some 9) 0 50)
demo_main-Ends_example =
    demo_main-Ends ℕ counter tens 2 idle (λ s. s) ((λ s log inv. inv), ((λ s log inv. inv), tt))
      (λ s log inv. inv) (omega arith) blank (some 9) 0 50 nothing_held

-- Consumer 0 of a new queue.
abbrev joined_first : Queue ℕ
joined_first = enrolled 0 1 (fresh 0)

abbrev one_in : Queue ℕ
one_in = (publish 7 joined_first).1

publish-consume_example : Receives one_in (7 ∷ []) 0 7
unfolding fresh publish write_slot slot_index
publish-consume_example =
    publish-consume 7 0
      (enrolled-Inv (fresh-Inv 0) 0 1 (caught_up-InWindow 0 0 1 refl (inl (omega arith))))
      (omega arith) (omega arith) refl refl refl
