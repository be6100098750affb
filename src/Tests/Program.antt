-- ===== src/Tests/Program.antt =====
-- The parts around the queue on concrete inputs: messages, strategies, trackers, segments, and the
-- loops of consumer and producer.
use lock_free_spmc_queue_dis.Common.{
  ℕ, ◌+◌, ◌-◌, ◌/◌, ◌≡◌, ◌↔◌, refl, true, false, arith, List, [], ◌∷◌, ◌++◌, none, some, pos, take,
  drop, get_elem?, ltb,
}
use lock_free_spmc_queue_dis.Queue.{
  fresh, register_consumer, claim, publish, write_slot, slot_index,
}
use lock_free_spmc_queue_dis.Queue.Consume.{position}
use lock_free_spmc_queue_dis.Refine.{run as run_calls, perform}
use lock_free_spmc_queue_dis.SharedMemory.{Answers, construct}
use lock_free_spmc_queue_dis.SharedMemory.Release.{
  Held, Releases, Names, all_calls, MovedReleases, construct-Releases, construct-move-Releases,
}
use lock_free_spmc_queue_dis.Message.{
  Message, add, trade, delete, add_message, delete_message, no_counts,
}
use lock_free_spmc_queue_dis.Message.Tally.{
  Tallied, of_kind, on_messages, on_messages-Tallied, total,
}
use lock_free_spmc_queue_dis.WaitStrategy.{EventFd, yielding, blocking, busy_spin, paused, polled}
use lock_free_spmc_queue_dis.WaitStrategy.Phases.{Spins, waits, waits-Spins}
use lock_free_spmc_queue_dis.WaitStrategy.Wakeups.{Semaphore, notifies, waits-notifies}
use lock_free_spmc_queue_dis.Latency.{Tracker, Doubles, report, printed}
use lock_free_spmc_queue_dis.Latency.Recording.{record_all, record_all_lem}
use lock_free_spmc_queue_dis.Latency.Percentiles.{Percentiles, shown, report_lem}
use lock_free_spmc_queue_dis.Consumer.{Shared, Local, Handler, run}
use lock_free_spmc_queue_dis.Consumer.Account.{Accounted, run-Accounted}
use lock_free_spmc_queue_dis.Consumer.Quiet.{quiet, quota, Handled, run-Handled}
use lock_free_spmc_queue_dis.Producer.{
  Prices, Progress, publish_from, publish_notify, run_producer_mode, then_shut_down, shut_down,
}
use lock_free_spmc_queue_dis.Producer.Counting.{run_producer_mode-total}
use lock_free_spmc_queue_dis.Tests.Calls.{waiting, waiting-Inv}

-- An eventfd as a bare counter.
abbrev pub counter : EventFd ℕ
counter = record {
  poll = λ fd timeout k. (ltb 0 k, k);
  read = λ fd k. k - 1;
  write = λ fd k. k + 1;
}

abbrev counter-Semaphore : Semaphore counter 5
counter-Semaphore = record {
  level = λ k. k;
  level-poll = λ timeout k. refl;
  poll-level = λ timeout k. refl;
  level-read = λ k h. omega arith;
  level-write = λ k. refl;
}

abbrev no_eventfd : Answers
no_eventfd = record { shm_open = some 3; ftruncate = true; mmap = some 4096; eventfd = none }

abbrev pub nothing_held : Held
nothing_held = record { fds = []; maps = []; linked = false }

construct-Releases_example :
    Releases {Name = ℕ} true nothing_held (construct no_eventfd 67712 7 true)
    × Names {Name = ℕ} 7 (all_calls {Name = ℕ} (construct no_eventfd 67712 7 true))
construct-Releases_example = construct-Releases no_eventfd 67712 7 true nothing_held

abbrev all_open : Answers
all_open = record { shm_open = some 3; ftruncate = true; mmap = some 4096; eventfd = some 3 }

construct-move-Releases_example :
    MovedReleases {Name = ℕ} 0 nothing_held (construct all_open 67712 7 true)
construct-move-Releases_example = construct-move-Releases all_open 67712 7 0 true nothing_held

abbrev two_messages : List (Message ℕ)
two_messages =
    add_message 10 (record { order_id = 1; price = 100; quantity = 5 })
    ∷ delete_message 20 (record { order_id = 1 })
    ∷ []

on_messages-Tallied_example :
    Tallied
      (of_kind add two_messages)
      (of_kind trade two_messages)
      (of_kind delete two_messages)
      no_counts
      (on_messages two_messages no_counts)
on_messages-Tallied_example = on_messages-Tallied two_messages no_counts (omega arith)

waits-Spins_example :
    (get_elem? (waits counter 5 (yielding 3 0) 0).0 3 ≡ some paused) ↔ Spins (yielding 3 0) 3
waits-Spins_example = waits-Spins counter 5 (yielding 3 0) 0 (omega arith) 3 (omega arith)

waits-notifies_example :
    get_elem?
      (waits counter 4
        (blocking 5 3 100 3)
        (notifies counter 5 counter-Semaphore 2 (blocking 5 3 100 3) 0)).0
      2
    ≡ some (polled (ltb 2 2))
waits-notifies_example =
    waits-notifies counter 5 counter-Semaphore 2 4 3 100 3 0 (omega arith) 2 (omega arith)

abbrev pub small_tracker : Tracker ℕ
small_tracker = record { samples = 5 ∷ []; capacity = 2; cycles_per_ns = 1 }

record_all_lem_example :
    record_all (3 ∷ 9 ∷ []) small_tracker
    ≡ record small_tracker { samples = (5 ∷ []) ++ take 1 (3 ∷ 9 ∷ []) }
record_all_lem_example = record_all_lem (3 ∷ 9 ∷ []) small_tracker

abbrev pub whole : Doubles ℕ
whole = record {
  zero = 0;
  thousand = 1000;
  of_u64 = λ n. n;
  to_u64 = λ n. n;
  plus = λ a b. a + b;
  over = λ a b. a / b;
}

abbrev three_samples : Tracker ℕ
three_samples = record { samples = 5 ∷ 3 ∷ 9 ∷ []; capacity = 4; cycles_per_ns = 1 }

report_lem_example :
    (p : Percentiles (5 ∷ 3 ∷ 9 ∷ [])) × (report whole three_samples
      ≡ printed 3 (shown whole three_samples p))
report_lem_example = report_lem whole three_samples (omega arith) (omega arith)

abbrev keep_all : Handler ℕ (List ℕ)
keep_all = record { timestamp_ns = λ m. m; on_message = λ m ms. ms ++ m ∷ [] }

abbrev finished : Shared ℕ ℕ
finished = record { queue = waiting; shutdown = true; kernel = 0; clock = 50 }

abbrev started : Local (List ℕ) ℕ
started = record { strategy = busy_spin; tracker = small_tracker; handled = []; count = 0 }

run-Handled_example :
    Handled counter keep_all 0
      (quota 0 0 (drop (position waiting 0 - 1) (7 ∷ 8 ∷ [])))
      started
      (run counter keep_all (pos 0) 0 (quiet 5) finished started)
unfolding run_calls perform fresh register_consumer claim publish write_slot slot_index
run-Handled_example =
    run-Handled counter keep_all 0 5 0 finished started waiting-Inv (omega arith) refl refl
      (omega arith)

abbrev outcome :
    Handled counter keep_all 0
      (quota 0 0 (drop (position waiting 0 - 1) (7 ∷ 8 ∷ [])))
      started
      (run counter keep_all (pos 0) 0 (quiet 5) finished started)
unfolding run_calls perform fresh register_consumer claim publish write_slot slot_index
outcome =
    run-Handled counter keep_all 0 5 0 finished started waiting-Inv (omega arith) refl refl
      (omega arith)

run-Accounted_example : Accounted keep_all (record started { count = 0 }) outcome.own
run-Accounted_example =
    run-Accounted keep_all counter (pos 0) 0 (quiet 5) finished outcome.shared started outcome.own
      outcome.returns

abbrev pub tens : Prices ℕ
tens = record { add_price = λ i. 101 + i; trade_price = λ i. 100 + i }

abbrev pub blank : Message ℕ
blank = delete_message 0 (record { order_id = 0 })

abbrev unread : Shared (Message ℕ) ℕ
unread = record { queue = fresh blank; shutdown = false; kernel = 0; clock = 50 }

abbrev idle : List (Shared (Message ℕ) ℕ → Shared (Message ℕ) ℕ)
idle = (λ s. s) ∷ (λ s. s) ∷ []

record Produced : Type 0 where
  progress : Progress
  shared : Shared (Message ℕ) ℕ
  returns :
      run_producer_mode counter (blocking 5 3 100 0) tens idle 2 unread ≡ some (progress, shared)

abbrev two_produced : Produced
unfolding run_producer_mode publish_from publish_notify shut_down then_shut_down fresh publish
    write_slot
two_produced = record { progress = _; shared = _; returns = refl }

run_producer_mode-total_example :
    (total two_produced.progress.counts ≡ 2) × (two_produced.shared.shutdown ≡ true)
run_producer_mode-total_example =
    run_producer_mode-total counter (blocking 5 3 100 0) tens idle 2 unread two_produced.shared
      two_produced.progress (omega arith) two_produced.returns
