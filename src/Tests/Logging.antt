-- ===== src/Tests/Logging.antt =====
-- A `LoggingConsumer` that is asked for one message of two.
use lock_free_spmc_queue_dis.Common.{ℕ, ◌≡◌, refl, false, some, pos}
use lock_free_spmc_queue_dis.Queue.{
  Queue, fresh, register_consumer, claim, publish, write_slot, slot_index, consume, valid_id,
  read_slot,
}
use lock_free_spmc_queue_dis.Message.{
  Message, add_message, no_counts, Counts, on_message, count_kind,
}
use lock_free_spmc_queue_dis.Message.Tally.{total}
use lock_free_spmc_queue_dis.WaitStrategy.{busy_spin, reset}
use lock_free_spmc_queue_dis.Latency.{record_sample}
use lock_free_spmc_queue_dis.Consumer.{Shared, Local, run, run_loop, reached, handle, attach}
use lock_free_spmc_queue_dis.Consumer.Quiet.{quiet}
use lock_free_spmc_queue_dis.Consumer.Logging.{logging}
use lock_free_spmc_queue_dis.Tests.Program.{counter, blank, small_tracker}

abbrev pub order : Message ℕ
order = add_message 10 (record { order_id = 1; price = 100; quantity = 5 })

abbrev pub two_waiting : Queue (Message ℕ)
two_waiting = (publish blank (publish order (attach (fresh blank)).1).1).1

abbrev pub before_run : Shared (Message ℕ) ℕ
before_run = record { queue = two_waiting; shutdown = false; kernel = 0; clock = 50 }

abbrev before_own : Local Counts ℕ
before_own = record {
  strategy = busy_spin;
  tracker = small_tracker;
  handled = no_counts;
  count = 0;
}

record Ran : Type 0 where
  shared : Shared (Message ℕ) ℕ
  own : Local Counts ℕ
  returns : run counter logging (pos 0) 1 (quiet 3) before_run before_own ≡ some (shared, own)

abbrev one_read : Ran
unfolding run run_loop reached handle reset record_sample fresh register_consumer claim publish
    write_slot slot_index consume valid_id read_slot on_message count_kind
one_read = record { shared = _; own = _; returns = refl }

one_counted : total one_read.own.handled ≡ one_read.own.count
unfolding one_read
one_counted = refl
