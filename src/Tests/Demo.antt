-- ===== src/Tests/Demo.antt =====
-- A thread of the demo that reads two messages and drains a third.
use lock_free_spmc_queue_dis.Common.{
  ℕ, ◌+◌, ◌==◌, Bool, false, if◌then◌else◌, arith, ◌≡◌, refl, true, some, List, [], ◌∷◌, pos,
}
use lock_free_spmc_queue_dis.Queue.{
  fresh, register_consumer, claim, publish, write_slot, slot_index, consume, valid_id, read_slot,
}
use lock_free_spmc_queue_dis.Message.{Message, no_counts, on_message, count_kind}
use lock_free_spmc_queue_dis.Message.Tally.{total}
use lock_free_spmc_queue_dis.WaitStrategy.{busy_spin, reset, wait_for_data}
use lock_free_spmc_queue_dis.Latency.{record_sample}
use lock_free_spmc_queue_dis.Consumer.{Shared, Turn}
use lock_free_spmc_queue_dis.Consumer.Quiet.{still}
use lock_free_spmc_queue_dis.Demo.{Thread, drain_remaining, thread_loop, consumer_thread}
use lock_free_spmc_queue_dis.Demo.Supplied.{ThreadFinishes, consumer_thread-Finishes}
use lock_free_spmc_queue_dis.Queue.Inv.{Inv}
use lock_free_spmc_queue_dis.Queue.Register.{enrolled}
use lock_free_spmc_queue_dis.Tests.Commands.{untouched, waiting_again}
use lock_free_spmc_queue_dis.Tests.Program.{counter, blank, small_tracker}
use lock_free_spmc_queue_dis.Tests.Logging.{order, before_run}

-- The producer publishes its last message and stops while the thread waits.
abbrev last_turn : Turn (Message ℕ) ℕ
last_turn = record {
  before = λ s. s;
  waiting = λ s. record s { queue = (publish order s.queue).1; shutdown = true };
}

abbrev turns : List (Turn (Message ℕ) ℕ)
turns = still ∷ still ∷ last_turn ∷ still ∷ still ∷ []

abbrev first : Thread ℕ ℕ
first = record {
  strategy = busy_spin;
  tracker = small_tracker;
  result = record { strategy_name = 0; counts = no_counts; total = 0 };
}

record Joined : Type 0 where
  shared : Shared (Message ℕ) ℕ
  thread : Thread ℕ ℕ
  returns : consumer_thread counter (pos 0) 10 6 turns before_run first ≡ some (shared, thread)

abbrev three_read : Joined
unfolding consumer_thread thread_loop drain_remaining reset wait_for_data record_sample fresh
    register_consumer claim publish write_slot slot_index consume valid_id read_slot on_message
    count_kind
three_read = record { shared = _; thread = _; returns = refl }

-- The counters by type fall short of the total by the drained message.
three_read_totals : total three_read.thread.result.counts + 1 ≡ three_read.thread.result.total
unfolding three_read
three_read_totals = refl

-- When `n` messages have been published another thread publishes one more, and sets the flag to
-- `stop`.
abbrev sends_at : ℕ → Bool → Shared (Message ℕ) ℕ → Shared (Message ℕ) ℕ
sends_at n stop s =
    if s.queue.next == n then record s { queue = (publish order s.queue).1; shutdown = stop } else s

-- One message is read in the main loop, and one that comes with the shutdown is drained.
abbrev stopping : List (Turn (Message ℕ) ℕ)
stopping =
    record { before = sends_at 0 false; waiting = λ s. s }
    ∷ record { before = λ s. s; waiting = sends_at 1 true }
    ∷ still
    ∷ still
    ∷ []

abbrev joined_first : Shared (Message ℕ) ℕ
joined_first = record untouched { queue = enrolled 0 1 (fresh blank) }

record Parted : Type 0 where
  shared : Shared (Message ℕ) ℕ
  thread : Thread ℕ ℕ
  returns : consumer_thread counter (pos 0) 10 6 stopping joined_first first ≡ some (shared, thread)

abbrev two_read : Parted
unfolding consumer_thread thread_loop drain_remaining reset wait_for_data record_sample fresh
    publish write_slot slot_index consume valid_id read_slot on_message count_kind
two_read = record { shared = _; thread = _; returns = refl }

consumer_thread-Finishes_example :
    ThreadFinishes counter
      (pos 0)
      2
      (omega arith)
      (λ s. Unit)
      (consumer_thread counter
        (pos 0)
        2
        6
        (waiting_again ∷ waiting_again ∷ waiting_again ∷ [])
        untouched
        first)
unfolding fresh register_consumer claim publish write_slot slot_index consume valid_id read_slot
consumer_thread-Finishes_example =
    consumer_thread-Finishes counter (pos 0) 2 (omega arith) (λ s. Unit) 6
      (waiting_again ∷ waiting_again ∷ waiting_again ∷ []) untouched first
      ((λ s p. (order, refl, tt)), ((λ s p. (order, refl, tt)), ((λ s p. (order, refl, tt)), tt)))
      tt refl (omega arith)
