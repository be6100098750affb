-- ===== src/Tests/Joining.antt =====
-- Consumer mode of src/main.cpp with a second consumer that joins while it runs.
use lock_free_spmc_queue_dis.Common.{
  ℕ, if◌then◌else◌, ◌==◌, ◌++◌, ◌≡◌, refl, true, false, List, ◌∷◌,
}
use lock_free_spmc_queue_dis.Queue.{
  Queue, fresh, register_consumer, claim, publish, write_slot, slot_index, consume, valid_id,
  read_slot, unregister_consumer,
}
use lock_free_spmc_queue_dis.Queue.Inv.{Inv}
use lock_free_spmc_queue_dis.Message.{Message, on_message, count_kind}
use lock_free_spmc_queue_dis.WaitStrategy.{reset, wait_for_data}
use lock_free_spmc_queue_dis.Latency.{record_sample, report}
use lock_free_spmc_queue_dis.SharedMemory.{construct, destruct, Call}
use lock_free_spmc_queue_dis.Endpoint.{construct_consumer, destroy_consumer}
use lock_free_spmc_queue_dis.Consumer.{Shared, Turn, run, run_loop, reached, handle}
use lock_free_spmc_queue_dis.Main.{eq_bytes}
use lock_free_spmc_queue_dis.Main.Modes.{
  Summary, finished, run_consumer_mode, choose_strategy, block_name,
}
use lock_free_spmc_queue_dis.Tests.Program.{counter, whole}
use lock_free_spmc_queue_dis.Tests.Commands.{turns, untouched, system}

-- Another consumer registers, as long as nothing has been published.
abbrev join_early : Shared (Message ℕ) ℕ → Shared (Message ℕ) ℕ
join_early s = if s.queue.next == 0 then record s { queue = (register_consumer 1 s.queue).1 } else s

-- The queue of `q`, with consumer `i`'s slot as it is there and the same log.
abbrev Leaves : ℕ → List (Message ℕ) → Queue (Message ℕ) → Queue (Message ℕ) → Type 0
Leaves i log q q' =
    (more : List (Message ℕ)) × Inv q' (log ++ more) × (q'.consumers i ≡ q.consumers i)

-- The second consumer joins after the first, then the producer publishes.
abbrev joining : List (Turn (Message ℕ) ℕ)
joining = record { before = join_early; waiting = λ s. s } ∷ turns

record Reported : Type 0 where
  calls : List (Call ℕ)
  shared : Shared (Message ℕ) ℕ
  summary : Summary ℕ
  ends :
      run_consumer_mode counter system 8 0 whole 1 1 joining block_name untouched
      ≡ (calls, shared, finished summary)

abbrev one_reported : Reported
unfolding run_consumer_mode choose_strategy eq_bytes construct_consumer construct destruct
    destroy_consumer run run_loop reached handle reset wait_for_data record_sample fresh
    register_consumer claim publish write_slot slot_index consume valid_id read_slot on_message
    count_kind unregister_consumer report
one_reported = record { calls = _; shared = _; summary = _; ends = refl }

-- The second consumer has not read anything, and is there when the first is gone.
second_left : one_reported.shared.queue.consumers 1 ≡ record { active = true; sequence = 1 }
unfolding one_reported
second_left = refl

first_left : (one_reported.shared.queue.consumers 0).active ≡ false
unfolding one_reported
first_left = refl
