-- ===== src/Tests/Entry.antt =====
-- Runs of the threads of include/Queue.h in which a consumer is registering, and the theorems of
-- Interleave.Entry there.
use lock_free_spmc_queue_dis.Common.{
  ℕ, ◌≡◌, ◌≢◌, refl, inl, arith, [], ◌∷◌, some, pos, update, true,
}
use lock_free_spmc_queue_dis.Queue.{
  no_consumer, Queue, slot_index, fresh, publish, publish_slow, scan_min, write_slot, read_slot,
  valid_id, consume as consume_call,
}
use lock_free_spmc_queue_dis.Queue.Inv.{Holds}
use lock_free_spmc_queue_dis.Queue.Consume.{position}
use lock_free_spmc_queue_dis.Interleave.{
  begin_fast, tear, settle, stamp, enter, load_position, see_ready, begin_copy, end_copy,
  advance_position, set_position,
}
use lock_free_spmc_queue_dis.Interleave.Inv.{Delivered}
use lock_free_spmc_queue_dis.Interleave.Entry.{
  Crowd, MayEnter, EntryReach, produce, consume, win_slot, set_start, gathered, begin, next,
}
use lock_free_spmc_queue_dis.Interleave.Entry.Safety.{
  entry_no_torn_read, entry_received_in_order, entry_unread_kept,
}

record Entry : Type 0 where
  last : Crowd ℕ
  reach : EntryReach 0 last

abbrev first_entry : MayEnter {T = ℕ} (gathered 0) 0 1
unfolding fresh
first_entry = record {
  positive = omega arith;
  reached = omega arith;
  left_behind = omega arith;
  reason = inl (omega arith);
}

-- Consumer 0 wins its slot, the producer publishes 7, and consumer 0 stores its start.
abbrev late_start : Entry
unfolding fresh slot_index
late_start = record {
  last = _;
  reach =
      next
        (next
          (next
            (next
              (next (next begin (win_slot 0 1 (omega arith) refl first_entry))
                (produce (omega arith) (begin_fast 7 refl)))
              (produce (omega arith) (tear 99)))
            (produce (omega arith) settle))
          (produce (omega arith) stamp))
        (set_start 0 refl);
}

-- Consumer 0 copies message 1 while the producer writes message 2.
abbrev late_overlap : Entry
unfolding late_start
late_overlap = record {
  last = _;
  reach =
      next
        (next
          (next
            (next
              (next (next late_start.reach (consume 0 (omega arith) refl (enter refl)))
                (consume 0 (omega arith) refl load_position))
              (consume 0 (omega arith) refl (see_ready refl)))
            (consume 0 (omega arith) refl begin_copy))
          (produce (omega arith) (begin_fast 8 refl)))
        (produce (omega arith) (tear 99));
}

-- Consumer 0 has received message 1.
abbrev late_received : Entry
unfolding late_overlap
late_received = record {
  last = _;
  reach =
      next (next late_overlap.reach (consume 0 (omega arith) refl end_copy))
        (consume 0 (omega arith) refl advance_position);
}

late_got : late_received.last.system.got 0 ≡ 7 ∷ []
unfolding late_received
late_got = refl

entry_no_torn_read_example : slot_index 1 ≢ slot_index 2
unfolding late_overlap
entry_no_torn_read_example = entry_no_torn_read late_overlap.reach 0 (omega arith) 1 2 8 refl refl

entry_received_in_order_example :
    Delivered late_received.last.system.log
      (late_received.last.system.got 0)
      (late_received.last.system.start 0)
      (position late_received.last.system.queue 0)
unfolding late_received
entry_received_in_order_example =
    entry_received_in_order late_received.reach 0
      (record { in_range = omega arith; active = refl; stored = refl })

entry_unread_kept_example :
    Holds (late_start.last.system.queue.ring (slot_index 1)) late_start.last.system.log 0
unfolding late_start
entry_unread_kept_example =
    entry_unread_kept late_start.reach 0
      (record { in_range = omega arith; active = refl; stored = refl }) 0 (omega arith)
      (omega arith)

-- Slot 0 is won by a registration at 1 while it still has the position 900 of an earlier consumer,
-- with the producer at the end of its first lap.
abbrev half_joined : Queue ℕ
half_joined = record (fresh 0) {
  next = 1023;
  consumers = update (λ _. no_consumer) 0 (record { active = true; sequence = 900 });
}

abbrev after_two : Queue ℕ
unfolding publish publish_slow scan_min write_slot fresh slot_index
after_two = (publish 1025 (publish 1024 half_joined).1).1

-- Without `left_behind` the start is too late: the producer has already overwritten message 1.
overtaken : (consume_call (pos 0) (set_position 0 1 after_two)).0 ≡ some 1025
unfolding consume_call valid_id read_slot after_two slot_index fresh
overtaken = refl
