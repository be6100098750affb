-- ===== src/Tests/Threads.antt =====
-- Runs of the threads of include/Queue.h in a given order, and the theorems of Interleave there.
use lock_free_spmc_queue_dis.Interleave.Inv.{Delivered, done_of}
use lock_free_spmc_queue_dis.Interleave.Solo.{solo_publish, solo_consume, SoloPublish, SoloConsume}
use lock_free_spmc_queue_dis.Interleave.Progress.{
  publish_wait_free, consume_wait_free, Proceeds, Returns,
}
use lock_free_spmc_queue_dis.Interleave.Safety.{
  no_torn_read, received_in_order, unread_kept, ready_iff,
}
use lock_free_spmc_queue_dis.Common.{
  ℕ, ◌≤◌, ◌≡◌, ◌≢◌, ◌↔◌, refl, inl, false, arith, leb, [], ◌∷◌, pos,
}
use lock_free_spmc_queue_dis.Queue.{
  Queue, slot_index, fresh, register_consumer, claim, publish, consume,
}
use lock_free_spmc_queue_dis.Queue.Inv.{Holds}
use lock_free_spmc_queue_dis.Queue.Consume.{position}
use lock_free_spmc_queue_dis.PubSub.{MayJoin}
use lock_free_spmc_queue_dis.Refine.{view}
use lock_free_spmc_queue_dis.Interleave.{
  System, produce, consume as consumer_step, enroll, Reach, begin, next, expecting, begin_fast,
  tear, settle, stamp, enter, load_position, see_ready, begin_copy, end_copy, advance_position,
  load_active,
}

record Run : Type 0 where
  last : System ℕ
  reach : Reach 0 last

abbrev first_join : MayJoin {T = ℕ} (view (fresh 0) []) 1
first_join = record { positive = omega arith; reached = omega arith; reason = inl refl }

-- Consumer 0 joins at message 1, and the producer publishes 7.
abbrev one_published : Run
unfolding fresh register_consumer claim slot_index
one_published = record {
  last = _;
  reach =
      next
        (next
          (next
            (next (next begin (enroll 0 1 refl first_join refl))
              (produce (omega arith) (begin_fast 7 refl)))
            (produce (omega arith) (tear 99)))
          (produce (omega arith) settle))
        (produce (omega arith) stamp);
}

-- Consumer 0 has loaded its position.
abbrev one_expected : Run
unfolding one_published
one_expected = record {
  last = _;
  reach =
      next (next one_published.reach (consumer_step 0 (omega arith) (enter refl)))
        (consumer_step 0 (omega arith) load_position);
}

-- Consumer 0 copies message 1 while the producer writes message 2.
abbrev overlap : Run
unfolding one_expected
overlap = record {
  last = _;
  reach =
      next
        (next
          (next (next one_expected.reach (consumer_step 0 (omega arith) (see_ready refl)))
            (consumer_step 0 (omega arith) begin_copy))
          (produce (omega arith) (begin_fast 8 refl)))
        (produce (omega arith) (tear 99));
}

-- Consumer 0 has received message 1.
abbrev one_received : Run
unfolding overlap
one_received = record {
  last = _;
  reach =
      next (next overlap.reach (consumer_step 0 (omega arith) end_copy))
        (consumer_step 0 (omega arith) advance_position);
}

received : one_received.last.got 0 ≡ 7 ∷ []
unfolding one_received
received = refl

no_torn_read_example : slot_index 1 ≢ slot_index 2
unfolding overlap
no_torn_read_example = no_torn_read overlap.reach 0 (omega arith) 1 2 8 refl refl

received_in_order_example :
    Delivered one_received.last.log
      (one_received.last.got 0)
      (one_received.last.start 0)
      (position one_received.last.queue 0)
unfolding one_received
received_in_order_example = received_in_order one_received.reach 0 (omega arith) refl

unread_kept_example : Holds (one_published.last.queue.ring (slot_index 1)) one_published.last.log 0
unfolding one_published
unread_kept_example =
    unread_kept one_published.reach 0 (omega arith) 0 refl (omega arith) (omega arith)

ready_iff_example :
    (leb (one_expected.last.queue.ring (slot_index 1)).sequence 1 ≡ false)
    ↔ (1 ≤ done_of one_expected.last)
unfolding one_expected
ready_iff_example = ready_iff one_expected.reach 0 (omega arith) 1 refl

-- Message 7 published, and consumer 0 still to read it.
abbrev sample : Queue ℕ
sample = one_published.last.queue

publish_wait_free_example : Proceeds sample (load_active 8 1024 0 5)
publish_wait_free_example = publish_wait_free sample (load_active 8 1024 0 5) (λ e. cc)

consume_wait_free_example : Returns 0 sample (expecting 1)
consume_wait_free_example = consume_wait_free 0 sample (expecting 1) (λ e. cc)

solo_publish_example : SoloPublish 8 sample (publish 8 sample)
solo_publish_example = solo_publish 8 sample

solo_consume_example : SoloConsume 0 sample (consume (pos 0) sample)
solo_consume_example = solo_consume 0 sample (omega arith)
