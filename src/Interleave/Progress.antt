-- ===== src/Interleave/Progress.antt =====
-- The steps that a call of `publish` or `consume` in include/Queue.h has left, whatever other
-- threads do to memory between two of them.
use lock_free_spmc_queue_dis.Common.{
  ℕ, suc, ◌+◌, ◌-◌, ◌*◌, ◌<◌, ◌≤◌, ◌≢◌, refl, inl, inr, arith, leb, sub64, Bool-cases, le-cases,
}
use lock_free_spmc_queue_dis.Queue.{Queue, ring_size, max_consumers, slot_index}
use lock_free_spmc_queue_dis.Interleave.{
  ProducerPc, resting, load_active, load_sequence, write_data, writing, store_sequence,
  ProducerMove, begin_fast, begin_slow, skip, notice, take, refuse, accept, tear, settle, stamp,
  ConsumerPc, outside, is_active, expecting, slot_ready, reading, copied, ConsumerMove, inactive,
  enter, load_position, not_ready, see_ready, begin_copy, end_copy, advance_position, unregister,
}

-- The steps that a call of `publish` has left at most.
abbrev pub publish_rank {ℓ} : {T : Type ℓ} → ProducerPc T → ℕ
publish_rank resting = 0
publish_rank (load_active _ _ i _) = 4 + 2 * (max_consumers - i)
publish_rank (load_sequence _ _ i _) = 5 + 2 * (max_consumers - suc i)
publish_rank (write_data _ _) = 3
publish_rank (writing _ _) = 2
publish_rank (store_sequence _ _) = 1

-- The steps that a call of `consume` has left at most.
abbrev pub consume_rank {ℓ} : {T : Type ℓ} → ConsumerPc T → ℕ
consume_rank outside = 0
consume_rank is_active = 5
consume_rank (expecting _) = 4
consume_rank (slot_ready _) = 3
consume_rank (reading _) = 2
consume_rank (copied _ _) = 1

module _ {ℓ} {T : Type ℓ} where
  -- A step exists, and every step goes down.
  pub record Proceeds (q : Queue T) (p : ProducerPc T) : Type ℓ where
    pub able : (q' : Queue T) × (p' : ProducerPc T) × ProducerMove q p q' p'
    pub lower :
        (q' : Queue T) (p' : ProducerPc T)
        → ProducerMove q p q' p'
        → publish_rank p' < publish_rank p
    pub bounded : publish_rank p ≤ 2 * max_consumers + 4

  publish_lower :
      {q q' : Queue T} {p p' : ProducerPc T}
      → p ≢ resting
      → ProducerMove q p q' p'
      → publish_rank p' < publish_rank p
  publish_lower ne (begin_fast item e) = absurd (ne refl)
  publish_lower ne (begin_slow item e) = absurd (ne refl)
  publish_lower ne (skip h e) = omega arith
  publish_lower ne (notice h e) = omega arith
  publish_lower ne take = omega arith
  publish_lower ne (refuse out e) = omega arith
  publish_lower ne (accept out e) = omega arith
  publish_lower ne (tear junk) = omega arith
  publish_lower ne settle = omega arith
  publish_lower ne stamp = omega arith

  publish_bounded : (p : ProducerPc T) → publish_rank p ≤ 2 * max_consumers + 4
  publish_bounded p = ground arith

  publish_able :
      (q : Queue T) (p : ProducerPc T)
      → p ≢ resting
      → (q' : Queue T) × (p' : ProducerPc T) × ProducerMove q p q' p'
  publish_able q resting ne = absurd (ne refl)
  publish_able q (load_active item s i m) ne = elim (le-cases max_consumers i) [
    | inl out ↦ elim (Bool-cases (leb ring_size (sub64 s m))) [
      | inl full ↦ (_, _, refuse out full)
      | inr free ↦ (_, _, accept out free)
    ]
    | inr h ↦ elim (Bool-cases (q.consumers i).active) [
      | inl a ↦ (_, _, notice h a)
      | inr a ↦ (_, _, skip h a)
    ]
  ]
  publish_able q (load_sequence item s i m) ne = (_, _, take)
  publish_able q (write_data item s) ne = (_, _, tear item)
  publish_able q (writing item s) ne = (_, _, settle)
  publish_able q (store_sequence item s) ne = (_, _, stamp)

  -- From any point inside `publish`, on any queue, the producer can take a step without another
  -- thread, and every such step lowers a rank that is at most 132, so `publish` waits for no
  -- consumer.
  pub publish_wait_free : (q : Queue T) (p : ProducerPc T) → p ≢ resting → Proceeds q p
  publish_wait_free q p ne = record {
    able = publish_able q p ne;
    lower = λ q' p' m. publish_lower ne m;
    bounded = publish_bounded p;
  }

  pub record Returns (i : ℕ) (q : Queue T) (p : ConsumerPc T) : Type ℓ where
    pub able : (q' : Queue T) × (p' : ConsumerPc T) × ConsumerMove i q p q' p'
    pub lower :
        (q' : Queue T) (p' : ConsumerPc T)
        → ConsumerMove i q p q' p'
        → consume_rank p' < consume_rank p
    pub bounded : consume_rank p ≤ 5

  consume_lower :
      {i : ℕ} {q q' : Queue T} {p p' : ConsumerPc T}
      → p ≢ outside
      → ConsumerMove i q p q' p'
      → consume_rank p' < consume_rank p
  consume_lower ne (inactive e) = absurd (ne refl)
  consume_lower ne (enter e) = absurd (ne refl)
  consume_lower ne load_position = omega arith
  consume_lower ne (not_ready e) = omega arith
  consume_lower ne (see_ready e) = omega arith
  consume_lower ne begin_copy = omega arith
  consume_lower ne end_copy = omega arith
  consume_lower ne advance_position = omega arith
  consume_lower ne unregister = absurd (ne refl)

  consume_able :
      (i : ℕ) (q : Queue T) (p : ConsumerPc T)
      → p ≢ outside
      → (q' : Queue T) × (p' : ConsumerPc T) × ConsumerMove i q p q' p'
  consume_able i q outside ne = absurd (ne refl)
  consume_able i q is_active ne = (_, _, load_position)
  consume_able i q (expecting seq) ne =
      elim (Bool-cases (leb (q.ring (slot_index seq)).sequence seq)) [
        | inl e ↦ (_, _, not_ready e)
        | inr e ↦ (_, _, see_ready e)
      ]
  consume_able i q (slot_ready seq) ne = (_, _, begin_copy)
  consume_able i q (reading seq) ne = (_, _, end_copy)
  consume_able i q (copied seq out) ne = (_, _, advance_position)

  -- From any point inside `consume`, on any queue, a consumer can take a step without another
  -- thread, and every such step lowers a rank or leaves the call, so `consume` waits for no other
  -- thread.
  pub consume_wait_free : (i : ℕ) (q : Queue T) (p : ConsumerPc T) → p ≢ outside → Returns i q p
  consume_wait_free i q p ne = record {
    able = consume_able i q p ne;
    lower = λ q' p' m. consume_lower ne m;
    bounded = ground arith;
  }
