-- ===== src/Queue/Consume.antt =====
-- `consume` of include/Queue.h on a queue that keeps its invariant.
use lock_free_spmc_queue_dis.Common.{
  ℕ, ◌+◌, ◌-◌, ◌<◌, ◌≤◌, ◌≡◌, inl, inr, true, false, none, some, List, arith, get_elem?, pos,
  negsuc, update, eq-cases, subst, ==_self, lt→ltb,
}
use lock_free_spmc_queue_dis.Queue.{Queue, max_consumers, slot_index, read_slot, consume, valid_id}
use lock_free_spmc_queue_dis.Queue.Inv.{Holds, InWindow, Inv}

module _ {ℓ} {T : Type ℓ} where
  abbrev pub position : Queue T → ℕ → ℕ
  position q i = (q.consumers i).sequence

  -- The queue after consumer `i` has taken a message.
  abbrev pub advance : ℕ → Queue T → Queue T
  advance i q = record q {
    consumers =
        update q.consumers i (record (q.consumers i) { sequence = (q.consumers i).sequence + 1 });
  }

  pub consume_inactive :
      (i : ℕ) (q : Queue T) → (q.consumers i).active ≡ false → consume (pos i) q ≡ (none, q)
  unfolding consume valid_id
  consume_inactive i q a = ground arith

  pub consume_out_of_range :
      (i : ℕ) (q : Queue T) → max_consumers ≤ i → consume (pos i) q ≡ (none, q)
  unfolding consume valid_id
  consume_out_of_range i q h = ground arith

  pub consume_negative : (n : ℕ) (q : Queue T) → consume (negsuc n) q ≡ (none, q)
  unfolding consume valid_id
  consume_negative n q = ground arith

  pub consume_active :
      (i : ℕ) (q : Queue T)
      → i < max_consumers
      → (q.consumers i).active ≡ true
      → consume (pos i) q ≡ read_slot i q
  unfolding consume valid_id
  consume_active i q h a = rw (lt→ltb i max_consumers h, a)

  module _ {q : Queue T} {log : List T} (inv : Inv q log) (i : ℕ) (h : i < max_consumers)
      (a : (q.consumers i).active ≡ true) where
    window : InWindow q.next q.min_consumer_seq (position q i)
    window = inv.readers i h a

    pub reader_slot :
        position q i ≤ q.next → Holds (q.ring (slot_index (position q i))) log (position q i - 1)
    reader_slot r =
        let back : position q i - 1 + 1 ≡ position q i = omega (arith, window.positive) in
        subst (λ s. Holds (q.ring (slot_index s)) log (position q i - 1)) back
          (inv.held (position q i - 1) (omega (arith, window.positive))
            (omega (arith, window.positive, window.retained)))

    pub read_slot_ready :
        position q i ≤ q.next
        → (m : T) × (get_elem? log (position q i - 1) ≡ some m)
          × (read_slot i q ≡ (some m, advance i q))
    unfolding read_slot
    read_slot_ready r =
        let slot = reader_slot r in
        (
          (q.ring (slot_index (position q i))).content,
          slot.message,
          ground (arith, slot.stamp, window.positive, inv.small),
        )

    pub read_slot_empty : q.next < position q i → read_slot i q ≡ (none, q)
    unfolding read_slot
    read_slot_empty r = ground (arith, inv.stamped (slot_index (position q i)))

    moved : position q i ≤ q.next → InWindow q.next q.min_consumer_seq (position q i + 1)
    moved r = record {
      positive = omega arith;
      reached = omega arith;
      retained = omega (arith, window.retained);
      guarded = ground (arith, window.guarded);
    }

    pub advance-Inv : position q i ≤ q.next → Inv (advance i q) log
    advance-Inv r = record {
      counted = inv.counted;
      small = inv.small;
      held = inv.held;
      stamped = inv.stamped;
      readers = λ j hj aj. elim (eq-cases i j) [
        | inl same ↦ rw (← same, ==_self i) (moved r)
        | inr ne ↦ ground (arith, inv.readers j hj)
      ];
      cache = inv.cache;
    }
