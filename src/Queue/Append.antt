-- ===== src/Queue/Append.antt =====
-- The queue that `publish` of include/Queue.h leaves when it accepts a message, and the
-- conditions for it to keep the invariant.
use lock_free_spmc_queue_dis.Common.{
  ℕ, ◌+◌, ◌<◌, ◌≤◌, ◌≡◌, ◌≢◌, ◌⊎◌, inl, inr, true, List, [], ◌∷◌, ◌++◌, arith, u64_max, eq-cases,
  ==_self, length-append, get_elem?-append_left, get_elem?-append_last,
}
use lock_free_spmc_queue_dis.Queue.{Queue, ring_size, max_consumers, slot_index, write_slot}
use lock_free_spmc_queue_dis.Queue.Index.{slot_index-ne}
use lock_free_spmc_queue_dis.Queue.Inv.{max_messages, Holds, CacheOk, Inv}
use lock_free_spmc_queue_dis.Queue.Consume.{position}

module _ {ℓ} {T : Type ℓ} where
  -- The queue after message `next + 1`, with the cached minimum `c`.
  abbrev pub appended : T → ℕ → Queue T → Queue T
  appended item c q = write_slot item (q.next + 1) (record q { min_consumer_seq = c })

  -- No active consumer is a full lap behind the message after `next`.
  abbrev pub HasRoom : Queue T → Type 0
  HasRoom q =
      (i : ℕ)
      → i < max_consumers
      → (q.consumers i).active ≡ true
      → q.next + 1 < position q i + ring_size

  -- `c` may be cached: it is at or below every active consumer.
  pub record Caches (q : Queue T) (c : ℕ) : Type 0 where
    pub below :
        (i : ℕ)
        → i < max_consumers
        → (q.consumers i).active ≡ true
        → (c ≤ position q i) ⊎ (c ≡ u64_max)
    pub ok : CacheOk q.next c

  module _ {q : Queue T} {log : List T} (inv : Inv q log) (item : T) (c : ℕ) where
    appended_new :
        q.next < max_messages
        → Holds ((appended item c q).ring (slot_index (q.next + 1))) (log ++ item ∷ []) q.next
    unfolding write_slot
    appended_new small = record {
      stamp = rw (==_self (slot_index (q.next + 1))) (omega arith);
      message =
          rw (==_self (slot_index (q.next + 1)))
            (get_elem?-append_last log item q.next inv.counted);
    }

    appended_old :
        (k : ℕ)
        → k < q.next
        → q.next + 1 ≤ k + ring_size
        → Holds ((appended item c q).ring (slot_index (k + 1))) (log ++ item ∷ []) k
    unfolding write_slot
    appended_old k h w =
        let old = inv.held k h (omega arith) in
        let ne : slot_index (k + 1) ≢ slot_index (q.next + 1) =
          slot_index-ne (k + 1) (q.next + 1) (omega arith) (omega arith) in
        record {
          stamp = ground (arith, old.stamp);
          message =
              ground (arith, old.message, get_elem?-append_left log (item ∷ []) k, inv.counted);
        }

    pub appended-Inv :
        q.next < max_messages → HasRoom q → Caches q c → Inv (appended item c q) (log ++ item ∷ [])
    unfolding write_slot
    appended-Inv small room caches = record {
      counted = omega (arith, length-append log (item ∷ []), inv.counted);
      small = omega arith;
      held = λ k h w. elim (eq-cases k q.next) [
        | inl e ↦ rw e (appended_new small)
        | inr ne ↦ appended_old k (omega arith) w
      ];
      stamped = λ i. ground (arith, inv.stamped i);
      readers = λ i h a.
          let old = inv.readers i h a in
          record {
            positive = old.positive;
            reached = omega (arith, old.reached);
            retained = omega (arith, room i h a);
            guarded = caches.below i h a;
          };
      cache = record {
        early = ground (arith, caches.ok.early);
        bounded = ground (arith, caches.ok.bounded);
      };
    }
