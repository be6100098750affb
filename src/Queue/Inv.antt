-- ===== src/Queue/Inv.antt =====
-- What is to hold of a queue of include/Queue.h between calls, against the list of all messages
-- ever published.
use lock_free_spmc_queue_dis.Common.{
  ℕ, ◌+◌, ◌^◌, ◌<◌, ◌≤◌, ◌≡◌, ◌⊎◌, inl, refl, true, some, List, [], arith, length, get_elem?,
  u64_max,
}
use lock_free_spmc_queue_dis.Queue.{Queue, Slot, ring_size, max_consumers, slot_index, fresh}

-- At a billion messages a second this takes three centuries; `uint64_t` holds twice as many.
abbrev pub max_messages : ℕ
max_messages = 2 ^ 63

-- What the cached minimum can be.
pub record CacheOk (next cached : ℕ) : Type 0 where
  pub early : (cached ≡ 0) ⊎ (ring_size ≤ next + 1)
  pub bounded : (cached ≤ next + 1) ⊎ (cached ≡ u64_max)

-- A reader at position `seq` has its next message still in the ring, or is caught up, and is not
-- behind the cached minimum. The cache is `u64_max` after a rescan with no active consumer.
pub record InWindow (next cached seq : ℕ) : Type 0 where
  pub positive : 1 ≤ seq
  pub reached : seq ≤ next + 1
  pub retained : next < seq + ring_size
  pub guarded : (cached ≤ seq) ⊎ (cached ≡ u64_max)

module _ {ℓ} {T : Type ℓ} where
  -- Slot `s` holds message number `k + 1`, which is entry `k` of the log.
  pub record Holds (s : Slot T) (log : List T) (k : ℕ) : Type ℓ where
    pub stamp : s.sequence ≡ k + 2
    pub message : get_elem? log k ≡ some s.content

  pub record Inv (q : Queue T) (log : List T) : Type ℓ where
    pub counted : length log ≡ q.next
    pub small : q.next ≤ max_messages
    pub held :
        (k : ℕ) → k < q.next → q.next ≤ k + ring_size → Holds (q.ring (slot_index (k + 1))) log k
    pub stamped : (i : ℕ) → (q.ring i).sequence ≤ q.next + 1
    pub readers :
        (i : ℕ)
        → i < max_consumers
        → (q.consumers i).active ≡ true
        → InWindow q.next q.min_consumer_seq (q.consumers i).sequence
    pub cache : CacheOk q.next q.min_consumer_seq

  pub fresh-Inv : (blank : T) → Inv (fresh blank) []
  unfolding fresh
  fresh-Inv blank = record {
    counted = refl;
    small = omega arith;
    held = λ k h. absurd (omega arith);
    stamped = λ i. omega arith;
    readers = λ i h a. cc;
    cache = record { early = inl refl; bounded = inl (omega arith) };
  }
