-- ===== src/Interleave/Entry.antt =====
-- `register_consumer` of include/Queue.h taken apart: the compare-and-swap that wins a consumer slot
-- is one step, and the store of the start position is another. Until that store, the position in
-- the slot is the one of whoever had it before. A compare-and-swap that fails changes nothing.
mod Stored
mod Moves
pub mod Invariant
pub mod Safety
use lock_free_spmc_queue_dis.Common.{
  ℕ, ◌+◌, ◌<◌, ◌≤◌, ◌≡◌, ◌⊎◌, Option, none, some, List, [], true, false, update,
}
use lock_free_spmc_queue_dis.Queue.{Queue, ring_size, max_consumers}
use lock_free_spmc_queue_dis.Queue.Inv.{max_messages}
use lock_free_spmc_queue_dis.Queue.Consume.{position}
use lock_free_spmc_queue_dis.Interleave.{
  ProducerPc, ConsumerPc, System, ProducerMove, ConsumerMove, set_position, log_after, got_after,
  initial,
}
use lock_free_spmc_queue_dis.Interleave.Inv.{done_of}
use lock_free_spmc_queue_dis.Interleave.Enroll.{passed}

-- The threads, and for each slot that a registration has won the start it has still to store.
pub record Crowd {ℓ} (T : Type ℓ) : Type ℓ where
  pub system : System T
  pub joining : ℕ → Option ℕ

module _ {ℓ} {T : Type ℓ} where
  abbrev pub raise : ℕ → Queue T → Queue T
  raise i q = record q {
    consumers = update q.consumers i (record (q.consumers i) { active = true });
  }

  -- Consumer `i` has joined, and has its own position in its slot.
  pub record Settled (s : Crowd T) (i : ℕ) : Type 0 where
    pub in_range : i < max_consumers
    pub active : (s.system.queue.consumers i).active ≡ true
    pub stored : s.joining i ≡ none

  -- What slot `i` and the start are to be like when the slot is won: the position left in the slot
  -- is not ahead of the start, and the producer is in its first lap, or the start is the next
  -- message, or a consumer that has joined is not ahead of it and no rescan is beyond the slot.
  pub record MayEnter (s : Crowd T) (i start : ℕ) : Type 0 where
    pub positive : 1 ≤ start
    pub reached : start ≤ done_of s.system + 1
    pub left_behind : position s.system.queue i ≤ start
    pub reason :
        (s.system.queue.next + 1 < ring_size)
        ⊎ (start ≡ s.system.queue.next + 1)
        ⊎ ((c : ℕ) × Settled s c
            × (position s.system.queue c ≤ start)
            × (passed s.system.producer ≤ i))

  pub data EntryStep (s : Crowd T) : Crowd T → Type ℓ where
    produce :
        {q : Queue T} {p : ProducerPc T}
        → s.system.queue.next < max_messages
        → ProducerMove s.system.queue s.system.producer q p
        → EntryStep s (record s {
          system = record s.system { queue = q; producer = p; log = log_after p s.system.log };
        })
    consume :
        (i : ℕ) {q : Queue T} {p : ConsumerPc T}
        → i < max_consumers
        → s.joining i ≡ none
        → ConsumerMove i s.system.queue (s.system.consumer i) q p
        → EntryStep s (record s {
          system = record s.system {
            queue = q;
            consumer = update s.system.consumer i p;
            got = update s.system.got i (got_after (s.system.consumer i) (s.system.got i));
          };
        })
    win_slot :
        (i start : ℕ)
        → i < max_consumers
        → (s.system.queue.consumers i).active ≡ false
        → MayEnter s i start
        → EntryStep s (record {
          system = record s.system {
            queue = raise i s.system.queue;
            start = update s.system.start i start;
            got = update s.system.got i [];
          };
          joining = update s.joining i (some start);
        })
    set_start :
        (i : ℕ) {start : ℕ}
        → s.joining i ≡ some start
        → EntryStep s (record {
          system = record s.system { queue = set_position i start s.system.queue };
          joining = update s.joining i none;
        })

  abbrev pub gathered : T → Crowd T
  gathered blank = record { system = initial blank; joining = λ _. none }

  pub data EntryReach (blank : T) : Crowd T → Type ℓ where
    begin : EntryReach blank (gathered blank)
    next : {s t : Crowd T} → EntryReach blank s → EntryStep s t → EntryReach blank t
