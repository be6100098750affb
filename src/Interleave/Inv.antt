-- ===== src/Interleave/Inv.antt =====
-- What is to hold between any two steps of the threads of Interleave, which run include/Queue.h.
use lock_free_spmc_queue_dis.Common.{
  ℕ, ◌+◌, ◌-◌, ◌<◌, ◌≤◌, ◌≡◌, ◌⊎◌, some, List, true, length, get_elem?, u64_max,
}
use lock_free_spmc_queue_dis.Queue.{Queue, ConsumerSlot, ring_size, max_consumers, slot_index}
use lock_free_spmc_queue_dis.Queue.Inv.{max_messages, Holds, CacheOk}
use lock_free_spmc_queue_dis.Queue.Consume.{position}
use lock_free_spmc_queue_dis.Interleave.{
  ProducerPc, resting, load_active, load_sequence, write_data, writing, store_sequence, ConsumerPc,
  outside, is_active, expecting, slot_ready, reading, copied, System,
}

-- The last message whose slot is stamped: the one before `next` while the producer writes.
abbrev pub published {ℓ} : {T : Type ℓ} → ProducerPc T → ℕ → ℕ
published (write_data _ _) n = n - 1
published (writing _ _) n = n - 1
published (store_sequence _ _) n = n - 1
published _ n = n

-- A reader's next message is stamped in the ring or is the next to be stamped; the slot of a
-- message that is being written is not the reader's, or is not stamped yet.
pub record InReach (next cached done seq : ℕ) : Type 0 where
  pub positive : 1 ≤ seq
  pub reached : seq ≤ done + 1
  pub retained : next < seq + ring_size
  pub guarded : (cached ≤ seq) ⊎ (cached ≡ u64_max)

-- Consumer `i` is inside `consume`, where the slot of message `seq` will be looked at.
pub record Expects (consumers : ℕ → ConsumerSlot) (i seq : ℕ) : Type 0 where
  pub active : (consumers i).active ≡ true
  pub own : seq ≡ (consumers i).sequence

-- It has found that slot stamped.
pub record Finds (consumers : ℕ → ConsumerSlot) (done i seq : ℕ) : Type 0 where
  pub expects : Expects consumers i seq
  pub stamped : seq ≤ done

abbrev pub Reader {ℓ} : {T : Type ℓ} → (ℕ → ConsumerSlot) → ℕ → ℕ → ConsumerPc T → Type 0
Reader c done i outside = Unit
Reader c done i is_active = Expects c i (c i).sequence
Reader c done i (expecting seq) = Expects c i seq
Reader c done i (slot_ready seq) = Finds c done i seq
Reader c done i (reading seq) = Finds c done i seq
Reader c done i (copied seq out) = Finds c done i seq

module _ {ℓ} {T : Type ℓ} where
  -- The shared memory, with messages up to `done` stamped.
  pub record Core (q : Queue T) (log : List T) (done : ℕ) : Type ℓ where
    pub counted : length log ≡ q.next
    pub small : q.next ≤ max_messages
    pub held :
        (k : ℕ) → k < done → q.next ≤ k + ring_size → Holds (q.ring (slot_index (k + 1))) log k
    pub stamped : (i : ℕ) → (q.ring i).sequence ≤ done + 1
    pub readers :
        (i : ℕ)
        → i < max_consumers
        → (q.consumers i).active ≡ true
        → InReach q.next q.min_consumer_seq done (position q i)
    pub bounded : (i : ℕ) → i < max_consumers → position q i ≤ q.next + 1
    pub cache : CacheOk q.next q.min_consumer_seq

  -- The rescan has come to slot `i` with the minimum `m`. A consumer that is caught up may have
  -- joined behind it.
  pub record Scanned (q : Queue T) (s i m : ℕ) : Type ℓ where
    pub number : s ≡ q.next + 1
    pub late : ring_size ≤ q.next + 1
    pub below :
        (j : ℕ)
        → j < i
        → j < max_consumers
        → (q.consumers j).active ≡ true
        → (m ≤ position q j) ⊎ (q.next + 1 ≤ position q j)
    pub found : (m ≤ q.next + 1) ⊎ (m ≡ u64_max)

  -- The message numbered `s` is claimed and not stamped.
  pub record Claims (q : Queue T) (log : List T) (item : T) (s : ℕ) : Type ℓ where
    pub number : s ≡ q.next
    pub positive : 1 ≤ s
    pub entry : get_elem? log (s - 1) ≡ some item

  abbrev pub Writer : Queue T → List T → ProducerPc T → Type ℓ
  Writer q log resting = Unit
  Writer q log (load_active item s i m) = Scanned q s i m
  Writer q log (load_sequence item s i m) = Scanned q s i m × (i < max_consumers)
  Writer q log (write_data item s) = Claims q log item s
  Writer q log (writing item s) = Claims q log item s
  Writer q log (store_sequence item s) =
      Claims q log item s × ((q.ring (slot_index s)).content ≡ item)

  -- What a consumer has copied is the entry of the log that it was to read.
  abbrev pub Copied : List T → ConsumerPc T → Type ℓ
  Copied log (copied seq out) = get_elem? log (seq - 1) ≡ some out
  Copied log _ = Unit

  -- What consumer `i` has received is the log from its start up to its position.
  pub record Delivered (log got : List T) (start position : ℕ) : Type ℓ where
    pub begun : 1 ≤ start
    pub count : start + length got ≡ position
    pub same : (k : ℕ) → k < length got → get_elem? got k ≡ get_elem? log (start - 1 + k)

  abbrev pub done_of : System T → ℕ
  done_of s = published s.producer s.queue.next

  pub record SystemInv (s : System T) : Type ℓ where
    pub core : Core s.queue s.log (done_of s)
    pub writer : Writer s.queue s.log s.producer
    pub reader : (i : ℕ) → i < max_consumers → Reader s.queue.consumers (done_of s) i (s.consumer i)
    pub copy : (i : ℕ) → i < max_consumers → Copied s.log (s.consumer i)
    pub delivered :
        (i : ℕ)
        → i < max_consumers
        → (s.queue.consumers i).active ≡ true
        → Delivered s.log (s.got i) (s.start i) (position s.queue i)
