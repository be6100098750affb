-- ===== src/Interleave.antt =====
-- include/Queue.h with its operations taken apart: `publish` and `consume` one shared access at a
-- time, by one producer and up to `MaxConsumers` consumers that run in any order. An acquire load
-- or a release store is one step. The copy of a message is two, with any value in between.
pub mod Inv
mod Writer
mod Rescan
mod Producer
mod Reading
mod Consumer
mod Enroll
mod Carry
mod Preserve
pub mod Invariant
pub mod Safety
pub mod Entry
pub mod Progress
pub mod Solo
use lock_free_spmc_queue_dis.Common.{
  ℕ, suc, ◌<◌, ◌≤◌, ◌≡◌, min, some, List, [], ◌∷◌, ◌++◌, true, false, leb, update, add64, sub64,
  u64_max,
}
use lock_free_spmc_queue_dis.Queue.{
  Queue, ring_size, max_consumers, slot_index, fresh, register_consumer,
}
use lock_free_spmc_queue_dis.Queue.Inv.{max_messages}
use lock_free_spmc_queue_dis.PubSub.{MayJoin}
use lock_free_spmc_queue_dis.Refine.{view}

-- Where the producer stands in `publish`, with the locals that are live there.
pub data ProducerPc {ℓ} (T : Type ℓ) : Type ℓ where
  resting : ProducerPc T
  load_active : (item : T) (next_seq i min_seq : ℕ) → ProducerPc T
  load_sequence : (item : T) (next_seq i min_seq : ℕ) → ProducerPc T
  write_data : (item : T) (next_seq : ℕ) → ProducerPc T
  writing : (item : T) (next_seq : ℕ) → ProducerPc T
  store_sequence : (item : T) (next_seq : ℕ) → ProducerPc T

-- Where a consumer stands in `consume`.
pub data ConsumerPc {ℓ} (T : Type ℓ) : Type ℓ where
  outside : ConsumerPc T
  is_active : ConsumerPc T
  expecting : (seq : ℕ) → ConsumerPc T
  slot_ready : (seq : ℕ) → ConsumerPc T
  reading : (seq : ℕ) → ConsumerPc T
  copied : (seq : ℕ) (out : T) → ConsumerPc T

-- All threads over one queue. `log`, `start` and `got` are not in memory: the messages claimed so
-- far, where each consumer began, and what it has received since.
pub record System {ℓ} (T : Type ℓ) : Type ℓ where
  pub queue : Queue T
  pub producer : ProducerPc T
  pub consumer : ℕ → ConsumerPc T
  pub log : List T
  pub start : ℕ → ℕ
  pub got : ℕ → List T

module _ {ℓ} {T : Type ℓ} where
  abbrev pub set_content : ℕ → T → Queue T → Queue T
  set_content i item q = record q { ring = update q.ring i (record (q.ring i) { content = item }) }

  abbrev pub set_stamp : ℕ → ℕ → Queue T → Queue T
  set_stamp i v q = record q { ring = update q.ring i (record (q.ring i) { sequence = v }) }

  -- `next_` and `min_consumer_seq_` are the producer's own, and are read and written between its
  -- shared accesses.
  pub data ProducerMove (q : Queue T) : ProducerPc T → Queue T → ProducerPc T → Type ℓ where
    begin_fast :
        (item : T)
        → leb ring_size (sub64 (add64 q.next 1) q.min_consumer_seq) ≡ false
        → ProducerMove q resting
            (record q { next = add64 q.next 1 })
            (write_data item (add64 q.next 1))
    begin_slow :
        (item : T)
        → leb ring_size (sub64 (add64 q.next 1) q.min_consumer_seq) ≡ true
        → ProducerMove q resting q (load_active item (add64 q.next 1) 0 u64_max)
    skip :
        {item : T} {s i m : ℕ}
        → i < max_consumers
        → (q.consumers i).active ≡ false
        → ProducerMove q (load_active item s i m) q (load_active item s (suc i) m)
    notice :
        {item : T} {s i m : ℕ}
        → i < max_consumers
        → (q.consumers i).active ≡ true
        → ProducerMove q (load_active item s i m) q (load_sequence item s i m)
    take :
        {item : T} {s i m : ℕ}
        → ProducerMove q
            (load_sequence item s i m)
            q
            (load_active item s (suc i) (min m (q.consumers i).sequence))
    refuse :
        {item : T} {s i m : ℕ}
        → max_consumers ≤ i
        → leb ring_size (sub64 s m) ≡ true
        → ProducerMove q (load_active item s i m) (record q { min_consumer_seq = m }) resting
    accept :
        {item : T} {s i m : ℕ}
        → max_consumers ≤ i
        → leb ring_size (sub64 s m) ≡ false
        → ProducerMove q
            (load_active item s i m)
            (record q { min_consumer_seq = m; next = s })
            (write_data item s)
    tear :
        {item : T} {s : ℕ} (junk : T)
        → ProducerMove q (write_data item s) (set_content (slot_index s) junk q) (writing item s)
    settle :
        {item : T} {s : ℕ}
        → ProducerMove q
            (writing item s)
            (set_content (slot_index s) item q)
            (store_sequence item s)
    stamp :
        {item : T} {s : ℕ}
        → ProducerMove q (store_sequence item s) (set_stamp (slot_index s) (add64 s 1) q) resting

  abbrev pub set_position : ℕ → ℕ → Queue T → Queue T
  set_position i v q = record q {
    consumers = update q.consumers i (record (q.consumers i) { sequence = v });
  }

  abbrev pub retire : ℕ → Queue T → Queue T
  retire i q = record q {
    consumers = update q.consumers i (record (q.consumers i) { active = false });
  }

  -- Consumer `i`, whose identifier has passed the range check.
  pub data ConsumerMove (i : ℕ) (q : Queue T) : ConsumerPc T → Queue T → ConsumerPc T → Type ℓ where
    inactive : (q.consumers i).active ≡ false → ConsumerMove i q outside q outside
    enter : (q.consumers i).active ≡ true → ConsumerMove i q outside q is_active
    load_position : ConsumerMove i q is_active q (expecting (q.consumers i).sequence)
    not_ready :
        {seq : ℕ}
        → leb (q.ring (slot_index seq)).sequence seq ≡ true
        → ConsumerMove i q (expecting seq) q outside
    see_ready :
        {seq : ℕ}
        → leb (q.ring (slot_index seq)).sequence seq ≡ false
        → ConsumerMove i q (expecting seq) q (slot_ready seq)
    begin_copy : {seq : ℕ} → ConsumerMove i q (slot_ready seq) q (reading seq)
    end_copy :
        {seq : ℕ} → ConsumerMove i q (reading seq) q (copied seq (q.ring (slot_index seq)).content)
    advance_position :
        {seq : ℕ} {out : T}
        → ConsumerMove i q (copied seq out) (set_position i (add64 seq 1) q) outside
    unregister : ConsumerMove i q outside (retire i q) outside

  -- A claim of the producer extends the log.
  abbrev pub log_after : ProducerPc T → List T → List T
  log_after (write_data item _) log = log ++ item ∷ []
  log_after _ log = log

  abbrev pub got_after : ConsumerPc T → List T → List T
  got_after (copied _ out) got = got ++ out ∷ []
  got_after _ got = got

  -- A registration runs whole, while the producer is outside `publish`.
  pub data Step (s : System T) : System T → Type ℓ where
    produce :
        {q : Queue T} {p : ProducerPc T}
        → s.queue.next < max_messages
        → ProducerMove s.queue s.producer q p
        → Step s (record s { queue = q; producer = p; log = log_after p s.log })
    consume :
        (i : ℕ) {q : Queue T} {p : ConsumerPc T}
        → i < max_consumers
        → ConsumerMove i s.queue (s.consumer i) q p
        → Step s (record s {
          queue = q;
          consumer = update s.consumer i p;
          got = update s.got i (got_after (s.consumer i) (s.got i));
        })
    enroll :
        (i start : ℕ) {q : Queue T}
        → s.producer ≡ resting
        → MayJoin (view s.queue s.log) start
        → register_consumer start s.queue ≡ (some i, q)
        → Step s (record s { queue = q; start = update s.start i start; got = update s.got i [] })

  abbrev pub initial : T → System T
  initial blank = record {
    queue = fresh blank;
    producer = resting;
    consumer = λ _. outside;
    log = [];
    start = λ _. 1;
    got = λ _. [];
  }

  pub data Reach (blank : T) : System T → Type ℓ where
    begin : Reach blank (initial blank)
    next : {s t : System T} → Reach blank s → Step s t → Reach blank t
