-- ===== src/Queue.antt =====
-- include/Queue.h: the ring of slots, the consumer slots, and the operations of
-- `LockFreePubSubQueue`, each run to its end by one thread.
pub mod Index
pub mod Scan
pub mod Claim
pub mod Inv
pub mod Consume
pub mod Append
pub mod Publish
pub mod Register
pub mod Backpressure
pub mod Drain
pub mod RoundTrip
pub mod Stall
pub mod LateJoin
use lock_free_spmc_queue_dis.Common.{
  ℕ, zero, suc, ◌-◌, min, bit_and, Option, none, some, Bool, true, false, ltb, leb, if◌then◌else◌,
  update, add64, sub64, u64_max, ℤ, pos, negsuc,
}

-- `kRingSize`
abbrev pub ring_size : ℕ
ring_size = 1024

-- `kRingMask`
abbrev pub ring_mask : ℕ
ring_mask = ring_size - 1

-- `MaxConsumers`
abbrev pub max_consumers : ℕ
max_consumers = 64

-- `Slot`; `content` is the field `data`.
pub record Slot {ℓ} (T : Type ℓ) : Type ℓ where
  pub sequence : ℕ
  pub content : T

-- `ConsumerSlot`, with the value inside its `Sequence`.
pub record ConsumerSlot : Type 0 where
  pub active : Bool
  pub sequence : ℕ

-- `LockFreePubSubQueue`. The arrays are read and written below `ring_size` and `max_consumers`.
pub record Queue {ℓ} (T : Type ℓ) : Type ℓ where
  pub ring : ℕ → Slot T
  pub consumers : ℕ → ConsumerSlot
  pub next : ℕ
  pub min_consumer_seq : ℕ

abbrev pub no_consumer : ConsumerSlot
no_consumer = record { active = false; sequence = 0 }

-- `seq & kRingMask`
unfoldable pub slot_index : ℕ → ℕ
slot_index seq = bit_and seq ring_mask

-- The loop of `register_consumer` over slots `i`, `i + 1`, ..., with the rounds that are left.
unfoldable pub claim : ℕ → ℕ → ℕ → (ℕ → ConsumerSlot) → Option ℕ × (ℕ → ConsumerSlot)
claim zero i start consumers = (none, consumers)
claim (suc rounds) i start consumers =
    let rest = claim rounds (suc i) start consumers in
    if (consumers i).active
    then rest
    else (some i, update consumers i (record { active = true; sequence = start }))

-- The rescan of `publish` over slots `i`, `i + 1`, ..., with the rounds that are left.
unfoldable pub scan_min : ℕ → ℕ → (ℕ → ConsumerSlot) → ℕ → ℕ
scan_min zero i consumers min_seq = min_seq
scan_min (suc rounds) i consumers min_seq =
    scan_min rounds (suc i) consumers
      (if (consumers i).active then min min_seq (consumers i).sequence else min_seq)

-- `id >= 0 && id < MaxConsumers`
unfoldable pub valid_id : ℤ → Option ℕ
valid_id (pos i) = if ltb i max_consumers then some i else none
valid_id (negsuc _) = none

module _ {ℓ} {T : Type ℓ} where
  -- A queue as its constructor leaves it; `blank` is the value-initialised message.
  unfoldable pub fresh : T → Queue T
  fresh blank = record {
    ring = λ _. record { sequence = 0; content = blank };
    consumers = λ _. no_consumer;
    next = 0;
    min_consumer_seq = 0;
  }

  -- `register_consumer`
  unfoldable pub register_consumer : ℕ → Queue T → Option ℕ × Queue T
  register_consumer start q =
      let (id, consumers) = claim max_consumers 0 start q.consumers in
      (id, record q { consumers = consumers })

  deactivate : Option ℕ → Queue T → Queue T
  deactivate none q = q
  deactivate (some i) q = record q {
    consumers = update q.consumers i (record (q.consumers i) { active = false });
  }

  -- `unregister_consumer`
  unfoldable pub unregister_consumer : ℤ → Queue T → Queue T
  unfolding deactivate
  unregister_consumer id q = deactivate (valid_id id) q

  -- The end of `publish`: claim the number, write the slot, signal readiness.
  unfoldable pub write_slot : T → ℕ → Queue T → Queue T
  write_slot item next_seq q = record q {
    next = next_seq;
    ring =
        update q.ring (slot_index next_seq)
          (record { sequence = add64 next_seq 1; content = item });
  }

  -- The slow path of `publish`, after the cached minimum has made the ring look full.
  unfoldable pub publish_slow : T → ℕ → Queue T → Bool × Queue T
  publish_slow item next_seq q =
      let min_seq = scan_min max_consumers 0 q.consumers u64_max in
      let q' = record q { min_consumer_seq = min_seq } in
      if leb ring_size (sub64 next_seq min_seq)
      then (false, q')
      else (true, write_slot item next_seq q')

  -- `publish`
  unfoldable pub publish : T → Queue T → Bool × Queue T
  publish item q =
      let next_seq = add64 q.next 1 in
      if leb ring_size (sub64 next_seq q.min_consumer_seq)
      then publish_slow item next_seq q
      else (true, write_slot item next_seq q)

  -- The part of `consume` behind its two checks.
  unfoldable pub read_slot : ℕ → Queue T → Option T × Queue T
  read_slot i q =
      let seq = (q.consumers i).sequence in
      let slot = q.ring (slot_index seq) in
      if leb slot.sequence seq then (none, q) else (
        some slot.content,
        record q {
          consumers = update q.consumers i (record (q.consumers i) { sequence = add64 seq 1 });
        },
      )

  consume_from : Option ℕ → Queue T → Option T × Queue T
  unfolding read_slot
  consume_from none q = (none, q)
  consume_from (some i) q = if (q.consumers i).active then read_slot i q else (none, q)

  -- `consume`; the option is its Boolean result with what it writes to `out`.
  unfoldable pub consume : ℤ → Queue T → Option T × Queue T
  unfolding consume_from
  consume id q = consume_from (valid_id id) q

  -- `current_sequence`
  unfoldable pub current_sequence : Queue T → ℕ
  current_sequence q = q.next
