-- ===== src/Interleave/Solo.antt =====
-- The steps of one call of include/Queue.h with no other thread between them, against the
-- functions of Queue.antt.
use lock_free_spmc_queue_dis.Common.{
  ℕ, zero, suc, ◌+◌, ◌<◌, ◌≡◌, inl, inr, sym, subst, fun_ext, true, min, arith, leb, update, add64,
  sub64, u64_max, Bool-cases, Bool, [], ◌∷◌, Option, none, some, List, pos, if◌then◌else◌,
}
use lock_free_spmc_queue_dis.Queue.{
  Queue, ring_size, max_consumers, slot_index, scan_min, write_slot, publish, publish_slow, consume,
  read_slot,
}
use lock_free_spmc_queue_dis.Queue.Consume.{consume_active, consume_inactive}
use lock_free_spmc_queue_dis.Interleave.{
  ProducerPc, resting, load_active, write_data, ProducerMove, begin_fast, begin_slow, skip, notice,
  take, refuse, accept, tear, settle, stamp, ConsumerPc, outside, expecting, ConsumerMove, inactive,
  enter, load_position, not_ready, see_ready, begin_copy, end_copy, advance_position, set_content,
  set_stamp, log_after, got_after,
}

module _ {ℓ} {T : Type ℓ} where
  -- Some steps of the producer, one after the other, and the messages that they have claimed.
  pub data ProducerRun (q : Queue T) (p : ProducerPc T)
      : List T → Queue T → ProducerPc T → Type ℓ where
    still : ProducerRun q p [] q p
    onto :
        {log : List T} {q' q'' : Queue T} {p' p'' : ProducerPc T}
        → ProducerRun q p log q' p'
        → ProducerMove q' p' q'' p''
        → ProducerRun q p (log_after p'' log) q'' p''

  -- Some steps of consumer `i`, and the messages that it has received.
  pub data ConsumerRun (i : ℕ) (q : Queue T) (p : ConsumerPc T)
      : List T → Queue T → ConsumerPc T → Type ℓ where
    still : ConsumerRun i q p [] q p
    onto :
        {got : List T} {q' q'' : Queue T} {p' p'' : ConsumerPc T}
        → ConsumerRun i q p got q' p'
        → ConsumerMove i q' p' q'' p''
        → ConsumerRun i q p (got_after p' got) q'' p''

  module _ {q₀ : Queue T} {p₀ : ProducerPc T} {log : List T} where
    scan_round :
        {q : Queue T} {item : T} {s i m : ℕ}
        → i < max_consumers
        → ProducerRun q₀ p₀ log q (load_active item s i m)
        → ProducerRun q₀ p₀ log q (
            load_active item s
              (suc i)
              (if (q.consumers i).active then min m (q.consumers i).sequence else m))
    scan_round {q} {item} {s} {i} {m} h r = elim (Bool-cases (q.consumers i).active) [
      | inl a ↦ rw a (onto (onto r (notice h a)) take)
      | inr a ↦ rw a (onto r (skip h a))
    ]

    scan_run :
        (rounds : ℕ) {q : Queue T} {item : T} {s i m : ℕ}
        → i + rounds ≡ max_consumers
        → ProducerRun q₀ p₀ log q (load_active item s i m)
        → ProducerRun q₀ p₀ log q
            (load_active item s max_consumers (scan_min rounds i q.consumers m))
    unfolding scan_min
    scan_run zero {q} {item} {s} {i} {m} e r =
        let e' : i ≡ max_consumers = omega arith in
        subst (λ k. ProducerRun q₀ p₀ log q (load_active item s k m)) e' r
    scan_run (suc rounds) e r = scan_run rounds (omega arith) (scan_round (omega arith) r)

    write_run :
        (q : Queue T) {item : T} {s : ℕ}
        → ProducerRun q₀ p₀ log (record q { next = s }) (write_data item s)
        → ProducerRun q₀ p₀ log (write_slot item s q) resting
    unfolding write_slot
    write_run q {item} {s} r =
        subst (λ f. ProducerRun q₀ p₀ log (record q { next = s; ring = f }) resting) (fun_ext same)
          (onto (onto (onto r (tear item)) settle) stamp)
      where
        same :
            (j : ℕ)
            → (set_stamp
                  (slot_index s)
                  (add64 s 1)
                  (set_content (slot_index s) item (set_content (slot_index s) item q))).ring
                j
              ≡ update q.ring (slot_index s) (record { sequence = add64 s 1; content = item }) j
        same j = ground arith

  abbrev pub claims : T → Bool → List T
  claims item ok = if ok then item ∷ [] else []

  abbrev pub SoloPublish : T → Queue T → Bool × Queue T → Type ℓ
  SoloPublish item q r = ProducerRun q resting (claims item r.0) r.1 resting

  slow_run :
      (item : T) (q : Queue T)
      → leb ring_size (sub64 (add64 q.next 1) q.min_consumer_seq) ≡ true
      → SoloPublish item q (publish_slow item (add64 q.next 1) q)
  unfolding publish_slow
  slow_run item q slow =
      let m = scan_min max_consumers 0 q.consumers u64_max in
      let s = add64 q.next 1 in
      let scanned : ProducerRun q resting [] q (load_active item s max_consumers m) =
        scan_run max_consumers (omega arith) (onto still (begin_slow item slow)) in
      elim (Bool-cases (leb ring_size (sub64 s m))) [
        | inl full ↦ rw full (onto scanned (refuse (omega arith) full))
        | inr free ↦ rw free (
            write_run (record q { min_consumer_seq = m })
              (onto scanned (accept (omega arith) free)))
      ]

  -- The steps of `publish` taken without interruption lead to the result and the queue of the
  -- sequential `publish`.
  pub solo_publish : (item : T) (q : Queue T) → SoloPublish item q (publish item q)
  unfolding publish
  solo_publish item q =
      elim (Bool-cases (leb ring_size (sub64 (add64 q.next 1) q.min_consumer_seq))) [
        | inl slow ↦ rw slow (slow_run item q slow)
        | inr fast ↦ rw fast (write_run q (onto still (begin_fast item fast)))
      ]

  abbrev pub received_list : Option T → List T
  received_list none = []
  received_list (some m) = m ∷ []

  abbrev pub SoloConsume : ℕ → Queue T → Option T × Queue T → Type ℓ
  SoloConsume i q r = ConsumerRun i q outside (received_list r.0) r.1 outside

  read_run : (i : ℕ) (q : Queue T) → (q.consumers i).active ≡ true → SoloConsume i q (read_slot i q)
  unfolding read_slot
  read_run i q a =
      let seq = (q.consumers i).sequence in
      let at : ConsumerRun i q outside [] q (expecting seq) =
        onto (onto still (enter a)) load_position in
      elim (Bool-cases (leb (q.ring (slot_index seq)).sequence seq)) [
        | inl e ↦ rw e (onto at (not_ready e))
        | inr e ↦
            rw e (onto (onto (onto (onto at (see_ready e)) begin_copy) end_copy) advance_position)
      ]

  -- The steps of `consume` taken without interruption lead to the result and the queue of the
  -- sequential `consume`.
  pub solo_consume : (i : ℕ) (q : Queue T) → i < max_consumers → SoloConsume i q (consume (pos i) q)
  solo_consume i q h = elim (Bool-cases (q.consumers i).active) [
    | inl a ↦ subst (SoloConsume i q) (sym (consume_active i q h a)) (read_run i q a)
    | inr a ↦ subst (SoloConsume i q) (sym (consume_inactive i q a)) (onto still (inactive a))
  ]
