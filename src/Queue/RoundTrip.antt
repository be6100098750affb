-- ===== src/Queue/RoundTrip.antt =====
-- `publish` and then `consume` of include/Queue.h, for a consumer that has read all there was.
use lock_free_spmc_queue_dis.Common.{
  ℕ, ◌+◌, ◌-◌, ◌<◌, ◌≡◌, refl, ap, ◌∙◌, sym, subst, true, some, List, [], ◌∷◌, ◌++◌, pos, arith,
  inl, inr, get_elem?-append_last, get_elem?, append_nil,
}
use lock_free_spmc_queue_dis.Queue.{Queue, max_consumers, publish, consume, write_slot}
use lock_free_spmc_queue_dis.Queue.Inv.{Inv, max_messages}
use lock_free_spmc_queue_dis.Queue.Consume.{
  position, advance, advance-Inv, consume_active, read_slot_ready,
}
use lock_free_spmc_queue_dis.Queue.Drain.{position-advance}
use lock_free_spmc_queue_dis.Queue.Append.{appended, appended-Inv}
use lock_free_spmc_queue_dis.Queue.Publish.{recached-Inv, publish-cases}

module _ {ℓ} {T : Type ℓ} where
  -- Consumer `i` receives `item` from `q`, which has the log `log`, and has then read all there is.
  pub record Receives (q : Queue T) (log : List T) (i : ℕ) (item : T) : Type ℓ where
    pub after : Queue T
    pub received : consume (pos i) q ≡ (some item, after)
    pub caught_up : position after i ≡ after.next + 1
    pub keeps : Inv after log

  next-appended : (item : T) (c : ℕ) (q : Queue T) → (appended item c q).next ≡ q.next + 1
  unfolding write_slot
  next-appended item c q = refl

  consumers-appended :
      (item : T) (c : ℕ) (q : Queue T) → (appended item c q).consumers ≡ q.consumers
  unfolding write_slot
  consumers-appended item c q = refl

  next-advance : (i : ℕ) (q : Queue T) → (advance i q).next ≡ q.next
  next-advance i q = refl

  receive_last :
      {q : Queue T} (log : List T) (item : T) (i : ℕ)
      → Inv q (log ++ item ∷ [])
      → i < max_consumers
      → (q.consumers i).active ≡ true
      → position q i ≡ q.next
      → get_elem? (log ++ item ∷ []) (q.next - 1) ≡ some item
      → Receives q (log ++ item ∷ []) i item
  receive_last {q} log item i inv h a at last =
      let (m, found, e) = read_slot_ready inv i h a (omega (arith, at)) in
      let same : m ≡ item = cc (found, last, at) in
      record {
        after = advance i q;
        received = consume_active i q h a ∙ e ∙ ap (λ x. (some x, advance i q)) same;
        caught_up = position-advance i q ∙ omega (arith, at);
        keeps = advance-Inv inv i h a (omega (arith, at));
      }

  -- On a queue that keeps the invariant, if a `publish` succeeds while an active consumer has read
  -- all there was, the next `consume` of that consumer gives back the message published; it has
  -- then again read all there is, and the queue keeps its invariant with the message in the log.
  pub publish-consume :
      {q q' : Queue T} {log : List T} (item : T) (i : ℕ)
      → Inv q log
      → q.next < max_messages
      → i < max_consumers
      → (q.consumers i).active ≡ true
      → position q i ≡ q.next + 1
      → publish item q ≡ (true, q')
      → Receives q' (log ++ item ∷ []) i item
  publish-consume {q} {q'} {log} item i inv small h a at ok = elim (publish-cases inv item small) [
    | inl (c, room, caches, e) ↦
        let same : appended item c q ≡ q' = ap (λ r. r.1) (sym e ∙ ok) in
        subst (λ r. Receives r (log ++ item ∷ []) i item) same
          (receive_last log item i (appended-Inv inv item c small room caches) h
            (ap (λ f. (f i).active) (consumers-appended item c q) ∙ a)
            (ap (λ f. (f i).sequence) (consumers-appended item c q)
              ∙ at
              ∙ sym (next-appended item c q))
            (get_elem?-append_last log item _ (omega (arith, inv.counted, next-appended item c q))))
    | inr (c, why, caches, e) ↦ cc
  ]

  -- A publish appends its message or nothing, and moves no consumer.
  pub publish_appends :
      {q : Queue T} {log : List T} (item : T)
      → Inv q log
      → q.next < max_messages
      → (more : List T) × Inv (publish item q).1 (log ++ more)
        × ((publish item q).1.consumers ≡ q.consumers)
  publish_appends {q} {log} item inv small = elim (publish-cases inv item small) [
    | inl (c, room, caches, e) ↦ (
      item ∷ [],
      subst (λ r. Inv r.1 (log ++ item ∷ [])) (sym e) (appended-Inv inv item c small room caches),
      ap (λ r. r.1.consumers) e ∙ consumers-appended item c q,
    )
    | inr (c, why, caches, e) ↦ (
      [],
      subst (λ r. Inv r.1 (log ++ [])) (sym e)
          (subst (Inv (record q { min_consumer_seq = c })) (sym (append_nil log))
            (recached-Inv inv c caches)),
      ap (λ r. r.1.consumers) e,
    )
  ]
