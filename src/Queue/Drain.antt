-- ===== src/Queue/Drain.antt =====
-- The loop of include/Consumer.h that consumes until nothing is left, on the queue alone.
use lock_free_spmc_queue_dis.Common.{
  ℕ, zero, suc, ◌+◌, ◌-◌, ◌<◌, ◌≤◌, ◌≡◌, sym, ap, fun_ext, true, List, [], ◌∷◌, Option, none, some,
  arith, drop, drop_all, drop-eq-cons, update, ◌∙◌, le-cases, inl, inr, ℤ, pos, get_elem?,
}
use lock_free_spmc_queue_dis.Queue.{Queue, max_consumers, consume}
use lock_free_spmc_queue_dis.Queue.Inv.{Inv}
use lock_free_spmc_queue_dis.Queue.Consume.{
  position, advance, advance-Inv, consume_active, read_slot_ready, read_slot_empty,
}

module _ {ℓ} {T : Type ℓ} where
  prepend : T → Option (List T × Queue T) → Option (List T × Queue T)
  prepend m none = none
  prepend m (some (rest, q)) = some (m ∷ rest, q)

  -- `while (queue->consume(id, remaining))`, with the messages read; `none` if the fuel runs out.
  unfoldable pub drain : ℕ → ℤ → Queue T → Option (List T × Queue T)
  unfolding prepend
  drain zero id q = none
  drain (suc fuel) id q =
      let r = consume id q in
      elim r.0 [ none ↦ some ([], r.1) | some m ↦ prepend m (drain fuel id r.1) ]

  -- The queue after consumer `i` has read all there is.
  abbrev pub caught_up : ℕ → Queue T → Queue T
  caught_up i q = record q {
    consumers = update q.consumers i (record (q.consumers i) { sequence = q.next + 1 });
  }

  caught_up-advance : (i : ℕ) (q : Queue T) → caught_up i (advance i q) ≡ caught_up i q
  caught_up-advance i q = ap (λ f. record q { consumers = f }) (fun_ext λ j. ground arith)

  caught_up_already : (i : ℕ) (q : Queue T) → position q i ≡ q.next + 1 → caught_up i q ≡ q
  caught_up_already i q e = ap (λ f. record q { consumers = f }) (fun_ext λ j. ground arith)

  drain_stop :
      (fuel : ℕ) (id : ℤ) (q : Queue T) {q' : Queue T}
      → consume id q ≡ (none, q')
      → drain (suc fuel) id q ≡ some ([], q')
  unfolding drain
  drain_stop fuel id q e = ground (arith, e)

  drain_step :
      (fuel : ℕ) (id : ℤ) (m : T) (q q' : Queue T)
      → consume id q ≡ (some m, q')
      → drain (suc fuel) id q ≡ prepend m (drain fuel id q')
  unfolding drain
  drain_step fuel id m q q' e = ground (arith, e)

  pub drop-position :
      (p : ℕ) (log : List T) (m : T)
      → 1 ≤ p
      → get_elem? log (p - 1) ≡ some m
      → drop (p - 1) log ≡ m ∷ drop (p + 1 - 1) log
  drop-position p log m positive found =
      let same : suc (p - 1) ≡ p + 1 - 1 = omega arith in
      drop-eq-cons (p - 1) log m found ∙ ap (λ n. m ∷ drop n log) same

  pub position-advance : (i : ℕ) (q : Queue T) → position (advance i q) i ≡ position q i + 1
  position-advance i q = ground arith

  pub active-advance :
      (i : ℕ) (q : Queue T)
      → (q.consumers i).active ≡ true
      → ((advance i q).consumers i).active ≡ true
  active-advance i q a = ground arith

  -- On a queue that keeps the invariant, with fuel for one call more than there are unread
  -- messages, an active consumer that consumes until nothing is left gets every message of the log
  -- from its position on, in order, and ends one past the last.
  pub drain_lem :
      (fuel i : ℕ) {q : Queue T} {log : List T}
      → Inv q log
      → i < max_consumers
      → (q.consumers i).active ≡ true
      → q.next + 1 - position q i < fuel
      → drain fuel (pos i) q ≡ some (drop (position q i - 1) log, caught_up i q)
  unfolding prepend
  drain_lem zero i inv h a enough = absurd (omega arith)
  drain_lem (suc fuel) i {q} {log} inv h a enough = elim (le-cases (position q i) q.next) [
    | inl ready ↦
        let (m, found, e) = read_slot_ready inv i h a ready in
        drain_step fuel (pos i) m q (advance i q) (consume_active i q h a ∙ e)
        ∙ rest m found (
            drain_lem fuel i (advance-Inv inv i h a ready) h (active-advance i q a)
              (omega (arith, position-advance i q)))
    | inr done ↦
        drain_stop fuel (pos i) q (consume_active i q h a ∙ read_slot_empty inv i h a done) ∙ λ k.
        some (
          sym (drop_all (position q i - 1) log (omega (arith, inv.counted))) k,
          sym (caught_up_already i q (omega (arith, (inv.readers i h a).reached))) k,
        )
  ]
    where
      rest :
          (m : T)
          → get_elem? log (position q i - 1) ≡ some m
          → drain fuel (pos i) (advance i q)
            ≡ some (drop (position (advance i q) i - 1) log, caught_up i (advance i q))
          → prepend m (drain fuel (pos i) (advance i q))
            ≡ some (drop (position q i - 1) log, caught_up i q)
      rest m found ih = rw (
        ih,
        drop-position (position q i) log m (inv.readers i h a).positive found,
        position-advance i q,
        caught_up-advance i q,
      )
