-- ===== src/Queue/LateJoin.antt =====
-- `register_consumer` with a start that the ring no longer holds, as the constructor in
-- include/Consumer.h gives once the producer is more than a lap past message 1.
use lock_free_spmc_queue_dis.Common.{
  ℕ, ◌+◌, ◌-◌, ◌%◌, ◌<◌, ◌≤◌, ◌≡◌, true, some, refl, List, arith, get_elem?, pos, ==_self, subst,
  ◌∙◌, ap, u64_mod,
}
use lock_free_spmc_queue_dis.Queue.{Queue, ring_size, max_consumers, slot_index, consume, read_slot}
use lock_free_spmc_queue_dis.Queue.Index.{slot_index-eq-mod}
use lock_free_spmc_queue_dis.Queue.Inv.{Inv, Holds}
use lock_free_spmc_queue_dis.Queue.Consume.{position, advance, consume_active}
use lock_free_spmc_queue_dis.Queue.Register.{enrolled}

-- The last number up to `next` that shares its slot with `start`.
abbrev pub overwriting : ℕ → ℕ → ℕ
overwriting next start = next - (next - start) % ring_size

overwriting-slot :
    (next start : ℕ) → start ≤ next → slot_index (overwriting next start) ≡ slot_index start
overwriting-slot next start h =
    omega (arith, slot_index-eq-mod (overwriting next start), slot_index-eq-mod start)

module _ {ℓ} {T : Type ℓ} where
  -- A slot whose stamp is above the reader's number is taken, whatever message it holds.
  read_slot_stamped :
      (i : ℕ) (q : Queue T)
      → position q i + 1 < u64_mod
      → position q i < (q.ring (slot_index (position q i))).sequence
      → read_slot i q ≡ (some (q.ring (slot_index (position q i))).content, advance i q)
  unfolding read_slot
  read_slot_stamped i q small above = ground arith

  module _ {q : Queue T} {log : List T} (inv : Inv q log) (start : ℕ)
      (late : start + ring_size ≤ q.next) where
    overwriting-Holds : Holds (q.ring (slot_index start)) log (overwriting q.next start - 1)
    overwriting-Holds =
        let n : ℕ = overwriting q.next start in
        let back : n - 1 + 1 ≡ n = omega arith in
        let same : slot_index (n - 1 + 1) ≡ slot_index start =
          ap slot_index back ∙ overwriting-slot q.next start (omega arith) in
        subst (λ s. Holds (q.ring s) log (n - 1)) same
          (inv.held (n - 1) (omega arith) (omega arith))

    late_read :
        (i : ℕ)
        → i < max_consumers
        → consume (pos i) (enrolled i start q)
          ≡ (some (q.ring (slot_index start)).content, advance i (enrolled i start q))
    late_read i hi =
        let active : ((enrolled i start q).consumers i).active ≡ true = rw (==_self i) refl in
        let here : position (enrolled i start q) i ≡ start = rw (position, ==_self i) refl in
        let above = overwriting-Holds.stamp in
        let ready : position (enrolled i start q) i
            < (q.ring (slot_index (position (enrolled i start q) i))).sequence =
          rw (here, above) (omega arith) in
        consume_active i (enrolled i start q) hi active
        ∙ rw (read_slot_stamped i (enrolled i start q) (rw here (omega (arith, inv.small))) ready)
            (ap (λ s. (some (q.ring (slot_index s)).content, advance i (enrolled i start q))) here)

  -- A consumer that registers at a message which a full lap has overwritten gets, at its first
  -- `consume`, a later message in its place, and its position moves on by one, as if it had read
  -- the one it asked for.
  pub late_join :
      {q : Queue T} {log : List T} (i start : ℕ)
      → Inv q log
      → i < max_consumers
      → start + ring_size ≤ q.next
      → (start < overwriting q.next start)
        × (get_elem? log (overwriting q.next start - 1) ≡ (consume (pos i) (enrolled i start q)).0)
        × (position (consume (pos i) (enrolled i start q)).1 i ≡ start + 1)
  late_join {q} i start inv hi late =
      let call = late_read inv start late i hi in
      (omega arith, rw call (overwriting-Holds inv start late).message, rw call (ground arith))
