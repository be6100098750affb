-- ===== src/Queue/Backpressure.antt =====
-- How many messages the `publish` of include/Queue.h places before the ring is full.
use lock_free_spmc_queue_dis.Common.{
  ℕ, ◌+◌, ◌-◌, ◌<◌, ◌≤◌, ◌≡◌, ◌⊎◌, ◌↔◌, inl, inr, ap, true, false, List, [], ◌∷◌, ◌++◌, min, arith,
  length, if◌then◌else◌,
}
use lock_free_spmc_queue_dis.Queue.{Queue, ring_size, max_consumers, publish, write_slot}
use lock_free_spmc_queue_dis.Queue.Inv.{max_messages, Inv}
use lock_free_spmc_queue_dis.Queue.Consume.{position}
use lock_free_spmc_queue_dis.Queue.Append.{appended, HasRoom, appended-Inv}
use lock_free_spmc_queue_dis.Queue.Publish.{Lagging, NoneActive, publish-cases, recached-Inv}

module _ {ℓ} {T : Type ℓ} where
  -- On a queue that keeps the invariant and has an active consumer, `publish` succeeds exactly if
  -- no active consumer is a lap behind the new message, although it looks at the consumers only
  -- when the cached minimum makes the ring look full.
  pub publish-ok_iff :
      {q : Queue T} {log : List T} (item : T) (i : ℕ)
      → Inv q log
      → q.next < max_messages
      → i < max_consumers
      → (q.consumers i).active ≡ true
      → ((publish item q).0 ≡ true) ↔ HasRoom q
  publish-ok_iff {q} item i inv small h a = elim (publish-cases inv item small) [
    | inl (c, free, caches, e) ↦ ((λ _. free), λ _. ap (λ r. r.0) e)
    | inr (c, why, caches, e) ↦
        ((λ ok. absurd (refused-ne-ok e ok)), λ free. absurd (blocked free why))
  ]
    where
      refused-ne-ok : {q' : Queue T} → publish item q ≡ (false, q') → (publish item q).0 ≡ true → ⊥
      refused-ne-ok e ok = cc

      blocked : HasRoom q → ((j : ℕ) × Lagging q j) ⊎ (NoneActive q × (ring_size ≤ q.next + 1)) → ⊥
      blocked free (inl (j, (hj, aj, lag))) = omega (arith, free j hj aj)
      blocked free (inr (quiet, late)) = quiet i h a

  -- Offers the messages one after another, and counts those accepted.
  unfoldable pub offer : List T → Queue T → ℕ × Queue T
  offer [] q = (0, q)
  offer (x ∷ xs) q =
      let (ok, q') = publish x q in let (n, q'') = offer xs q' in (if ok then n + 1 else n, q'')

  -- Consumer `i` is active, and no other is behind it.
  abbrev pub Slowest : Queue T → ℕ → Type 0
  Slowest q i =
      (i < max_consumers)
      × ((q.consumers i).active ≡ true)
      × ((j : ℕ) → j < max_consumers → (q.consumers j).active ≡ true → position q i ≤ position q j)

  Slowest-appended :
      (q : Queue T) (i : ℕ) (x : T) (c : ℕ) → Slowest q i → Slowest (appended x c q) i
  unfolding write_slot
  Slowest-appended q i x c s = s

  Slowest-lags :
      (q : Queue T) (i : ℕ)
      → Slowest q i
      → ((j : ℕ) × Lagging q j) ⊎ (NoneActive q × (ring_size ≤ q.next + 1))
      → position q i + ring_size ≤ q.next + 1
  Slowest-lags q i s (inl (j, (hj, aj, lag))) = omega (arith, s.2 j hj aj)
  Slowest-lags q i s (inr (quiet, late)) = absurd (quiet i s.0 s.1)

  -- Of a list of messages published one after another on a queue that keeps the invariant, while no
  -- consumer reads, as many are accepted as fit between the last message and the end of the lap of
  -- the slowest active consumer.
  pub offer-eq-min :
      (items : List T) {q : Queue T} {log : List T} (i : ℕ)
      → Inv q log
      → Slowest q i
      → q.next + length items ≤ max_messages
      → (offer items q).0 ≡ min (length items) (position q i + (ring_size - 1) - q.next)
  unfolding offer write_slot
  offer-eq-min [] i inv s h = omega arith
  offer-eq-min (x ∷ xs) {q} {log} i inv s h = elim (publish-cases inv x (omega arith)) [
    | inl (c, free, caches, e) ↦ rw e (
        omega (
          arith,
          offer-eq-min xs {log = log ++ x ∷ []} i (appended-Inv inv x c (omega arith) free caches)
              (Slowest-appended q i x c s) (omega arith),
          free i s.0 s.1,
        ))
    | inr (c, why, caches, e) ↦ rw e (
        omega (
          arith,
          offer-eq-min xs i (recached-Inv inv c caches) s (omega arith),
          Slowest-lags q i s why,
        ))
  ]
