-- ===== src/Queue/Register.antt =====
-- `register_consumer` and `unregister_consumer` of include/Queue.h on a queue that keeps its
-- invariant.
use lock_free_spmc_queue_dis.Common.{
  ℕ, ◌<◌, ◌≤◌, ◌≡◌, ◌⊎◌, inl, inr, refl, true, pos, negsuc, lt→ltb, false, Option, none, some, List,
  arith, update, eq-cases, ==_self,
}
use lock_free_spmc_queue_dis.Queue.{
  Queue, ConsumerSlot, max_consumers, register_consumer, unregister_consumer, valid_id, claim,
}
use lock_free_spmc_queue_dis.Queue.Claim.{Claimed, claim-Claimed}
use lock_free_spmc_queue_dis.Queue.Inv.{InWindow, Inv}

module _ {ℓ} {T : Type ℓ} where
  -- The queue with consumer `i` registered at `start`.
  abbrev pub enrolled : ℕ → ℕ → Queue T → Queue T
  enrolled i start q = record q {
    consumers = update q.consumers i (record { active = true; sequence = start });
  }

  -- The queue with consumer slot `i` inactive.
  abbrev pub retired : ℕ → Queue T → Queue T
  retired i q = record q {
    consumers = update q.consumers i (record (q.consumers i) { active = false });
  }

  abbrev pub AllActive : Queue T → ℕ → Type 0
  AllActive q n = (j : ℕ) → j < n → (q.consumers j).active ≡ true

  abbrev pub Registers : ℕ → Queue T → Type ℓ
  Registers start q =
      (i : ℕ) × (i < max_consumers)
      × ((q.consumers i).active ≡ false)
      × AllActive q i
      × (register_consumer start q ≡ (some i, enrolled i start q))

  -- `register_consumer` claims the first inactive slot at the given start and changes no other, or,
  -- if all slots are active, returns none and changes nothing.
  pub register-cases :
      (start : ℕ) (q : Queue T)
      → Registers start q ⊎ (AllActive q max_consumers × (register_consumer start q ≡ (none, q)))
  unfolding register_consumer
  register-cases start q =
      go (claim max_consumers 0 start q.consumers) refl
        (claim-Claimed start q.consumers max_consumers 0)
    where
      go :
          (r : Option ℕ × (ℕ → ConsumerSlot))
          → claim max_consumers 0 start q.consumers ≡ r
          → Claimed start q.consumers max_consumers 0 r.0 r.1
          → Registers start q
            ⊎ (AllActive q max_consumers × (register_consumer start q ≡ (none, q)))
      go (none, after) e c = inr ((λ j h. c.full j refl (omega arith) h), rw (e, c.kept refl))
      go (some i, after) e c =
          let (lo, hi, free, after_eq) = c.taken i refl in
          inl (i, hi, free, (λ j h. c.first i j refl (omega arith) h), rw (e, after_eq))

  pub unregister-eq-retired :
      (i : ℕ) (q : Queue T) → i < max_consumers → unregister_consumer (pos i) q ≡ retired i q
  unfolding unregister_consumer valid_id
  unregister-eq-retired i q h = rw (lt→ltb i max_consumers h)

  -- An identifier that is out of range changes nothing.
  pub unregister_out_of_range :
      (i : ℕ) (q : Queue T) → max_consumers ≤ i → unregister_consumer (pos i) q ≡ q
  unfolding unregister_consumer valid_id
  unregister_out_of_range i q h = ground arith

  pub unregister_negative : (n : ℕ) (q : Queue T) → unregister_consumer (negsuc n) q ≡ q
  unfolding unregister_consumer valid_id
  unregister_negative n q = ground arith

  module _ {q : Queue T} {log : List T} (inv : Inv q log) where
    pub enrolled-Inv :
        (i start : ℕ) → InWindow q.next q.min_consumer_seq start → Inv (enrolled i start q) log
    enrolled-Inv i start w = record {
      counted = inv.counted;
      small = inv.small;
      held = inv.held;
      stamped = inv.stamped;
      readers = λ j hj aj. elim (eq-cases i j) [
        | inl same ↦ rw (← same, ==_self i) w
        | inr ne ↦ ground (arith, inv.readers j hj)
      ];
      cache = inv.cache;
    }

    pub retired-Inv : (i : ℕ) → Inv (retired i q) log
    retired-Inv i = record {
      counted = inv.counted;
      small = inv.small;
      held = inv.held;
      stamped = inv.stamped;
      readers = λ j hj aj. ground (arith, inv.readers j hj);
      cache = inv.cache;
    }
