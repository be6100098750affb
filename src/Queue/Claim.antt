-- ===== src/Queue/Claim.antt =====
-- The loop of `register_consumer` in include/Queue.h.
use lock_free_spmc_queue_dis.Common.{
  ℕ, zero, suc, ◌+◌, ◌<◌, ◌≤◌, ◌≡◌, inl, inr, refl, true, false, Option, none, some, Bool-cases,
  arith, eq-cases, update,
}
use lock_free_spmc_queue_dis.Queue.{ConsumerSlot, claim}

module _ (start : ℕ) (consumers : ℕ → ConsumerSlot) where
  -- Slot `j` among the `rounds` from `i` on was free, and is all that has changed.
  abbrev pub Taken : ℕ → ℕ → (ℕ → ConsumerSlot) → ℕ → Type 0
  Taken rounds i after j =
      (i ≤ j)
      × (j < i + rounds)
      × ((consumers j).active ≡ false)
      × (after ≡ update consumers j (record { active = true; sequence = start }))

  -- What the loop over `rounds` slots from `i` on has done when it returns.
  pub record Claimed (rounds i : ℕ) (id : Option ℕ) (after : ℕ → ConsumerSlot) : Type 0 where
    pub taken : (j : ℕ) → id ≡ some j → Taken rounds i after j
    pub first : (j k : ℕ) → id ≡ some j → i ≤ k → k < j → (consumers k).active ≡ true
    pub full : (k : ℕ) → id ≡ none → i ≤ k → k < i + rounds → (consumers k).active ≡ true
    pub kept : id ≡ none → after ≡ consumers

  Claimed-here :
      (rounds i : ℕ)
      → (consumers i).active ≡ false
      → Claimed
          (suc rounds)
          i
          (some i)
          (update consumers i (record { active = true; sequence = start }))
  Claimed-here rounds i free = record {
    taken = λ j e. let same : i ≡ j = cc in rw (← same) (omega arith, omega arith, free, refl);
    first = λ j k e lo hi. ground arith;
    full = λ k e. cc;
    kept = λ e. cc;
  }

  Claimed-later :
      (rounds i : ℕ) (id : Option ℕ) (after : ℕ → ConsumerSlot)
      → (consumers i).active ≡ true
      → Claimed rounds (suc i) id after
      → Claimed (suc rounds) i id after
  Claimed-later rounds i id after busy c = record {
    taken = λ j e. let t = c.taken j e in (omega arith, omega arith, t.2, t.3);
    first = λ j k e lo hi. elim (eq-cases i k) [
      | inl same ↦ rw (← same) busy
      | inr ne ↦ c.first j k e (omega arith) hi
    ];
    full = λ k e lo hi. elim (eq-cases i k) [
      | inl same ↦ rw (← same) busy
      | inr ne ↦ c.full k e (omega arith) (omega arith)
    ];
    kept = c.kept;
  }

  pub claim-Claimed :
      (rounds i : ℕ) → let (id, after) = claim rounds i start consumers in Claimed rounds i id after
  unfolding claim
  claim-Claimed zero i = record {
    taken = λ j e. cc;
    first = λ j k e. cc;
    full = λ k e lo hi. absurd (omega arith);
    kept = λ e. refl;
  }
  claim-Claimed (suc rounds) i = elim (Bool-cases (consumers i).active) [
    | inl busy ↦ rw busy (Claimed-later rounds i _ _ busy (claim-Claimed rounds (suc i)))
    | inr free ↦ rw free (Claimed-here rounds i free)
  ]
