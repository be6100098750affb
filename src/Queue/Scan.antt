-- ===== src/Queue/Scan.antt =====
-- The rescan of `publish` in include/Queue.h against the minimum over the active consumers.
use lock_free_spmc_queue_dis.Common.{
  ℕ, zero, suc, ◌+◌, ◌<◌, ◌≤◌, ◌≡◌, ◌⊎◌, inl, inr, refl, min, true, arith, if◌then◌else◌, eq-cases,
}
use lock_free_spmc_queue_dis.Queue.{ConsumerSlot, scan_min}

module _ (consumers : ℕ → ConsumerSlot) where
  abbrev with_slot : ℕ → ℕ → ℕ
  with_slot i m = if (consumers i).active then min m (consumers i).sequence else m

  pub scan_min-le : (rounds i m : ℕ) → scan_min rounds i consumers m ≤ m
  unfolding scan_min
  scan_min-le zero i m = omega arith
  scan_min-le (suc rounds) i m = ground (arith, scan_min-le rounds (suc i) (with_slot i m))

  -- The result is at or below each active consumer.
  pub scan_min_below :
      (rounds i m j : ℕ)
      → i ≤ j
      → j < i + rounds
      → (consumers j).active ≡ true
      → scan_min rounds i consumers m ≤ (consumers j).sequence
  unfolding scan_min
  scan_min_below zero i m j lo hi a = absurd (omega arith)
  scan_min_below (suc rounds) i m j lo hi a = elim (eq-cases i j) [
    | inl e ↦ ground (arith, scan_min-le rounds (suc i) (with_slot i m))
    | inr ne ↦ scan_min_below rounds (suc i) (with_slot i m) j (omega arith) (omega arith) a
  ]

  -- The result is the start value, or the position of an active consumer.
  abbrev pub Attained : ℕ → ℕ → ℕ → ℕ → Type 0
  Attained rounds i m r =
      (r ≡ m)
      ⊎ ((j : ℕ) × (j < i + rounds) × ((consumers j).active ≡ true) × ((consumers j).sequence ≡ r))

  pub scan_min-Attained : (rounds i m : ℕ) → Attained rounds i m (scan_min rounds i consumers m)
  unfolding scan_min
  scan_min-Attained zero i m = inl refl
  scan_min-Attained (suc rounds) i m =
      grind (arith, scan_min-Attained rounds (suc i) (with_slot i m))
