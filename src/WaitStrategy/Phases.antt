-- ===== src/WaitStrategy/Phases.antt =====
-- The two phases of `wait_for_data` in include/WaitStrategy.h.
use lock_free_spmc_queue_dis.Common.{
  ℕ, zero, suc, ◌-◌, ◌<◌, ◌≡◌, refl, false, List, [], ◌∷◌, arith, ◌^◌, le-cases, ltb, get_elem?,
  ◌↔◌, some, lt→ltb, inl, inr,
}
use lock_free_spmc_queue_dis.WaitStrategy.{
  EventFd, WaitStrategy, busy_spin, yielding, blocking, Waited, paused, wait_for_data, block,
  increment32,
}

-- Call number `i` from here, counted from 0, still spins.
abbrev pub Spins : WaitStrategy → ℕ → Type 0
Spins busy_spin i = Unit
Spins (yielding limit count) i = i < limit - count
Spins (blocking _ limit _ count) i = i < limit - count

-- The limit is a `uint32_t`.
abbrev pub Bounded : WaitStrategy → Type 0
Bounded busy_spin = Unit
Bounded (yielding limit count) = limit < 2 ^ 32
Bounded (blocking _ limit _ count) = limit < 2 ^ 32

module _ {ℓ} {K : Type ℓ} (os : EventFd K) where
  -- `n` calls of `wait_for_data` in a row: how they waited, and what they leave.
  unfoldable pub waits : ℕ → WaitStrategy → K → List Waited × WaitStrategy × K
  waits zero s k = ([], s, k)
  waits (suc n) s k =
      let (waited, s', k') = wait_for_data os s k in
      let (rest, s'', k'') = waits n s' k' in (waited ∷ rest, s'', k'')

  iff_trans : {P : Type 0} {m n i j : ℕ} → P ↔ (i < m) → (i < m) ↔ (j < n) → P ↔ (j < n)
  iff_trans (f, g) (f', g') = ((λ p. f' (f p)), λ h. g (g' h))

  -- Of `n` calls of `wait_for_data` in a row, from any state of a strategy whose limit is a
  -- `uint32_t`, call number `i`, counted from 0, spins exactly if `i` is below the limit less the
  -- spin count at the start; `BusySpinWaitStrategy` spins in every call.
  pub waits-Spins :
      (n : ℕ) (s : WaitStrategy) (k : K)
      → Bounded s
      → (i : ℕ) → i < n
      → (get_elem? (waits n s k).0 i ≡ some paused) ↔ Spins s i
  unfolding waits wait_for_data block
  waits-Spins zero s k h i hi = absurd (omega arith)
  waits-Spins (suc n) busy_spin k h zero hi = ((λ _. tt), λ _. refl)
  waits-Spins (suc n) busy_spin k h (suc i) hi = waits-Spins n busy_spin k h i (omega arith)
  waits-Spins (suc n) (yielding limit count) k h zero hi = ground arith
  waits-Spins (suc n) (yielding limit count) k h (suc i) hi = elim (le-cases limit count) [
    | inl out ↦
        let test : ltb count limit ≡ false = ground arith in
        rw test (iff_trans (waits-Spins n (yielding limit count) k h i (omega arith)) (omega arith))
    | inr spin ↦ rw (lt→ltb count limit spin) (
        iff_trans (waits-Spins n (yielding limit (increment32 count)) k h i (omega arith))
          (omega arith))
  ]
  waits-Spins (suc n) (blocking fd limit timeout count) k h zero hi = ground arith
  waits-Spins (suc n) (blocking fd limit timeout count) k h (suc i) hi =
      elim (le-cases limit count) [
        | inl out ↦
            let test : ltb count limit ≡ false = ground arith in
            let k' = (block os fd timeout k).1 in
            rw test (
              iff_trans (waits-Spins n (blocking fd limit timeout count) k' h i (omega arith))
                (omega arith))
        | inr spin ↦ rw (lt→ltb count limit spin) (
            iff_trans
              (waits-Spins n (blocking fd limit timeout (increment32 count)) k h i (omega arith))
              (omega arith))
      ]
