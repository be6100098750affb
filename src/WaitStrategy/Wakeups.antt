-- ===== src/WaitStrategy/Wakeups.antt =====
-- `notify_all` against `wait_for_data` of include/WaitStrategy.h, on an eventfd made with
-- `EFD_SEMAPHORE`.
use lock_free_spmc_queue_dis.Common.{
  ℕ, zero, suc, ◌+◌, ◌-◌, ◌<◌, ◌≤◌, ◌≡◌, false, some, arith, get_elem?, ltb, Bool-cases, inl, inr,
  ◌∙◌, ap, sym, ltb→lt,
}
use lock_free_spmc_queue_dis.WaitStrategy.{
  EventFd, WaitStrategy, blocking, polled, block, wait_for_data, notify_all,
}
use lock_free_spmc_queue_dis.WaitStrategy.Phases.{waits}

-- What eventfd(2) says of such a descriptor while no other thread uses it: it has a counter, is
-- readable while the counter is above 0, a read takes 1 from it and a write of 1 adds 1.
pub record Semaphore {ℓ} {K : Type ℓ} (os : EventFd K) (fd : ℕ) : Type ℓ where
  pub level : K → ℕ
  pub level-poll : (timeout : ℕ) (k : K) → level (os.poll fd timeout k).1 ≡ level k
  pub poll-level : (timeout : ℕ) (k : K) → (os.poll fd timeout k).0 ≡ ltb 0 (level k)
  pub level-read : (k : K) → 0 < level k → level (os.read fd k) + 1 ≡ level k
  pub level-write : (k : K) → level (os.write fd k) ≡ level k + 1

module _ {ℓ} {K : Type ℓ} (os : EventFd K) (fd : ℕ) (sem : Semaphore os fd) where
  level-block : (timeout : ℕ) (k : K) → sem.level (block os fd timeout k).1 ≡ sem.level k - 1
  unfolding block
  level-block timeout k = elim (Bool-cases (os.poll fd timeout k).0) [
    | inl up ↦
        let some_left : 0 < sem.level k =
          ltb→lt 0 (sem.level k) (sym (sem.poll-level timeout k) ∙ up) in
        let same = sem.level-poll timeout k in
        let less = sem.level-read (os.poll fd timeout k).1 (omega arith) in rw up (omega arith)
    | inr down ↦
        let none_left : sem.level k ≡ 0 = ground (arith, sem.poll-level timeout k, down) in
        rw down (omega (arith, sem.level-poll timeout k))
  ]

  block-polled :
      (timeout : ℕ) (k : K) → some (block os fd timeout k).0 ≡ some (polled (ltb 0 (sem.level k)))
  unfolding block
  block-polled timeout k = ap (λ b. some (polled b)) (sem.poll-level timeout k)

  -- `n` messages published with nobody asleep.
  unfoldable pub notifies : ℕ → WaitStrategy → K → K
  notifies zero s k = k
  notifies (suc n) s k = notifies n s (notify_all os s k)

  level-notifies :
      (n limit timeout count : ℕ) (k : K)
      → sem.level (notifies n (blocking fd limit timeout count) k) ≡ sem.level k + n
  unfolding notifies notify_all
  level-notifies zero limit timeout count k = omega arith
  level-notifies (suc n) limit timeout count k =
      omega (arith, level-notifies n limit timeout count (os.write fd k), sem.level-write k)

  waits-level :
      (n limit timeout count : ℕ) (k : K)
      → limit ≤ count
      → (i : ℕ) → i < n
      → get_elem? (waits os n (blocking fd limit timeout count) k).0 i
        ≡ some (polled (ltb i (sem.level k)))
  unfolding waits wait_for_data
  waits-level zero limit timeout count k h i hi = absurd (omega arith)
  waits-level (suc n) limit timeout count k h zero hi =
      let test : ltb count limit ≡ false = ground arith in rw test (block-polled timeout k)
  waits-level (suc n) limit timeout count k h (suc i) hi =
      let test : ltb count limit ≡ false = ground arith in
      let less : ltb i (sem.level k - 1) ≡ ltb (suc i) (sem.level k) = ground arith in
      rw test (
        waits-level n limit timeout count (block os fd timeout k).1 h i (omega arith)
        ∙ ap (λ l. some (polled (ltb i l))) (level-block timeout k)
        ∙ ap (λ b. some (polled b)) less)

  -- Over an eventfd that counts as EFD_SEMAPHORE says, and with no other thread at work on it, call
  -- number `i` of `wait_for_data`, counted from 0, of a blocking strategy past its spin limit finds
  -- the descriptor readable exactly if `i` is below the counter plus the number of `notify_all`
  -- calls before: no notification is lost, and each one ends one wait.
  pub waits-notifies :
      (m n limit timeout count : ℕ) (k : K)
      → limit ≤ count
      → (i : ℕ) → i < n
      → get_elem?
          (waits os n
            (blocking fd limit timeout count)
            (notifies m (blocking fd limit timeout count) k)).0
          i
        ≡ some (polled (ltb i (sem.level k + m)))
  waits-notifies m n limit timeout count k h i hi =
      waits-level n limit timeout count (notifies m (blocking fd limit timeout count) k) h i hi
      ∙ ap (λ l. some (polled (ltb i l))) (level-notifies m limit timeout count k)
