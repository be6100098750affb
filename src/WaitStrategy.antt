-- ===== src/WaitStrategy.antt =====
-- include/WaitStrategy.h: the three strategies as state machines over the kernel's eventfd.
pub mod Phases
pub mod Wakeups
use lock_free_spmc_queue_dis.Common.{
  ℕ, ◌≡◌, Bool, true, false, ltb, if◌then◌else◌, add64, ◌%◌, ◌+◌, ◌^◌,
}

-- What the strategies use of an eventfd, over the kernel's state `K`: `poll` with its timeout says
-- whether the descriptor is readable, `read` takes from its counter, `write` adds 1 to it.
pub record EventFd {ℓ} (K : Type ℓ) : Type ℓ where
  pub poll : (fd timeout : ℕ) → K → Bool × K
  pub read : (fd : ℕ) → K → K
  pub write : (fd : ℕ) → K → K

-- The classes that implement `WaitStrategy`, with their fields.
pub data WaitStrategy : Type 0 where
  busy_spin : WaitStrategy
  yielding : (spin_limit spin_count : ℕ) → WaitStrategy
  blocking : (event_fd spin_limit poll_timeout_ms spin_count : ℕ) → WaitStrategy

-- How a call of `wait_for_data` spends its time.
pub data Waited : Type 0 where
  paused : Waited
  yielded : Waited
  polled : (readable : Bool) → Waited

-- `++spin_count_` on a `uint32_t`
abbrev pub increment32 : ℕ → ℕ
increment32 n = (n + 1) % 2 ^ 32

abbrev pub default_spin_limit : ℕ
default_spin_limit = 1000

-- The constructors.
abbrev pub new_yielding : ℕ → WaitStrategy
new_yielding spin_limit = yielding spin_limit 0

abbrev pub new_blocking : ℕ → ℕ → ℕ → WaitStrategy
new_blocking event_fd spin_limit poll_timeout_ms = blocking event_fd spin_limit poll_timeout_ms 0

-- `reset` of each class.
abbrev pub busy_spin_reset : WaitStrategy
busy_spin_reset = busy_spin

abbrev pub yielding_reset : (spin_limit spin_count : ℕ) → WaitStrategy
yielding_reset limit count = yielding limit 0

abbrev pub blocking_reset : (event_fd spin_limit poll_timeout_ms spin_count : ℕ) → WaitStrategy
blocking_reset fd limit timeout count = blocking fd limit timeout 0

-- `WaitStrategy::reset`, which is virtual.
unfoldable pub reset : WaitStrategy → WaitStrategy
reset busy_spin = busy_spin_reset
reset (yielding limit count) = yielding_reset limit count
reset (blocking fd limit timeout count) = blocking_reset fd limit timeout count

module _ {ℓ} {K : Type ℓ} where
  -- `wait_for_data` of `BusySpinWaitStrategy`
  abbrev pub busy_spin_wait : K → Waited × WaitStrategy × K
  busy_spin_wait k = (paused, busy_spin, k)

  -- `wait_for_data` of `YieldingWaitStrategy`
  abbrev pub yielding_wait : (spin_limit spin_count : ℕ) → K → Waited × WaitStrategy × K
  yielding_wait limit count k =
      if ltb count limit
      then (paused, yielding limit (increment32 count), k)
      else (yielded, yielding limit count, k)

  -- `notify_all` of the first two classes.
  abbrev pub busy_spin_notify : K → K
  busy_spin_notify k = k

  abbrev pub yielding_notify : (spin_limit spin_count : ℕ) → K → K
  yielding_notify limit count k = k

module _ {ℓ} {K : Type ℓ} (os : EventFd K) where
  -- Phase 2 of `BlockingWaitStrategy::wait_for_data`.
  unfoldable pub block : ℕ → ℕ → K → Waited × K
  block fd timeout k =
      let (readable, k') = os.poll fd timeout k in
      (polled readable, if readable then os.read fd k' else k')

  -- `wait_for_data` of `BlockingWaitStrategy`
  abbrev pub blocking_wait :
      (event_fd spin_limit poll_timeout_ms spin_count : ℕ) → K → Waited × WaitStrategy × K
  blocking_wait fd limit timeout count k =
      if ltb count limit
      then (paused, blocking fd limit timeout (increment32 count), k)
      else (let (waited, k') = block fd timeout k in (waited, blocking fd limit timeout count, k'))

  -- `notify_all` of `BlockingWaitStrategy`
  abbrev pub blocking_notify : (event_fd spin_limit poll_timeout_ms spin_count : ℕ) → K → K
  blocking_notify fd limit timeout count k = os.write fd k

  -- `WaitStrategy::wait_for_data`, which is virtual.
  unfoldable pub wait_for_data : WaitStrategy → K → Waited × WaitStrategy × K
  wait_for_data busy_spin k = busy_spin_wait k
  wait_for_data (yielding limit count) k = yielding_wait limit count k
  wait_for_data (blocking fd limit timeout count) k = blocking_wait fd limit timeout count k

  -- `WaitStrategy::notify_all`, which is virtual.
  unfoldable pub notify_all : WaitStrategy → K → K
  notify_all busy_spin k = busy_spin_notify k
  notify_all (yielding limit count) k = yielding_notify limit count k
  notify_all (blocking fd limit timeout count) k = blocking_notify fd limit timeout count k
