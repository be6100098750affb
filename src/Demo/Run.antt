-- ===== src/Demo/Run.antt =====
-- src/demo_single_process.cpp: `main`. The consumer threads are the other threads of its rounds.
pub mod Publishing
pub mod Ends
use lock_free_spmc_queue_dis.Common.{
  ℕ, zero, suc, ◌+◌, ◌%◌, Bool, true, false, Option, none, some, List, [], ◌∷◌, ◌++◌, if◌then◌else◌,
  pos,
}
use lock_free_spmc_queue_dis.Queue.{Queue, fresh, register_consumer, unregister_consumer, publish}
use lock_free_spmc_queue_dis.Message.{Message}
use lock_free_spmc_queue_dis.WaitStrategy.{EventFd}
use lock_free_spmc_queue_dis.SharedMemory.{Call, eventfd, close}
use lock_free_spmc_queue_dis.Consumer.{Shared}
use lock_free_spmc_queue_dis.Producer.{Prices, type_at, message_of, add32}
use lock_free_spmc_queue_dis.Main.Modes.{Exit, status, not_yet}

-- `!c0 || !c1 || !c2`
all_of : Option ℕ → Option ℕ → Option ℕ → Option (ℕ × ℕ × ℕ)
all_of (some c0) (some c1) (some c2) = some (c0, c1, c2)
all_of _ _ _ = none

module _ {ℓ} {T : Type ℓ} where
  -- The three registrations.
  unfoldable pub register_three : Queue T → Option (ℕ × ℕ × ℕ) × Queue T
  unfolding all_of
  register_three q =
      let (c0, q0) = register_consumer 1 q in
      let (c1, q1) = register_consumer 1 q0 in
      let (c2, q2) = register_consumer 1 q1 in (all_of c0 c1 c2, q2)

  unfoldable pub unregister_three : ℕ → ℕ → ℕ → Queue T → Queue T
  unregister_three c0 c1 c2 q =
      unregister_consumer (pos c2) (unregister_consumer (pos c1) (unregister_consumer (pos c0) q))

module _ {ℓ} {Price K : Type ℓ} (os : EventFd K) (efd : ℕ) (prices : Prices Price) where
  -- A publish, with the write that follows one that was accepted.
  abbrev pub publish_write :
      Message Price → Shared (Message Price) K → Bool × Shared (Message Price) K
  publish_write item s =
      let (ok, q) = publish item s.queue in
      (ok, record s { queue = q; kernel = if ok then os.write efd s.kernel else s.kernel })

  -- The two loops, with `left` messages to publish from number `i` on; none if the rounds run out.
  unfoldable pub demo_publish :
      List (Shared (Message Price) K → Shared (Message Price) K)
      → ℕ
      → ℕ
      → ℕ
      → Shared (Message Price) K
      → Option (Shared (Message Price) K)
  demo_publish turns i zero type_idx s = some s
  demo_publish [] i (suc left) type_idx s = none
  demo_publish (turn ∷ turns) i (suc left) type_idx s =
      let here : Shared (Message Price) K = turn s in
      let r = publish_write (message_of prices (type_at type_idx) i here.clock) here in
      elim r.0 [
        | true ↦ demo_publish turns (add32 i 1) left ((type_idx + 1) % 3) r.1
        | false ↦ demo_publish turns i (suc left) ((type_idx + 1) % 3) r.1
      ]

module _ {Name Price K : Type 0} (os : EventFd K) (prices : Prices Price) (total : ℕ)
    (turns : List (Shared (Message Price) K → Shared (Message Price) K))
    (joining : Shared (Message Price) K → Shared (Message Price) K) where
  -- From the shutdown flag on; `joining` is what the consumers do until their threads are joined.
  end_demo :
      ℕ
      → ℕ × ℕ × ℕ
      → Shared (Message Price) K
      → Option (Shared (Message Price) K)
      → List (Call Name) × Shared (Message Price) K × Exit
  end_demo efd ids s none = (eventfd (some efd) ∷ [], s, not_yet)
  end_demo efd (c0, c1, c2) s (some s') =
      let joined : Shared (Message Price) K =
        joining (record s' { shutdown = true; kernel = os.write efd s'.kernel }) in
      (
        eventfd (some efd) ∷ close efd ∷ [],
        record joined { queue = unregister_three c0 c1 c2 joined.queue },
        status 0,
      )

  with_eventfd :
      Option ℕ
      → ℕ × ℕ × ℕ
      → Shared (Message Price) K
      → List (Call Name) × Shared (Message Price) K × Exit
  unfolding end_demo
  with_eventfd none ids s = (eventfd none ∷ [], s, status 1)
  with_eventfd (some efd) ids s = end_demo efd ids s (demo_publish os efd prices turns 1 total 0 s)

  with_consumers :
      Option ℕ
      → Shared (Message Price) K
      → Option (ℕ × ℕ × ℕ)
      → List (Call Name) × Shared (Message Price) K × Exit
  unfolding with_eventfd
  with_consumers event s none = ([], s, status 1)
  with_consumers event s (some ids) = with_eventfd event ids s

  -- `main`; `event` is what `eventfd` answers.
  unfoldable pub demo_main :
      Message Price
      → Option ℕ
      → (kernel : K) (clock : ℕ) → List (Call Name) × Shared (Message Price) K × Exit
  unfolding with_consumers
  demo_main blank event kernel clock =
      let (ids, q) = register_three (fresh blank) in
      with_consumers event (record { queue = q; shutdown = false; kernel = kernel; clock = clock })
        ids
