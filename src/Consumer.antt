-- ===== src/Consumer.antt =====
-- include/Consumer.h: the loop of `Consumer::run`, with the handler that a subclass gives.
mod Rounds
pub mod Account
pub mod Quiet
pub mod InOrder
pub mod Delivery
pub mod Logging
pub mod Exact
pub mod Supplied
use lock_free_spmc_queue_dis.Common.{
  ℕ, zero, suc, Bool, true, false, Option, none, some, List, [], ◌∷◌, ◌&&◌, ltb, leb, if◌then◌else◌,
  add64, sub64, ℤ, pos,
}
use lock_free_spmc_queue_dis.Queue.{Queue, register_consumer, unregister_consumer, consume}
use lock_free_spmc_queue_dis.WaitStrategy.{EventFd, WaitStrategy, wait_for_data, reset}
use lock_free_spmc_queue_dis.Latency.{Tracker, record_sample}

-- What the consumer shares with other threads and the kernel: the queue, the producer's shutdown
-- flag, the eventfd, and the counter that `rdtsc` reads.
pub record Shared {ℓ} (T K : Type ℓ) : Type ℓ where
  pub queue : Queue T
  pub shutdown : Bool
  pub kernel : K
  pub clock : ℕ

-- What the other threads do in one round of the loop, before it and while it waits.
pub record Turn {ℓ} (T K : Type ℓ) : Type ℓ where
  pub before : Shared T K → Shared T K
  pub waiting : Shared T K → Shared T K

-- What is the consumer's own: its strategy and tracker, the state `H` of the subclass, and the
-- messages counted so far, which end in `consumed_count_`.
pub record Local {ℓ} (H Double : Type ℓ) : Type ℓ where
  pub strategy : WaitStrategy
  pub tracker : Tracker Double
  pub handled : H
  pub count : ℕ

-- What a subclass and its message type bring: `timestamp_ns` and `onMessage`.
pub record Handler {ℓ} (T H : Type ℓ) : Type ℓ where
  pub timestamp_ns : T → ℕ
  pub on_message : T → H → H

-- The constructor's registration: it starts at message 1, and none stands for its exception.
abbrev pub attach {ℓ} : {T : Type ℓ} → Queue T → Option ℕ × Queue T
attach q = register_consumer 1 q

-- The destructor.
abbrev pub detach {ℓ} : {T : Type ℓ} → ℤ → Queue T → Queue T
detach id q = unregister_consumer id q

-- `max_messages > 0 && count >= max_messages`
unfoldable pub reached : ℕ → ℕ → Bool
reached max_messages count = ltb 0 max_messages && leb max_messages count

module _ {ℓ} {T H Double : Type ℓ} (handler : Handler T H) where
  -- A message that has been read: its latency is recorded, it is handled, and it is counted.
  unfoldable pub handle : T → ℕ → Local H Double → Local H Double
  handle msg now l = record l {
    tracker = record_sample (sub64 now (handler.timestamp_ns msg)) l.tracker;
    handled = handler.on_message msg l.handled;
    count = add64 l.count 1;
  }

module _ {ℓ} {T H K Double : Type ℓ} (handler : Handler T H) (id : ℤ) where
  -- The loop that drains the queue after shutdown. Each round has its turn of the other threads;
  -- none if the rounds run out.
  unfoldable pub drain_rest :
      List (Turn T K) → Shared T K → Local H Double → Option (Shared T K × Local H Double)
  drain_rest [] s l = none
  drain_rest (turn ∷ turns) s l =
      let here : Shared T K = turn.before s in
      let r = consume id here.queue in
      let after : Shared T K = record here { queue = r.1 } in
      elim r.0 [
        | none ↦ some (after, l)
        | some msg ↦ drain_rest turns after (handle handler msg after.clock l)
      ]

module _ {ℓ} {T H K Double : Type ℓ} (os : EventFd K) (handler : Handler T H) (id : ℤ) where
  -- The loop of `run`.
  unfoldable pub run_loop :
      ℕ → List (Turn T K) → Shared T K → Local H Double → Option (Shared T K × Local H Double)
  run_loop max_messages [] s l = none
  run_loop max_messages (turn ∷ turns) s l = elim (reached max_messages l.count) [
    | true ↦ some (s, l)
    | false ↦
        let here : Shared T K = turn.before s in
        let r = consume id here.queue in
        let after : Shared T K = record here { queue = r.1 } in
        elim r.0 [
          | some msg ↦ run_loop max_messages turns after (
              let l' = handle handler msg after.clock l in
              record l' { strategy = reset l'.strategy })
          | none ↦
              let (waited, strategy, kernel) = wait_for_data os l.strategy after.kernel in
              let awake : Shared T K = turn.waiting (record after { kernel = kernel }) in
              let l' : Local H Double = record l { strategy = strategy } in
              elim awake.shutdown [
                | true ↦ drain_rest handler id turns awake l'
                | false ↦ run_loop max_messages turns awake l'
              ]
        ]
  ]

  -- `run`
  unfoldable pub run :
      ℕ → List (Turn T K) → Shared T K → Local H Double → Option (Shared T K × Local H Double)
  run max_messages turns s l = run_loop max_messages turns s (record l { count = 0 })
