-- ===== src/Demo.antt =====
-- src/demo_single_process.cpp: `consumer_thread`, the loop of one consumer of the demo.
pub mod Results
pub mod Rounds
pub mod Parts
pub mod Delivery
pub mod Supplied
pub mod Run
use lock_free_spmc_queue_dis.Common.{
  ℕ, Bool, true, false, Option, none, some, List, [], ◌∷◌, ltb, add64, sub64, ℤ,
}
use lock_free_spmc_queue_dis.Queue.{Queue, consume}
use lock_free_spmc_queue_dis.Message.{Message, Counts, count_kind}
use lock_free_spmc_queue_dis.WaitStrategy.{EventFd, WaitStrategy, wait_for_data, reset}
use lock_free_spmc_queue_dis.Latency.{Tracker, record_sample}
use lock_free_spmc_queue_dis.Consumer.{Shared, Turn}

-- `ConsumerResult`
pub record ConsumerResult (Name : Type 0) : Type 0 where
  pub strategy_name : Name
  pub counts : Counts
  pub total : ℕ

-- What the thread works on besides the queue.
pub record Thread (Name Double : Type 0) : Type 0 where
  pub strategy : WaitStrategy
  pub tracker : Tracker Double
  pub result : ConsumerResult Name

module _ {Name Double Price : Type 0} where
  -- A message that is recorded and adds to the total.
  abbrev pub add_total : Message Price → ℕ → Thread Name Double → Thread Name Double
  add_total msg now t = record t {
    tracker = record_sample (sub64 now msg.timestamp_ns) t.tracker;
    result = record (t.result) { total = add64 t.result.total 1 };
  }

  -- A message in the main loop, which is counted by type as well.
  abbrev pub add_counted : Message Price → ℕ → Thread Name Double → Thread Name Double
  add_counted msg now t =
      let t' = add_total msg now t in
      record t' {
        strategy = reset t.strategy;
        result = record (t'.result) { counts = count_kind msg.kind t.result.counts };
      }

module _ {Name Double Price K : Type 0} (os : EventFd K) (id : ℤ) where
  -- The loop after shutdown; none if the rounds run out.
  unfoldable pub drain_remaining :
      List (Turn (Message Price) K)
      → Shared (Message Price) K
      → Thread Name Double
      → Option (Shared (Message Price) K × Thread Name Double)
  drain_remaining [] s t = none
  drain_remaining (turn ∷ turns) s t =
      let here : Shared (Message Price) K = turn.before s in
      let r = consume id here.queue in
      let after : Shared (Message Price) K = record here { queue = r.1 } in
      elim r.0 [
        | none ↦ some (after, t)
        | some msg ↦ drain_remaining turns after (add_total msg after.clock t)
      ]

  -- The main loop.
  unfoldable pub thread_loop :
      ℕ
      → List (Turn (Message Price) K)
      → Shared (Message Price) K
      → Thread Name Double
      → Option (Shared (Message Price) K × Thread Name Double)
  thread_loop total_messages [] s t = none
  thread_loop total_messages (turn ∷ turns) s t = elim (ltb t.result.total total_messages) [
    | false ↦ some (s, t)
    | true ↦
        let here : Shared (Message Price) K = turn.before s in
        let r = consume id here.queue in
        let after : Shared (Message Price) K = record here { queue = r.1 } in
        elim r.0 [
          | some msg ↦ thread_loop total_messages turns after (add_counted msg after.clock t)
          | none ↦
              let (waited, strategy, kernel) = wait_for_data os t.strategy after.kernel in
              let awake : Shared (Message Price) K =
                turn.waiting (record after { kernel = kernel }) in
              let t' : Thread Name Double = record t { strategy = strategy } in
              elim awake.shutdown [
                | true ↦ drain_remaining turns awake t'
                | false ↦ thread_loop total_messages turns awake t'
              ]
        ]
  ]

  -- `consumer_thread`
  unfoldable pub consumer_thread :
      ℕ
      → Name
      → List (Turn (Message Price) K)
      → Shared (Message Price) K
      → Thread Name Double
      → Option (Shared (Message Price) K × Thread Name Double)
  consumer_thread total_messages name turns s t =
      thread_loop total_messages turns s
        (record t { result = record (t.result) { strategy_name = name } })
