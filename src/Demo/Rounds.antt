-- ===== src/Demo/Rounds.antt =====
-- One round of the loops of `consumer_thread` in src/demo_single_process.cpp, by what it meets.
use lock_free_spmc_queue_dis.Common.{ℕ, ◌≡◌, true, false, none, some, List, ◌∷◌, ℤ, arith, ltb}
use lock_free_spmc_queue_dis.Queue.{Queue, consume}
use lock_free_spmc_queue_dis.Message.{Message}
use lock_free_spmc_queue_dis.WaitStrategy.{EventFd, wait_for_data}
use lock_free_spmc_queue_dis.Consumer.{Shared, Turn}
use lock_free_spmc_queue_dis.Demo.{Thread, add_total, add_counted, drain_remaining, thread_loop}

module _ {Name Double Price K : Type 0} (id : ℤ) (os : EventFd K) where
  pub drain_more :
      (turn : Turn (Message Price) K) (turns : List (Turn (Message Price) K))
      (s : Shared (Message Price) K) (t : Thread Name Double) (m : Message Price)
      (q : Queue (Message Price))
      → consume id (turn.before s).queue ≡ (some m, q)
      → drain_remaining os id (turn ∷ turns) s t
        ≡ drain_remaining os id turns
            (record (turn.before s) { queue = q })
            (add_total m (turn.before s).clock t)
  unfolding drain_remaining
  drain_more turn turns s t m q found = ground (arith, found)

  pub drain_done :
      (turn : Turn (Message Price) K) (turns : List (Turn (Message Price) K))
      (s : Shared (Message Price) K) (t : Thread Name Double) (q : Queue (Message Price))
      → consume id (turn.before s).queue ≡ (none, q)
      → drain_remaining os id (turn ∷ turns) s t ≡ some (record (turn.before s) { queue = q }, t)
  unfolding drain_remaining
  drain_done turn turns s t q found = ground (arith, found)

  -- What is shared while the thread waits, and the thread after the wait.
  abbrev pub asleep :
      Turn (Message Price) K
      → Shared (Message Price) K
      → Thread Name Double
      → Queue (Message Price)
      → Shared (Message Price) K
  asleep turn s t q = record (turn.before s) {
    queue = q;
    kernel = (wait_for_data os t.strategy (turn.before s).kernel).2;
  }

  abbrev pub waited :
      Turn (Message Price) K → Shared (Message Price) K → Thread Name Double → Thread Name Double
  waited turn s t = record t { strategy = (wait_for_data os t.strategy (turn.before s).kernel).1 }

  module _ (total_messages : ℕ) where
    pub thread_done :
        (turn : Turn (Message Price) K) (turns : List (Turn (Message Price) K))
        (s : Shared (Message Price) K) (t : Thread Name Double)
        → ltb t.result.total total_messages ≡ false
        → thread_loop os id total_messages (turn ∷ turns) s t ≡ some (s, t)
    unfolding thread_loop
    thread_done turn turns s t stop = ground (arith, stop)

    pub thread_more :
        (turn : Turn (Message Price) K) (turns : List (Turn (Message Price) K))
        (s : Shared (Message Price) K) (t : Thread Name Double) (m : Message Price)
        (q : Queue (Message Price))
        → ltb t.result.total total_messages ≡ true
        → consume id (turn.before s).queue ≡ (some m, q)
        → thread_loop os id total_messages (turn ∷ turns) s t
          ≡ thread_loop os id total_messages turns
              (record (turn.before s) { queue = q })
              (add_counted m (turn.before s).clock t)
    unfolding thread_loop
    thread_more turn turns s t m q go_on found = ground (arith, go_on, found)

    pub thread_drain :
        (turn : Turn (Message Price) K) (turns : List (Turn (Message Price) K))
        (s : Shared (Message Price) K) (t : Thread Name Double) (q : Queue (Message Price))
        → ltb t.result.total total_messages ≡ true
        → consume id (turn.before s).queue ≡ (none, q)
        → (turn.waiting (asleep turn s t q)).shutdown ≡ true
        → thread_loop os id total_messages (turn ∷ turns) s t
          ≡ drain_remaining os id turns (turn.waiting (asleep turn s t q)) (waited turn s t)
    unfolding thread_loop
    thread_drain turn turns s t q go_on found shut = ground (arith, go_on, found, shut)

    pub thread_wait :
        (turn : Turn (Message Price) K) (turns : List (Turn (Message Price) K))
        (s : Shared (Message Price) K) (t : Thread Name Double) (q : Queue (Message Price))
        → ltb t.result.total total_messages ≡ true
        → consume id (turn.before s).queue ≡ (none, q)
        → (turn.waiting (asleep turn s t q)).shutdown ≡ false
        → thread_loop os id total_messages (turn ∷ turns) s t
          ≡ thread_loop os id total_messages turns
              (turn.waiting (asleep turn s t q))
              (waited turn s t)
    unfolding thread_loop
    thread_wait turn turns s t q go_on found unset = ground (arith, go_on, found, unset)
