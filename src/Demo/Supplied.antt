-- ===== src/Demo/Supplied.antt =====
-- `consumer_thread` of src/demo_single_process.cpp while the producer keeps pace.
use lock_free_spmc_queue_dis.Common.{
  ℕ, ◌+◌, ◌-◌, ◌<◌, ◌≤◌, ◌≡◌, Option, some, List, [], ◌∷◌, arith, length, u64_mod, ℤ, ◌∙◌, ltb,
  Bool-cases, inl, inr,
}
use lock_free_spmc_queue_dis.Queue.{consume}
use lock_free_spmc_queue_dis.Message.{Message}
use lock_free_spmc_queue_dis.WaitStrategy.{EventFd}
use lock_free_spmc_queue_dis.Consumer.{Shared, Turn}
use lock_free_spmc_queue_dis.Consumer.Exact.{Every}
use lock_free_spmc_queue_dis.Consumer.Supplied.{Supplies}
use lock_free_spmc_queue_dis.Demo.{Thread, add_counted, thread_loop, consumer_thread}
use lock_free_spmc_queue_dis.Demo.Rounds.{thread_done, thread_more}

module _ {Name Double Price K : Type 0} (os : EventFd K) (id : ℤ) (total_messages : ℕ)
    (bounded : total_messages < u64_mod) where
  -- A thread that returns with its total reached.
  pub record ThreadFinishes (P : Shared (Message Price) K → Type 0)
      (r : Option (Shared (Message Price) K × Thread Name Double)) : Type 0 where
    pub shared : Shared (Message Price) K
    pub own : Thread Name Double
    pub returns : r ≡ some (shared, own)
    pub exact : own.result.total ≡ total_messages
    pub still : P shared

  thread_loop-Finishes :
      (P : Shared (Message Price) K → Type 0) (turns : List (Turn (Message Price) K))
      (s : Shared (Message Price) K) (t : Thread Name Double)
      → Every (Supplies P id) turns
      → P s
      → t.result.total ≤ total_messages
      → total_messages - t.result.total < length turns
      → ThreadFinishes P (thread_loop os id total_messages turns s t)
  thread_loop-Finishes P [] s t every p le enough = absurd (omega arith)
  thread_loop-Finishes P (turn ∷ turns) s t (supplies, every) p le enough =
      elim (Bool-cases (ltb t.result.total total_messages)) [
        | inl go_on ↦
            let (msg, found, p') = supplies s p in
            let more : t.result.total < total_messages = ground (arith, go_on) in
            let t₁ : Thread Name Double = add_counted msg (turn.before s).clock t in
            let one : t₁.result.total ≡ t.result.total + 1 = omega (arith, bounded, more) in
            let rest =
              thread_loop-Finishes P turns _ t₁ every p' (omega (arith, one, more))
                (omega (arith, one, more, enough)) in
            record {
              shared = rest.shared;
              own = rest.own;
              returns =
                  thread_more id os total_messages turn turns s t msg _ go_on
                    (λ j. (found j, (consume id (turn.before s).queue).1))
                  ∙ rest.returns;
              exact = rest.exact;
              still = rest.still;
            }
        | inr stop ↦ record {
          shared = s;
          own = t;
          returns = thread_done id os total_messages turn turns s t stop;
          exact = ground (arith, stop, le);
          still = p;
        }
      ]

  -- If before every round there is a message for the consumer, by a property of the shared state
  -- that each round keeps, and the total is 0 at the start, then `consumer_thread` returns within
  -- one round more than the number of messages it waits for, a number below 2 ^ 64, and its total
  -- is exactly that number.
  pub consumer_thread-Finishes :
      (P : Shared (Message Price) K → Type 0) (name : Name) (turns : List (Turn (Message Price) K))
      (s : Shared (Message Price) K) (t : Thread Name Double)
      → Every (Supplies P id) turns
      → P s
      → t.result.total ≡ 0
      → total_messages < length turns
      → ThreadFinishes P (consumer_thread os id total_messages name turns s t)
  unfolding consumer_thread
  consumer_thread-Finishes P name turns s t every p zero enough =
      thread_loop-Finishes P turns s
        (record t { result = record (t.result) { strategy_name = name } }) every p
        (omega (arith, zero)) (omega (arith, zero, enough))
