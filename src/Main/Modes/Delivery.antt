-- ===== src/Main/Modes/Delivery.antt =====
-- Which messages a consumer of src/main.cpp has counted when its mode ends.
use lock_free_spmc_queue_dis.Common.{ℕ, ◌<◌, ◌≤◌, ◌≡◌, false, List, ◌++◌, length, take, u64_mod}
use lock_free_spmc_queue_dis.Queue.{Queue, max_consumers}
use lock_free_spmc_queue_dis.Queue.Inv.{Inv}
use lock_free_spmc_queue_dis.Queue.Register.{AllActive}
use lock_free_spmc_queue_dis.Message.{Message, no_counts}
use lock_free_spmc_queue_dis.Message.Tally.{total as all_counts}
use lock_free_spmc_queue_dis.WaitStrategy.{EventFd, WaitStrategy}
use lock_free_spmc_queue_dis.Latency.{Doubles}
use lock_free_spmc_queue_dis.Consumer.{Turn}
use lock_free_spmc_queue_dis.Consumer.Account.{handle_all}
use lock_free_spmc_queue_dis.Consumer.Exact.{Every, KeepsFlag}
use lock_free_spmc_queue_dis.Consumer.InOrder.{TurnExtends, InOrder}
use lock_free_spmc_queue_dis.Consumer.Logging.{logging}
use lock_free_spmc_queue_dis.Main.Modes.{System, Summary}

module _ {Price Double : Type 0} where
  -- What is printed is about the first `total` messages of the log that the queue has come to.
  pub record Delivers (total : ℕ) (log : List (Message Price)) (q' : Queue (Message Price))
      (r : Summary Double) : Type 0 where
    pub more : List (Message Price)
    pub keeps : Inv q' (log ++ more)
    pub enough : total ≤ length (log ++ more)
    pub counts : r.counts ≡ handle_all logging (take total (log ++ more)) no_counts
    pub consumed : r.consumed_count ≡ total

module _ {Name Price K Double : Type 0} (os : EventFd K) (system : System) (size : ℕ) (name : Name)
    (double : Doubles Double) (total : ℕ) (cycles_per_ns : Double)
    (turns : List (Turn (Message Price) K)) (keep : Every KeepsFlag turns) (some_to_do : 0 < total)
    (small : total < u64_mod) where
  -- The other threads leave the slot that the consumer gets, the first that is inactive in `q`, as
  -- it is while it is active.
  abbrev pub FirstExtends : Queue (Message Price) → Type 0
  FirstExtends q =
      (i : ℕ)
      → i < max_consumers
      → (q.consumers i).active ≡ false
      → AllActive q i
      → Every (TurnExtends i) turns
