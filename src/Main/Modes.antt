-- ===== src/Main/Modes.antt =====
-- src/main.cpp: the three modes, with the system calls that each makes, and the exit status.
pub mod Leftover
pub mod Outcomes
pub mod Whole
pub mod Delivery
use lock_free_spmc_queue_dis.Common.{
  ℕ, Bool, true, false, Option, none, some, List, [], ◌∷◌, ◌++◌, ◌⊎◌, inl, inr, if◌then◌else◌, pos,
}
use lock_free_spmc_queue_dis.Queue.{Queue, fresh}
use lock_free_spmc_queue_dis.Message.{Message, Counts, no_counts}
use lock_free_spmc_queue_dis.WaitStrategy.{
  EventFd, WaitStrategy, busy_spin, new_yielding, new_blocking,
}
use lock_free_spmc_queue_dis.Latency.{Doubles, Report, new_tracker, report}
use lock_free_spmc_queue_dis.Consumer.{Shared, Turn, Local, run}
use lock_free_spmc_queue_dis.Consumer.Logging.{logging}
use lock_free_spmc_queue_dis.SharedMemory.{Call, eventfd, Answers, Manager, unlink}
use lock_free_spmc_queue_dis.Endpoint.{
  Thrown, construct_producer, destroy_producer, Attached, construct_consumer, destroy_consumer,
}
use lock_free_spmc_queue_dis.Producer.{Prices, Progress, run_producer_mode as publish_all}
use lock_free_spmc_queue_dis.Main.{
  Bytes, eq_bytes, AutoStart, Command, produce, consume, cleanup, usage, command,
}

-- How a mode ends: `eventfd` fails and the mode returns, an exception leaves it, its loop is still
-- running when the rounds run out, or it comes to its end with a result.
pub data Outcome {ℓ} (R : Type ℓ) : Type ℓ where
  no_eventfd : Outcome R
  threw : (why : Thrown) → Outcome R
  running : Outcome R
  finished : (result : R) → Outcome R

-- What the system answers: the mode's own `eventfd`, and the calls of the manager.
pub record System : Type 0 where
  pub event : Option ℕ
  pub answers : Answers

abbrev pub yield_name : Bytes
yield_name = b'y' ∷ b'i' ∷ b'e' ∷ b'l' ∷ b'd' ∷ []

abbrev pub block_name : Bytes
block_name = b'b' ∷ b'l' ∷ b'o' ∷ b'c' ∷ b'k' ∷ []

-- What the consumer prints.
pub record Summary (Double : Type 0) : Type 0 where
  pub consumer_id : ℕ
  pub counts : Counts
  pub consumed_count : ℕ
  pub latency : Report Double

module _ {Name : Type 0} where
  blocking_on : Option ℕ → List (Call Name) × Option WaitStrategy
  blocking_on none = (eventfd none ∷ [], none)
  blocking_on (some efd) = (eventfd (some efd) ∷ [], some (new_blocking efd 1000 100))

  -- The strategy by its name; none if `eventfd` fails.
  unfoldable pub choose_strategy : Bytes → Option ℕ → List (Call Name) × Option WaitStrategy
  unfolding blocking_on
  choose_strategy name event =
      if eq_bytes name yield_name
      then ([], some (new_yielding 1000))
      else if eq_bytes name block_name
      then blocking_on event
      else ([], some busy_spin)

module _ {Name Price K Double : Type 0} (os : EventFd K) (system : System) (size : ℕ)
    (name : Name) where
  -- `print_summary` and `report_latency`, and the consumer's destructor.
  summarise :
      Doubles Double
      → Attached Name
      → List (Call Name)
      → Option (Shared (Message Price) K × Local Counts Double)
      → Shared (Message Price) K
      → List (Call Name) × Shared (Message Price) K × Outcome (Summary Double)
  summarise double c calls none s = (calls, s, running)
  summarise double c calls (some (s', l)) s =
      let (ending, q) = destroy_consumer c s'.queue in
      (
        calls ++ ending,
        record s' { queue = q },
        finished (record {
          consumer_id = c.consumer_id;
          counts = l.handled;
          consumed_count = l.count;
          latency = report double l.tracker;
        }),
      )

  consume_all :
      Doubles Double
      → ℕ
      → Double
      → WaitStrategy
      → List (Turn (Message Price) K)
      → Shared (Message Price) K
      → List (Call Name) × Queue (Message Price) × (Thrown ⊎ Attached Name)
      → List (Call Name) × Shared (Message Price) K × Outcome (Summary Double)
  unfolding summarise
  consume_all double total cycles_per_ns strategy turns s (calls, q, inl why) =
      (calls, record s { queue = q }, threw why)
  consume_all double total cycles_per_ns strategy turns s (calls, q, inr c) =
      let joined : Shared (Message Price) K = record s { queue = q; shutdown = false } in
      summarise double c calls
        (run os logging (pos c.consumer_id) total turns joined (record {
          strategy = strategy;
          tracker = new_tracker total cycles_per_ns;
          handled = no_counts;
          count = 0;
        }))
        joined

  with_strategy :
      Doubles Double
      → ℕ
      → Double
      → List (Turn (Message Price) K)
      → Shared (Message Price) K
      → Option WaitStrategy
      → List (Call Name) × Shared (Message Price) K × Outcome (Summary Double)
  unfolding consume_all
  with_strategy double total cycles_per_ns turns s none = ([], s, no_eventfd)
  with_strategy double total cycles_per_ns turns s (some strategy) =
      consume_all double total cycles_per_ns strategy turns s
        (construct_consumer system.answers size name s.queue)

  -- `run_consumer_mode`, with the frequency that the calibration gave. Its shutdown flag is its own.
  unfoldable pub run_consumer_mode :
      Doubles Double
      → ℕ
      → Double
      → List (Turn (Message Price) K)
      → Bytes
      → Shared (Message Price) K
      → List (Call Name) × Shared (Message Price) K × Outcome (Summary Double)
  unfolding with_strategy
  run_consumer_mode double total cycles_per_ns turns strategy_name s =
      let (first, choice) = choose_strategy {Name = Name} strategy_name system.event in
      let (calls, s', outcome) = with_strategy double total cycles_per_ns turns s choice in
      (first ++ calls, s', outcome)

module _ {Name Price K : Type 0} (os : EventFd K) (system : System) (size : ℕ) (name : Name) where
  -- The producer's destructor after the loop.
  end_producer :
      Manager Name
      → List (Call Name)
      → Option (Progress × Shared (Message Price) K)
      → Shared (Message Price) K
      → List (Call Name) × Shared (Message Price) K × Outcome Progress
  end_producer m calls none s = (calls, s, running)
  end_producer m calls (some (p, s')) s = (calls ++ destroy_producer m, s', finished p)

  publish_over :
      Prices Price
      → Message Price
      → ℕ
      → (Shared (Message Price) K → Shared (Message Price) K)
      → List (Shared (Message Price) K → Shared (Message Price) K)
      → ℕ
      → Shared (Message Price) K
      → List (Call Name) × (Thrown ⊎ Manager Name)
      → List (Call Name) × Shared (Message Price) K × Outcome Progress
  unfolding end_producer
  publish_over prices blank total waiting turns efd s (calls, inl why) = (calls, s, threw why)
  publish_over prices blank total waiting turns efd s (calls, inr m) =
      let ready : Shared (Message Price) K =
        waiting (record s { queue = fresh blank; shutdown = false }) in
      end_producer m calls (publish_all os (new_blocking efd 1000 100) prices turns total ready)
        ready

  -- `run_producer_mode`. `waiting` is what the others do while it sleeps or waits for Enter, for as
  -- long as `AutoStart` says.
  unfoldable pub run_producer_mode :
      Prices Price
      → Message Price
      → ℕ
      → (AutoStart → Shared (Message Price) K → Shared (Message Price) K)
      → List (Shared (Message Price) K → Shared (Message Price) K)
      → AutoStart
      → Shared (Message Price) K
      → List (Call Name) × Shared (Message Price) K × Outcome Progress
  unfolding publish_over
  run_producer_mode prices blank total waiting turns o s = elim system.event [
    | none ↦ (eventfd none ∷ [], s, no_eventfd)
    | some efd ↦
        let (calls, s', outcome) =
          publish_over prices blank total (waiting o) turns efd s
            (construct_producer system.answers size name) in
        (eventfd (some efd) ∷ calls, s', outcome)
  ]

-- How the process ends.
pub data Exit : Type 0 where
  status : ℕ → Exit
  terminated : Exit
  not_yet : Exit

-- A mode that comes back, in whatever way, makes `main` return 0; nothing catches an exception.
abbrev pub exit_of {ℓ} : {R : Type ℓ} → Outcome R → Exit
exit_of no_eventfd = status 0
exit_of (threw why) = terminated
exit_of running = not_yet
exit_of (finished result) = status 0

module _ {Name Price K Double : Type 0} (os : EventFd K) (system : System) (size : ℕ) (name : Name)
    (double : Doubles Double) (cycles_per_ns : Double) (prices : Prices Price)
    (blank : Message Price) (total : ℕ)
    (waiting : AutoStart → Shared (Message Price) K → Shared (Message Price) K)
    (producer_turns : List (Shared (Message Price) K → Shared (Message Price) K))
    (consumer_turns : List (Turn (Message Price) K)) where
  run_command :
      Command → Shared (Message Price) K → List (Call Name) × Shared (Message Price) K × Exit
  run_command (produce o) s =
      let (calls, s', outcome) =
        run_producer_mode os system size name prices blank total waiting producer_turns o s in
      (calls, s', exit_of outcome)
  run_command (consume strategy) s =
      let (calls, s', outcome) =
        run_consumer_mode os system size name double total cycles_per_ns consumer_turns strategy
          s in
      (calls, s', exit_of outcome)
  run_command cleanup s = (unlink name, s, status 0)
  run_command usage s = ([], s, status 1)

  -- `main`, with the arguments after the program's name.
  unfoldable pub main :
      List Bytes → Shared (Message Price) K → List (Call Name) × Shared (Message Price) K × Exit
  unfolding run_command
  main args s = run_command (command args) s
