-- ===== src/Main/Modes/Whole.antt =====
-- What `main` of src/main.cpp leaves open, whatever its arguments.
use lock_free_spmc_queue_dis.Common.{ℕ, inl, refl, false, List}
use lock_free_spmc_queue_dis.Message.{Message}
use lock_free_spmc_queue_dis.WaitStrategy.{EventFd}
use lock_free_spmc_queue_dis.Latency.{Doubles}
use lock_free_spmc_queue_dis.Consumer.{Shared, Turn}
use lock_free_spmc_queue_dis.SharedMemory.{unlink}
use lock_free_spmc_queue_dis.SharedMemory.Release.{Held, replay, effect}
use lock_free_spmc_queue_dis.Producer.{Prices}
use lock_free_spmc_queue_dis.Main.{
  Bytes, AutoStart, Command, produce, consume, cleanup, usage, command,
}
use lock_free_spmc_queue_dis.Main.Modes.{
  Outcome, no_eventfd, threw, running, finished, System, run_consumer_mode, run_producer_mode, Exit,
  status, terminated, not_yet, exit_of, run_command, main,
}
use lock_free_spmc_queue_dis.Main.Modes.Leftover.{Leaves, Ends}
use lock_free_spmc_queue_dis.Main.Modes.Outcomes.{
  run_producer_mode-Leaves, run_consumer_mode-Leaves,
}

-- Unless the process is still running.
abbrev pub Stops : Exit → Type 0 → Type 0
Stops not_yet P = Unit
Stops terminated P = P
Stops (status n) P = P

Stops-Ends : {R : Type 0} (P : Type 0) (o : Outcome R) → Ends o P → Stops (exit_of o) P
Stops-Ends P running p = tt
Stops-Ends P no_eventfd p = p
Stops-Ends P (threw why) p = p
Stops-Ends P (finished result) p = p

module _ {Name Price K Double : Type 0} (os : EventFd K) (system : System) (size : ℕ) (name : Name)
    (double : Doubles Double) (cycles_per_ns : Double) (prices : Prices Price)
    (blank : Message Price) (total : ℕ)
    (waiting : AutoStart → Shared (Message Price) K → Shared (Message Price) K)
    (producer_turns : List (Shared (Message Price) K → Shared (Message Price) K))
    (consumer_turns : List (Turn (Message Price) K)) where
  run_command-Leaves :
      (c : Command) (s : Shared (Message Price) K) (h : Held)
      → (let r =
            run_command os system size name double cycles_per_ns prices blank total waiting
              producer_turns consumer_turns c s in
          Stops r.2 (Leaves system.event h r.0))
  unfolding run_command replay effect unlink
  run_command-Leaves (produce o) s h =
      let r = run_producer_mode os system size name prices blank total waiting producer_turns o s in
      Stops-Ends (Leaves system.event h r.0) r.2 (
        run_producer_mode-Leaves os system size name prices blank total producer_turns waiting o s
          h)
  run_command-Leaves (consume strategy) s h =
      let r =
        run_consumer_mode os system size name double total cycles_per_ns consumer_turns strategy
          s in
      Stops-Ends (Leaves system.event h r.0) r.2 (
        run_consumer_mode-Leaves os system size name double total cycles_per_ns consumer_turns
          strategy s h)
  run_command-Leaves cleanup s h = record {
    after = record h { linked = false };
    replayed = refl;
    maps = refl;
    fds = inl refl;
  }
  run_command-Leaves usage s h = record { after = h; replayed = refl; maps = refl; fds = inl refl }

  -- For any arguments, and whatever each system call answers, when `main` is not still running its
  -- calls have closed and unmapped only what was open, and have left no mapping and no descriptor
  -- beyond those from before, except the one eventfd that the mode created itself.
  pub main-Leaves :
      (args : List Bytes) (s : Shared (Message Price) K) (h : Held)
      → (let r =
            main os system size name double cycles_per_ns prices blank total waiting producer_turns
              consumer_turns args s in
          Stops r.2 (Leaves system.event h r.0))
  unfolding main
  main-Leaves args s h = run_command-Leaves (command args) s h
