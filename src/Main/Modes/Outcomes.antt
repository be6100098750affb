-- ===== src/Main/Modes/Outcomes.antt =====
-- How the modes of src/main.cpp end.
use lock_free_spmc_queue_dis.Common.{
  ℕ, ◌≡◌, ◌⊎◌, inl, inr, refl, true, Option, none, some, List, [], ◌∷◌, ◌++◌,
}
use lock_free_spmc_queue_dis.Queue.{Queue}
use lock_free_spmc_queue_dis.Message.{Message, Counts}
use lock_free_spmc_queue_dis.WaitStrategy.{EventFd, WaitStrategy}
use lock_free_spmc_queue_dis.Latency.{Doubles}
use lock_free_spmc_queue_dis.Consumer.{Shared, Turn, Local}
use lock_free_spmc_queue_dis.SharedMemory.{
  Call, eventfd, Manager, shm_open_failed, ftruncate_failed, mmap_failed, eventfd_failed,
}
use lock_free_spmc_queue_dis.SharedMemory.Release.{Held, replay}
use lock_free_spmc_queue_dis.Endpoint.{
  Thrown, no_segment, no_queue, slots_full, construct_producer, Attached, construct_consumer,
  destroy_consumer,
}
use lock_free_spmc_queue_dis.Endpoint.Release.{
  Frees, Attaches, construct_producer-Frees, construct_consumer-Attaches,
}
use lock_free_spmc_queue_dis.Producer.{Prices, Progress}
use lock_free_spmc_queue_dis.Main.{Bytes, AutoStart}
use lock_free_spmc_queue_dis.Main.Modes.{
  Outcome, no_eventfd, System, choose_strategy, summarise, consume_all, with_strategy,
  run_consumer_mode, end_producer, publish_over, run_producer_mode,
}
use lock_free_spmc_queue_dis.Main.Modes.Leftover.{
  failed, opened, Leaves, Ends, Ends-map, choose_strategy-Prefix, after_prefix, Kept-same,
  Kept-unlinked, Restores,
}

module _ {Name Price K Double : Type 0} (os : EventFd K) (system : System) (size : ℕ) (name : Name)
    (double : Doubles Double) (total : ℕ) (cycles_per_ns : Double)
    (turns : List (Turn (Message Price) K)) where
  summarise-Restores :
      (c : Attached Name) (calls : List (Call Name))
      (r : Option (Shared (Message Price) K × Local Counts Double)) (s : Shared (Message Price) K)
      → ((g : Held) (later : Queue (Message Price))
          → replay (calls ++ (destroy_consumer c later).0) g ≡ some g)
      → Restores (summarise os system size name double c calls r s)
  unfolding summarise
  summarise-Restores c calls none s h = tt
  summarise-Restores c calls (some (s', l)) s h = λ g. Kept-same g _ (h g s'.queue)

  consume_all-Restores :
      (strategy : WaitStrategy) (s : Shared (Message Price) K) (q : Queue (Message Price))
      (r : List (Call Name) × Queue (Message Price) × (Thrown ⊎ Attached Name))
      → ((g : Held) → Attaches g q r)
      → Restores (consume_all os system size name double total cycles_per_ns strategy turns s r)
  unfolding consume_all
  consume_all-Restores strategy s q (calls, q', inl why) h = λ g. Kept-same g calls (h g).0
  consume_all-Restores strategy s q (calls, q', inr c) h =
      summarise-Restores c calls _ _ (λ g later. ((h g).4 later).0)

  with_strategy-Restores :
      (choice : Option WaitStrategy) (s : Shared (Message Price) K)
      → Restores (with_strategy os system size name double total cycles_per_ns turns s choice)
  unfolding with_strategy replay
  with_strategy-Restores none s = λ g. Kept-same g [] refl
  with_strategy-Restores (some strategy) s =
      consume_all-Restores strategy s s.queue (construct_consumer system.answers size name s.queue)
        (λ g. construct_consumer-Attaches system.answers size name g s.queue)

  pub run_consumer_mode-Leaves :
      (strategy_name : Bytes) (s : Shared (Message Price) K) (h : Held)
      → (let r =
            run_consumer_mode os system size name double total cycles_per_ns turns strategy_name
              s in
          Ends r.2 (Leaves system.event h r.0))
  unfolding run_consumer_mode
  run_consumer_mode-Leaves strategy_name s h =
      let first = choose_strategy {Name = Name} strategy_name system.event in
      let r = with_strategy os system size name double total cycles_per_ns turns s first.1 in
      Ends-map r.2 (after_prefix r.0 h (choose_strategy-Prefix strategy_name system.event))
        (with_strategy-Restores first.1 s)

module _ {Name Price K : Type 0} (os : EventFd K) (system : System) (size : ℕ) (name : Name)
    (prices : Prices Price) (blank : Message Price) (total : ℕ)
    (turns : List (Shared (Message Price) K → Shared (Message Price) K)) where
  end_producer-Restores :
      (m : Manager Name) (calls : List (Call Name))
      (r : Option (Progress × Shared (Message Price) K)) (s : Shared (Message Price) K)
      → ((g : Held) → Frees true g (calls, inr m))
      → Restores (end_producer os system size name m calls r s)
  unfolding end_producer
  end_producer-Restores m calls none s h = tt
  end_producer-Restores m calls (some (p, s')) s h = λ g. Kept-unlinked g _ (h g).0

  publish_over-Restores :
      (waiting : Shared (Message Price) K → Shared (Message Price) K) (efd : ℕ)
      (s : Shared (Message Price) K) (made : List (Call Name) × (Thrown ⊎ Manager Name))
      → ((g : Held) → Frees true g made)
      → Restores (publish_over os system size name prices blank total waiting turns efd s made)
  unfolding publish_over
  publish_over-Restores waiting efd s (calls, inl (no_segment shm_open_failed)) h =
      λ g. Kept-same g calls (h g)
  publish_over-Restores waiting efd s (calls, inl (no_segment ftruncate_failed)) h =
      λ g. Kept-unlinked g calls (h g)
  publish_over-Restores waiting efd s (calls, inl (no_segment mmap_failed)) h =
      λ g. Kept-unlinked g calls (h g)
  publish_over-Restores waiting efd s (calls, inl (no_segment eventfd_failed)) h =
      λ g. Kept-unlinked g calls (h g)
  publish_over-Restores waiting efd s (calls, inl no_queue) h = λ g. Kept-unlinked g calls (h g)
  publish_over-Restores waiting efd s (calls, inl slots_full) h = λ g. Kept-unlinked g calls (h g)
  publish_over-Restores waiting efd s (calls, inr m) h = end_producer-Restores m calls _ _ h

  pub run_producer_mode-Leaves :
      (waiting : AutoStart → Shared (Message Price) K → Shared (Message Price) K) (o : AutoStart)
      (s : Shared (Message Price) K) (h : Held)
      → (let r = run_producer_mode os system size name prices blank total waiting turns o s in
          Ends r.2 (Leaves system.event h r.0))
  unfolding run_producer_mode replay
  run_producer_mode-Leaves waiting o s h = by_event system.event refl
    where
      over : ℕ → List (Call Name) × Shared (Message Price) K × Outcome Progress
      over efd =
          publish_over os system size name prices blank total (waiting o) turns efd s
            (construct_producer system.answers size name)

      by_event :
          (e : Option ℕ)
          → system.event ≡ e
          → (let r : List (Call Name) × Shared (Message Price) K × Outcome Progress = elim e [
            | none ↦ (eventfd none ∷ [], s, no_eventfd)
            | some efd ↦
                let (calls, s', outcome) = over efd in (eventfd (some efd) ∷ calls, s', outcome)
          ] in
              Ends r.2 (Leaves system.event h r.0))
      by_event none at = after_prefix {event = system.event} [] h failed (λ g. Kept-same g [] refl)
      by_event (some efd) at = Ends-map (over efd).2 (after_prefix (over efd).0 h (opened efd at)) (
          publish_over-Restores (waiting o) efd s (construct_producer system.answers size name)
            (λ g. construct_producer-Frees system.answers size name g))
