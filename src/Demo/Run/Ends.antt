-- ===== src/Demo/Run/Ends.antt =====
-- How `main` of src/demo_single_process.cpp ends.
use lock_free_spmc_queue_dis.Common.{
  ℕ, zero, suc, ◌+◌, ◌<◌, ◌≡◌, ◌^◌, refl, ap, ◌∙◌, sym, subst, true, false, Option, none, some,
  List, [], arith, pos, inl,
}
use lock_free_spmc_queue_dis.Queue.{
  Queue, fresh, max_consumers, register_consumer, claim, unregister_consumer,
}
use lock_free_spmc_queue_dis.Queue.Inv.{Inv, InWindow, fresh-Inv}
use lock_free_spmc_queue_dis.Queue.Register.{
  enrolled, enrolled-Inv, retired, retired-Inv, unregister-eq-retired,
}
use lock_free_spmc_queue_dis.Message.{Message}
use lock_free_spmc_queue_dis.WaitStrategy.{EventFd}
use lock_free_spmc_queue_dis.SharedMemory.{Call}
use lock_free_spmc_queue_dis.SharedMemory.Release.{Held, replay, effect, release}
use lock_free_spmc_queue_dis.Consumer.{Shared}
use lock_free_spmc_queue_dis.Consumer.Exact.{Every}
use lock_free_spmc_queue_dis.Producer.{Prices, Progress, no_progress, publish_from}
use lock_free_spmc_queue_dis.Producer.Sequence.{OnlyReads, Sends, publish_from-Sends}
use lock_free_spmc_queue_dis.Main.Modes.{Exit, status, not_yet, terminated}
use lock_free_spmc_queue_dis.Demo.Run.{
  register_three, unregister_three, demo_publish, end_demo, with_eventfd, with_consumers, demo_main,
  all_of,
}
use lock_free_spmc_queue_dis.Demo.Run.Publishing.{strategy, demo_publish-eq-publish_from}
use mathlib.Core.Option.{map as option_map}

-- The queue with the three consumers of the demo.
abbrev pub three_joined {ℓ} : {T : Type ℓ} → T → Queue T
three_joined blank = enrolled 2 1 (enrolled 1 1 (enrolled 0 1 (fresh blank)))

module _ {ℓ} {T : Type ℓ} where
  pub register_three-fresh :
      (blank : T) → register_three (fresh blank) ≡ (some (0, 1, 2), three_joined blank)
  unfolding register_three all_of register_consumer claim fresh
  register_three-fresh blank = refl

  at_first :
      (q : Queue T) → q.next ≡ 0 → q.min_consumer_seq ≡ 0 → InWindow q.next q.min_consumer_seq 1
  at_first q n c = record {
    positive = omega arith;
    reached = omega arith;
    retained = omega arith;
    guarded = inl (omega arith);
  }

  three_joined-Inv : (blank : T) → Inv (three_joined blank) []
  unfolding fresh
  three_joined-Inv blank =
      let w = at_first (fresh blank) refl refl in
      enrolled-Inv (enrolled-Inv (enrolled-Inv (fresh-Inv blank) 0 1 w) 1 1 w) 2 1 w

  unregister-Inv :
      (i : ℕ) {q : Queue T} {log : List T}
      → i < max_consumers
      → Inv q log
      → Inv (unregister_consumer (pos i) q) log
  unregister-Inv i {q} {log} h inv =
      subst (λ r. Inv r log) (sym (unregister-eq-retired i q h)) (retired-Inv inv i)

  unregister_three-Inv :
      {q : Queue T} {log : List T} → Inv q log → Inv (unregister_three 0 1 2 q) log
  unfolding unregister_three
  unregister_three-Inv inv =
      unregister-Inv 2 (omega arith)
        (unregister-Inv 1 (omega arith) (unregister-Inv 0 (omega arith) inv))

  unregister_three-eq :
      (q : Queue T) → unregister_three 0 1 2 q ≡ retired 2 (retired 1 (retired 0 q))
  unfolding unregister_three
  unregister_three-eq q =
      ap (λ r. unregister_consumer (pos 2) (unregister_consumer (pos 1) r))
        (unregister-eq-retired 0 q (omega arith))
      ∙ ap (unregister_consumer (pos 2)) (unregister-eq-retired 1 (retired 0 q) (omega arith))
      ∙ unregister-eq-retired 2 (retired 1 (retired 0 q)) (omega arith)

  three_gone :
      (q : Queue T) (i : ℕ) → i < 3 → ((unregister_three 0 1 2 q).consumers i).active ≡ false
  three_gone q i h = ap (λ r. (r.consumers i).active) (unregister_three-eq q) ∙ ground arith

module _ {Name Price K : Type 0} (prices : Prices Price) (total : ℕ) where
  -- The demo has published its messages in order, its consumers have left the queue, and its calls
  -- have left nothing open.
  pub record Demonstrates (h : Held) (calls : List (Call Name)) (s' : Shared (Message Price) K)
      : Type 0 where
    pub sends : Sends prices [] 1 total s'
    pub gone : (i : ℕ) → i < 3 → (s'.queue.consumers i).active ≡ false
    pub released : replay calls h ≡ some h

  -- What each exit of the demo means.
  abbrev pub DemoEnds :
      Option ℕ → Held → List (Call Name) × Shared (Message Price) K × Exit → Type 0
  DemoEnds event h (calls, s', status zero) = Demonstrates h calls s'
  DemoEnds event h (calls, s', status (suc n)) = (event ≡ none) × (replay calls h ≡ some h)
  DemoEnds event h (calls, s', not_yet) = Unit
  DemoEnds event h (calls, s', terminated) = ⊥

module _ (Name : Type 0) {Price K : Type 0} (os : EventFd K) (prices : Prices Price) (total : ℕ)
    (turns : List (Shared (Message Price) K → Shared (Message Price) K))
    (joining : Shared (Message Price) K → Shared (Message Price) K) (reads : Every OnlyReads turns)
    (joining_reads : OnlyReads joining) (small : total + 1 < 2 ^ 32) where
  Sends-end :
      (s' : Shared (Message Price) K) (kernel : K)
      → Sends prices [] 1 total s'
      → Sends prices [] 1 total (
          let joined : Shared (Message Price) K =
            joining (record s' { shutdown = true; kernel = kernel }) in
          record joined { queue = unregister_three 0 1 2 joined.queue })
  Sends-end s' kernel r = record {
    messages = r.messages;
    numbered = r.numbered;
    count = r.count;
    keeps =
        unregister_three-Inv
          (joining_reads (record s' { shutdown = true; kernel = kernel }) r.messages r.keeps);
  }

  end_demo-Ends :
      (efd : ℕ) (event : Option ℕ) (h : Held) (s : Shared (Message Price) K)
      (r : Option (Shared (Message Price) K))
      → ((s' : Shared (Message Price) K) → r ≡ some s' → Sends prices [] 1 total s')
      → DemoEnds {Name = Name} prices total event h
          (end_demo {Name = Name} os prices total turns joining efd (0, 1, 2) s r)
  unfolding end_demo replay effect release
  end_demo-Ends efd event h s none sends = tt
  end_demo-Ends efd event h s (some s') sends = record {
    sends = Sends-end s' (os.write efd s'.kernel) (sends s' refl);
    gone = λ i below. three_gone _ i below;
    released = ground arith;
  }

  demo_publish-Sends :
      (efd : ℕ) (s s' : Shared (Message Price) K)
      → Inv s.queue []
      → demo_publish os efd prices turns 1 total 0 s ≡ some s'
      → Sends prices [] 1 total s'
  demo_publish-Sends efd s s' inv e =
      by_end (publish_from os (strategy os efd 1000 100 prices) prices turns 1 total no_progress s)
        refl
        (sym (demo_publish-eq-publish_from os efd 1000 100 prices turns 1 total no_progress s) ∙ e)
    where
      by_end :
          (r : Option (Progress × Shared (Message Price) K))
          → publish_from os (strategy os efd 1000 100 prices) prices turns 1 total no_progress s ≡ r
          → option_map (λ x. x.1) r ≡ some s'
          → Sends prices [] 1 total s'
      by_end none found e = cc
      by_end (some (p, s₁)) found e =
          let last : s₁ ≡ s' = cc in
          subst (Sends prices [] 1 total) last (
            publish_from-Sends os (strategy os efd 1000 100 prices) prices turns 1 total no_progress
              p s s₁ [] reads inv (omega arith) (omega arith) found)

  with_eventfd-Ends :
      (event : Option ℕ) (h : Held) (s : Shared (Message Price) K)
      → Inv s.queue []
      → DemoEnds {Name = Name} prices total event h
          (with_eventfd {Name = Name} os prices total turns joining event (0, 1, 2) s)
  unfolding with_eventfd replay effect
  with_eventfd-Ends none h s inv = (refl, refl)
  with_eventfd-Ends (some efd) h s inv =
      end_demo-Ends efd (some efd) h s (demo_publish os efd prices turns 1 total 0 s)
        (λ s' e. demo_publish-Sends efd s s' inv e)

  -- If the consumer threads keep the invariant of the queue with its log, `main` of the demo ends
  -- with status 1 only if `eventfd` fails, and has nothing open then; if it ends with status 0 it
  -- has published the messages with numbers 1 to `total` in order on a queue that keeps its
  -- invariant, its three consumers have left the queue, and nothing is left open.
  pub demo_main-Ends :
      (blank : Message Price) (event : Option ℕ) (kernel : K) (clock : ℕ) (h : Held)
      → DemoEnds prices total event h
          (demo_main {Name = Name} os prices total turns joining blank event kernel clock)
  unfolding demo_main with_consumers
  demo_main-Ends blank event kernel clock h =
      subst
        (λ r. DemoEnds prices total event h (
          with_consumers {Name = Name} os prices total turns joining event
            (record { queue = r.1; shutdown = false; kernel = kernel; clock = clock }) r.0))
        (sym (register_three-fresh blank))
        (with_eventfd-Ends event h
          (record { queue = three_joined blank; shutdown = false; kernel = kernel; clock = clock })
          (three_joined-Inv blank))
