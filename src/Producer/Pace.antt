-- ===== src/Producer/Pace.antt =====
-- The loop of `run_producer_mode` in src/main.cpp while the consumers keep pace.
use lock_free_spmc_queue_dis.Common.{
  ℕ, zero, suc, ◌+◌, ◌≤◌, ◌<◌, ◌≡◌, ◌^◌, refl, ap, Bool, true, false, Option, some, List, [], ◌∷◌,
  ◌++◌, length, arith, length-append, inl, inr,
}
use lock_free_spmc_queue_dis.Queue.{Queue, max_consumers}
use lock_free_spmc_queue_dis.Queue.Inv.{Inv, max_messages}
use lock_free_spmc_queue_dis.Queue.Append.{HasRoom}
use lock_free_spmc_queue_dis.Queue.Publish.{publish-cases}
use lock_free_spmc_queue_dis.Message.{Message}
use lock_free_spmc_queue_dis.WaitStrategy.{EventFd, WaitStrategy}
use lock_free_spmc_queue_dis.Consumer.{Shared}
use lock_free_spmc_queue_dis.Consumer.Exact.{Every}
use lock_free_spmc_queue_dis.Producer.{
  Prices, Progress, no_progress, publish_from, publish_notify, run_producer_mode, advance_type,
  type_at, message_of, add32, then_shut_down, shut_down,
}
use lock_free_spmc_queue_dis.Producer.Sequence.{
  OnlyReads, PublishKeeps, publish_notify-keeps, Sends, run_producer_mode-Sends,
}

-- There is an active consumer, and none is a lap behind.
pub record KeepsPace {ℓ} {T : Type ℓ} (q : Queue T) : Type ℓ where
  pub room : HasRoom q
  pub someone : (i : ℕ) × (i < max_consumers) × ((q.consumers i).active ≡ true)

-- After the turn of the other threads the queue is in order, and its consumers keep pace.
abbrev pub LeavesRoom {ℓ} : {T K : Type ℓ} → (Shared T K → Shared T K) → Type ℓ
LeavesRoom {T = T} {K} turn =
    (s : Shared T K) (log : List T)
    → Inv s.queue log
    → Inv (turn s).queue log × KeepsPace (turn s).queue

Every-OnlyReads {ℓ} :
    {T K : Type ℓ} (turns : List (Shared T K → Shared T K))
    → Every LeavesRoom turns
    → Every OnlyReads turns
Every-OnlyReads [] every = tt
Every-OnlyReads (turn ∷ turns) (leaves, every) =
    ((λ s log inv. (leaves s log inv).0), Every-OnlyReads turns every)

module _ {ℓ} {T K : Type ℓ} (os : EventFd K) (strategy : WaitStrategy) where
  publish_pace :
      (s : Shared T K) (log : List T) (item : T)
      → Inv s.queue log
      → length log < max_messages
      → KeepsPace s.queue
      → (publish_notify os strategy item s).0 ≡ true
  unfolding publish_notify
  publish_pace s log item inv small pace =
      elim (publish-cases inv item (omega (arith, inv.counted))) [
        | inl (c, room, caches, e) ↦ ap (λ r. r.0) e
        | inr (c, inl (i, (h, a, behind)), caches, e) ↦ absurd (omega (arith, pace.room i h a))
        | inr (c, inr (nobody, late), caches, e) ↦
            let (i, h, a) = pace.someone in absurd (nobody i h a)
      ]

module _ {ℓ} {Price K : Type ℓ} (os : EventFd K) (strategy : WaitStrategy)
    (prices : Prices Price) where
  -- The loop comes to its end.
  abbrev Returns : Option (Progress × Shared (Message Price) K) → Type ℓ
  Returns r = (p : Progress) × (s : Shared (Message Price) K) × (r ≡ some (p, s))

  publish_from-Returns :
      (turns : List (Shared (Message Price) K → Shared (Message Price) K)) (i left : ℕ)
      (p : Progress) (s : Shared (Message Price) K) (log : List (Message Price))
      → Every LeavesRoom turns
      → Inv s.queue log
      → length log + left ≤ max_messages
      → left ≤ length turns
      → Returns (publish_from os strategy prices turns i left p s)
  unfolding publish_from
  publish_from-Returns turns i zero p s log every inv small enough = (p, s, refl)
  publish_from-Returns [] i (suc left) p s log every inv small enough = absurd (omega arith)
  publish_from-Returns (turn ∷ turns) i (suc left) p s log (leaves, every) inv small enough =
      by_result (λ b x l. publish_from-Returns turns (add32 i 1) left b x l every) r.0 r.1
        (publish_pace os strategy (turn s) log item (leaves s log inv).0 (omega arith)
          (leaves s log inv).1)
        (publish_notify-keeps os strategy (turn s) log item (leaves s log inv).0 (omega arith))
    where
      item : Message Price
      item = message_of prices (type_at p.type_idx) i (turn s).clock

      r : Bool × Shared (Message Price) K
      r = publish_notify os strategy item (turn s)

      by_result :
          ((b : Progress) (x : Shared (Message Price) K) (l : List (Message Price))
            → Inv x.queue l
            → length l + left ≤ max_messages
            → left ≤ length turns
            → Returns (publish_from os strategy prices turns (add32 i 1) left b x))
          → (ok : Bool) (x : Shared (Message Price) K) → ok ≡ true
          → PublishKeeps os strategy log item (ok, x)
          → Returns (elim ok [
            | true ↦ publish_from os strategy prices turns (add32 i 1) left (advance_type true p) x
            | false ↦ publish_from os strategy prices turns i (suc left) (advance_type false p) x
          ])
      by_result went true x e inv' =
          went (advance_type true p) x (log ++ item ∷ []) inv'
            (omega (arith, length-append log (item ∷ []))) (omega arith)
      by_result went false x e inv' = cc

  then_shut :
      (turns : List (Shared (Message Price) K → Shared (Message Price) K)) (n : ℕ) (p : Progress)
      (s s₁ : Shared (Message Price) K)
      → publish_from os strategy prices turns 1 n no_progress s ≡ some (p, s₁)
      → run_producer_mode os strategy prices turns n s ≡ some (p, shut_down os strategy s₁)
  unfolding run_producer_mode then_shut_down
  then_shut turns n p s s₁ e = ap (then_shut_down os strategy) e

  pub record Completes (log : List (Message Price)) (total_messages : ℕ)
      (r : Option (Progress × Shared (Message Price) K)) : Type ℓ where
    pub progress : Progress
    pub shared : Shared (Message Price) K
    pub returns : r ≡ some (progress, shared)
    pub sends : Sends prices log 1 total_messages shared

  -- If after each turn of the other threads the queue keeps its invariant, has an active consumer,
  -- and has none that is a lap behind, then with as many turns as messages the producer's loop
  -- ends, and has extended the log by the messages with numbers 1 to `total_messages` in order; the
  -- numbers are to stay below 2 ^ 32 and the log below its bound.
  pub run_producer_mode-Completes :
      (turns : List (Shared (Message Price) K → Shared (Message Price) K)) (total_messages : ℕ)
      (s : Shared (Message Price) K) (log : List (Message Price))
      → Every LeavesRoom turns
      → Inv s.queue log
      → length log + total_messages ≤ max_messages
      → total_messages + 1 < 2 ^ 32
      → total_messages ≤ length turns
      → Completes log total_messages (run_producer_mode os strategy prices turns total_messages s)
  run_producer_mode-Completes turns n s log every inv small low enough =
      let (p, s₁, e) = publish_from-Returns turns 1 n no_progress s log every inv small enough in
      let done = then_shut turns n p s s₁ e in
      record {
        progress = p;
        shared = shut_down os strategy s₁;
        returns = done;
        sends =
            run_producer_mode-Sends os strategy prices turns n p s (shut_down os strategy s₁) log
              (Every-OnlyReads turns every) inv small low done;
      }
