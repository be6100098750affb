-- ===== src/Producer/Sequence.antt =====
-- What the loop of `run_producer_mode` in src/main.cpp has published when it ends, with the other
-- threads at work between its rounds.
use lock_free_spmc_queue_dis.Common.{
  ℕ, append_nil, append_assoc, zero, suc, ◌+◌, ◌≤◌, ◌<◌, ◌≡◌, ◌^◌, ◌%◌, refl, sym, subst, Bool,
  true, false, Option, none, some, List, [], ◌∷◌, ◌++◌, length, arith, length-append, inl, inr,
  if◌then◌else◌,
}
use lock_free_spmc_queue_dis.Queue.{Queue}
use lock_free_spmc_queue_dis.Queue.Inv.{Inv, max_messages}
use lock_free_spmc_queue_dis.Queue.Append.{appended-Inv}
use lock_free_spmc_queue_dis.Queue.Publish.{recached-Inv, publish-cases}
use lock_free_spmc_queue_dis.Message.{
  MessageType, add, trade, delete, Message, Payload, an_add, a_trade, a_delete,
}
use lock_free_spmc_queue_dis.WaitStrategy.{EventFd, WaitStrategy, notify_all}
use lock_free_spmc_queue_dis.Consumer.{Shared}
use lock_free_spmc_queue_dis.Consumer.Exact.{Every}
use lock_free_spmc_queue_dis.Producer.{
  Prices, Progress, no_progress, publish_from, publish_notify, run_producer_mode, advance_type,
  type_at, message_of, add32, then_shut_down, shut_down,
}

-- The kind of the member that a union holds.
abbrev pub kind_of {ℓ} : {Price : Type ℓ} → Payload Price → MessageType
kind_of (an_add a) = add
kind_of (a_trade t) = trade
kind_of (a_delete d) = delete

module _ {ℓ} {Price : Type ℓ} (prices : Prices Price) where
  -- The fields of a member are those that the loop gives to message `i`.
  abbrev pub Carries : ℕ → Payload Price → Type ℓ
  Carries i (an_add a) =
      (a.order_id ≡ (1000 + i) % 2 ^ 32)
      × (a.quantity ≡ (10 + i) % 2 ^ 32)
      × (a.price ≡ prices.add_price i)
  Carries i (a_trade t) =
      (t.trade_id ≡ (2000 + i) % 2 ^ 32)
      × (t.quantity ≡ (5 + i) % 2 ^ 32)
      × (t.price ≡ prices.trade_price i)
  Carries i (a_delete d) = (d.order_id ≡ (3000 + i) % 2 ^ 32) × Unit {ℓ}

  -- `m` is the message with number `i` of some kind, built at some time, its fields tell the
  -- number, and its tag says what its union holds.
  pub record IsNumber (i : ℕ) (m : Message Price) : Type ℓ where
    pub kind : MessageType
    pub now : ℕ
    pub same : m ≡ message_of prices kind i now
    pub carries : Carries i m.payload
    pub tagged : m.kind ≡ kind_of m.payload

  -- The messages with numbers `i`, `i + 1`, ...
  abbrev pub Numbered : ℕ → List (Message Price) → Type ℓ
  Numbered i [] = Unit
  Numbered i (m ∷ ms) = IsNumber i m × Numbered (i + 1) ms

  message_of-IsNumber : (kind : MessageType) (i now : ℕ) → IsNumber i (message_of prices kind i now)
  message_of-IsNumber add i now = record {
    kind = add;
    now = now;
    same = refl;
    carries = (refl, refl, refl);
    tagged = refl;
  }
  message_of-IsNumber trade i now = record {
    kind = trade;
    now = now;
    same = refl;
    carries = (refl, refl, refl);
    tagged = refl;
  }
  message_of-IsNumber delete i now = record {
    kind = delete;
    now = now;
    same = refl;
    carries = (refl, tt);
    tagged = refl;
  }

  -- From a queue with the log `log`, `left` messages from number `i` on have been published.
  pub record Sends {K : Type ℓ} (log : List (Message Price)) (i left : ℕ)
      (s' : Shared (Message Price) K) : Type ℓ where
    pub messages : List (Message Price)
    pub numbered : Numbered i messages
    pub count : length messages ≡ left
    pub keeps : Inv s'.queue (log ++ messages)

-- The other threads publish nothing, and keep what a queue has between calls.
abbrev pub OnlyReads {ℓ} : {T K : Type ℓ} → (Shared T K → Shared T K) → Type ℓ
OnlyReads {T = T} {K} turn =
    (s : Shared T K) (log : List T) → Inv s.queue log → Inv (turn s).queue log

module _ {ℓ} {T K : Type ℓ} (os : EventFd K) (strategy : WaitStrategy) where
  -- A publish extends the log by its message, or leaves it.
  abbrev pub PublishKeeps : List T → T → Bool × Shared T K → Type ℓ
  PublishKeeps log item (true, s') = Inv s'.queue (log ++ item ∷ [])
  PublishKeeps log item (false, s') = Inv s'.queue log

  pub publish_notify-keeps :
      (s : Shared T K) (log : List T) (item : T)
      → Inv s.queue log
      → length log < max_messages
      → PublishKeeps log item (publish_notify os strategy item s)
  unfolding publish_notify
  publish_notify-keeps s log item inv small =
      elim (publish-cases inv item (omega (arith, inv.counted))) [
        | inl (c, room, caches, e) ↦
            subst After (sym e) (appended-Inv inv item c (omega (arith, inv.counted)) room caches)
        | inr (c, why, caches, e) ↦ subst After (sym e) (recached-Inv inv c caches)
      ]
    where
      After : Bool × Queue T → Type ℓ
      After r = PublishKeeps log item (
        r.0,
        record s {
          queue = r.1;
          kernel = if r.0 then notify_all os strategy s.kernel else s.kernel;
        },
      )

module _ {ℓ} {Price K : Type ℓ} (os : EventFd K) (strategy : WaitStrategy)
    (prices : Prices Price) where
  Sends-one :
      (log : List (Message Price)) (i left : ℕ) (s' : Shared (Message Price) K) (m : Message Price)
      → IsNumber prices i m
      → Sends prices (log ++ m ∷ []) (i + 1) left s'
      → Sends prices log i (suc left) s'
  Sends-one log i left s' m is r = record {
    messages = m ∷ r.messages;
    numbered = (is, r.numbered);
    count = omega (arith, r.count);
    keeps = subst (Inv s'.queue) (append_assoc log (m ∷ []) r.messages) r.keeps;
  }

  pub publish_from-Sends :
      (turns : List (Shared (Message Price) K → Shared (Message Price) K)) (i left : ℕ)
      (p p' : Progress) (s s' : Shared (Message Price) K) (log : List (Message Price))
      → Every OnlyReads turns
      → Inv s.queue log
      → length log + left ≤ max_messages
      → i + left < 2 ^ 32
      → publish_from os strategy prices turns i left p s ≡ some (p', s')
      → Sends prices log i left s'
  unfolding publish_from
  publish_from-Sends turns i zero p p' s s' log every inv small low e =
      let same : s ≡ s' = cc in
      record {
        messages = [];
        numbered = tt;
        count = refl;
        keeps =
            subst (λ x. Inv x.queue (log ++ [])) same
              (subst (Inv s.queue) (sym (append_nil log)) inv);
      }
  publish_from-Sends [] i (suc left) p p' s s' log every inv small low e = cc
  publish_from-Sends (turn ∷ turns) i (suc left) p p' s s' log (reads, every) inv small low e =
      by_result (λ j b x l. publish_from-Sends turns j left b p' x s' l every)
        (λ b x. publish_from-Sends turns i (suc left) b p' x s' log every) r.0 r.1
        (publish_notify-keeps os strategy (turn s) log item (reads s log inv) (omega arith)) e
    where
      item : Message Price
      item = message_of prices (type_at p.type_idx) i (turn s).clock

      r : Bool × Shared (Message Price) K
      r = publish_notify os strategy item (turn s)

      by_result :
          ((j : ℕ) (b : Progress) (x : Shared (Message Price) K) (l : List (Message Price))
            → Inv x.queue l
            → length l + left ≤ max_messages
            → j + left < 2 ^ 32
            → publish_from os strategy prices turns j left b x ≡ some (p', s')
            → Sends prices l j left s')
          → ((b : Progress) (x : Shared (Message Price) K)
              → Inv x.queue log
              → length log + suc left ≤ max_messages
              → i + suc left < 2 ^ 32
              → publish_from os strategy prices turns i (suc left) b x ≡ some (p', s')
              → Sends prices log i (suc left) s')
          → (ok : Bool) (x : Shared (Message Price) K) → PublishKeeps os strategy log item (ok, x)
          → (elim ok [
            | true ↦ publish_from os strategy prices turns (add32 i 1) left (advance_type true p) x
            | false ↦ publish_from os strategy prices turns i (suc left) (advance_type false p) x
          ])
            ≡ some (p', s')
          → Sends prices log i (suc left) s'
      by_result went again true x inv' e =
          let one : add32 i 1 ≡ i + 1 = omega arith in
          Sends-one log i left s' item
            (message_of-IsNumber prices (type_at p.type_idx) i (turn s).clock)
            (subst (λ j. Sends prices (log ++ item ∷ []) j left s') one
              (went (add32 i 1) (advance_type true p) x (log ++ item ∷ []) inv'
                (omega (arith, length-append log (item ∷ []))) (omega arith) e))
      by_result went again false x inv' e = again (advance_type false p) x inv' small low e

  -- If the other threads keep the invariant of the queue with its log in each turn, and the numbers
  -- stay below 2 ^ 32 and the log below its bound, then the producer's loop, when it ends, has
  -- extended the log by the messages with numbers 1 to `total_messages` in order, each once
  -- whatever was refused before, and each with the fields that the loop gives to its number and a
  -- tag that says what its union holds; the queue keeps its invariant.
  pub run_producer_mode-Sends :
      (turns : List (Shared (Message Price) K → Shared (Message Price) K)) (total_messages : ℕ)
      (p : Progress) (s s' : Shared (Message Price) K) (log : List (Message Price))
      → Every OnlyReads turns
      → Inv s.queue log
      → length log + total_messages ≤ max_messages
      → total_messages + 1 < 2 ^ 32
      → run_producer_mode os strategy prices turns total_messages s ≡ some (p, s')
      → Sends prices log 1 total_messages s'
  unfolding run_producer_mode shut_down then_shut_down
  run_producer_mode-Sends turns n p s s' log every inv small low e =
      by_end (publish_from os strategy prices turns 1 n no_progress s) refl e
    where
      by_end :
          (r : Option (Progress × Shared (Message Price) K))
          → publish_from os strategy prices turns 1 n no_progress s ≡ r
          → then_shut_down os strategy r ≡ some (p, s')
          → Sends prices log 1 n s'
      by_end none found e = cc
      by_end (some (p₁, s₁)) found e =
          let last : shut_down os strategy s₁ ≡ s' = cc in
          let all =
            publish_from-Sends turns 1 n no_progress p₁ s s₁ log every inv small (omega arith)
              found in
          subst (Sends prices log 1 n) last (record {
            messages = all.messages;
            numbered = all.numbered;
            count = all.count;
            keeps = all.keeps;
          })
