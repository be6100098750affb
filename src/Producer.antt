-- ===== src/Producer.antt =====
-- include/Producer.h: publishing with notification, and shutdown; and the loop of
-- `run_producer_mode` in src/main.cpp.
pub mod Counting
pub mod Sequence
pub mod Pace
use lock_free_spmc_queue_dis.Common.{
  ℕ, zero, suc, ◌+◌, ◌%◌, ◌^◌, Bool, true, false, Option, none, some, List, [], ◌∷◌, if◌then◌else◌,
}
use lock_free_spmc_queue_dis.Queue.{Queue, publish}
use lock_free_spmc_queue_dis.Message.{
  MessageType, add, trade, delete, Message, add_message, trade_message, delete_message, Counts,
  no_counts, count_kind,
}
use lock_free_spmc_queue_dis.WaitStrategy.{EventFd, WaitStrategy, notify_all}
use lock_free_spmc_queue_dis.Consumer.{Shared}

module _ {ℓ} {T K : Type ℓ} (os : EventFd K) (strategy : WaitStrategy) where
  -- `Producer::publish`
  unfoldable pub publish_notify : T → Shared T K → Bool × Shared T K
  publish_notify item s =
      let (ok, q) = publish item s.queue in
      (
        ok,
        record s { queue = q; kernel = if ok then notify_all os strategy s.kernel else s.kernel },
      )

  -- `Producer::shutdown`
  unfoldable pub shut_down : Shared T K → Shared T K
  shut_down s = record s { shutdown = true; kernel = notify_all os strategy s.kernel }

  -- `producer.shutdown()` after the loop.
  unfoldable pub then_shut_down : {P : Type 0} → Option (P × Shared T K) → Option (P × Shared T K)
  then_shut_down none = none
  then_shut_down (some (p, s)) = some (p, shut_down s)

-- The prices `101.5 + i` and `100.1 + i`.
pub record Prices {ℓ} (Price : Type ℓ) : Type ℓ where
  pub add_price : ℕ → Price
  pub trade_price : ℕ → Price

-- `types[type_idx]`
abbrev pub type_at : ℕ → MessageType
type_at zero = add
type_at (suc zero) = trade
type_at (suc (suc _)) = delete

-- Addition on `unsigned int`.
abbrev pub add32 : ℕ → ℕ → ℕ
add32 a b = (a + b) % 2 ^ 32

-- The message with number `i`, built when the counter reads `now`.
abbrev pub message_of {ℓ} : {Price : Type ℓ} → Prices Price → MessageType → ℕ → ℕ → Message Price
message_of prices add i now =
    add_message now
      (record { order_id = add32 1000 i; price = prices.add_price i; quantity = add32 10 i })
message_of prices trade i now =
    trade_message now
      (record { trade_id = add32 2000 i; price = prices.trade_price i; quantity = add32 5 i })
message_of prices delete i now = delete_message now (record { order_id = add32 3000 i })

-- The locals of the loop.
pub record Progress : Type 0 where
  pub type_idx : ℕ
  pub counts : Counts

abbrev pub no_progress : Progress
no_progress = record { type_idx = 0; counts = no_counts }

-- One round: `type_idx` moves on whether or not the message was published.
abbrev pub advance_type : Bool → Progress → Progress
advance_type published p = record {
  type_idx = (p.type_idx + 1) % 3;
  counts = if published then count_kind (type_at p.type_idx) p.counts else p.counts;
}

module _ {ℓ} {Price K : Type ℓ} (os : EventFd K) (strategy : WaitStrategy)
    (prices : Prices Price) where
  -- The two loops, with `left` messages to publish from number `i` on. Each round has its turn of
  -- the other threads; none if the rounds run out.
  unfoldable pub publish_from :
      List (Shared (Message Price) K → Shared (Message Price) K)
      → ℕ
      → ℕ
      → Progress
      → Shared (Message Price) K
      → Option (Progress × Shared (Message Price) K)
  publish_from turns i zero p s = some (p, s)
  publish_from [] i (suc left) p s = none
  publish_from (turn ∷ turns) i (suc left) p s =
      let here : Shared (Message Price) K = turn s in
      let r =
        publish_notify os strategy (message_of prices (type_at p.type_idx) i here.clock) here in
      elim r.0 [
        | true ↦ publish_from turns (add32 i 1) left (advance_type true p) r.1
        | false ↦ publish_from turns i (suc left) (advance_type false p) r.1
      ]

  -- `run_producer_mode` from its loop on.
  unfoldable pub run_producer_mode :
      List (Shared (Message Price) K → Shared (Message Price) K)
      → ℕ
      → Shared (Message Price) K
      → Option (Progress × Shared (Message Price) K)
  run_producer_mode turns total_messages s =
      then_shut_down os strategy (publish_from turns 1 total_messages no_progress s)
