-- ===== src/Message.antt =====
-- include/Message.h: the tagged union of trading messages; and the counters by type that
-- `LoggingConsumer` of include/Consumer.h keeps.
pub mod Tally
use lock_free_spmc_queue_dis.Common.{ℕ, ◌≡◌, List, [], ◌∷◌, add64}

-- `MessageType`
pub data MessageType : Type 0 where
  add : MessageType
  trade : MessageType
  delete : MessageType

-- The prices are `double`s, which nothing here computes with.
pub record AddOrder {ℓ} (Price : Type ℓ) : Type ℓ where
  pub order_id : ℕ
  pub price : Price
  pub quantity : ℕ

pub record Trade {ℓ} (Price : Type ℓ) : Type ℓ where
  pub trade_id : ℕ
  pub price : Price
  pub quantity : ℕ

pub record DeleteOrder : Type 0 where
  pub order_id : ℕ

-- The union, with the member that is stored.
pub data Payload {ℓ} (Price : Type ℓ) : Type ℓ where
  an_add : AddOrder Price → Payload Price
  a_trade : Trade Price → Payload Price
  a_delete : DeleteOrder → Payload Price

-- `Message`; `kind` is the field `type`.
pub record Message {ℓ} (Price : Type ℓ) : Type ℓ where
  pub kind : MessageType
  pub timestamp_ns : ℕ
  pub payload : Payload Price

module _ {ℓ} {Price : Type ℓ} where
  -- The constructors, with the counter value that `rdtsc` returns.
  abbrev pub add_message : ℕ → AddOrder Price → Message Price
  add_message now a = record { kind = add; timestamp_ns = now; payload = an_add a }

  abbrev pub trade_message : ℕ → Trade Price → Message Price
  trade_message now t = record { kind = trade; timestamp_ns = now; payload = a_trade t }

  abbrev pub delete_message : ℕ → DeleteOrder → Message Price
  delete_message now d = record { kind = delete; timestamp_ns = now; payload = a_delete d }

-- The counters of `LoggingConsumer`.
pub record Counts : Type 0 where
  pub add_count : ℕ
  pub trade_count : ℕ
  pub delete_count : ℕ

abbrev pub no_counts : Counts
no_counts = record { add_count = 0; trade_count = 0; delete_count = 0 }

-- `switch (msg.type)`
unfoldable pub count_kind : MessageType → Counts → Counts
count_kind add c = record c { add_count = add64 c.add_count 1 }
count_kind trade c = record c { trade_count = add64 c.trade_count 1 }
count_kind delete c = record c { delete_count = add64 c.delete_count 1 }

-- `LoggingConsumer::onMessage`
unfoldable pub on_message {ℓ} : {Price : Type ℓ} → Message Price → Counts → Counts
on_message msg c = count_kind msg.kind c
