-- ===== src/Message/Tally.antt =====
-- The counters of `LoggingConsumer` in include/Consumer.h after a sequence of messages.
use lock_free_spmc_queue_dis.Common.{ℕ, ◌+◌, ◌<◌, ◌≡◌, refl, List, [], ◌∷◌, length, u64_mod, arith}
use lock_free_spmc_queue_dis.Message.{
  MessageType, add, trade, delete, Message, Counts, on_message, count_kind,
}

abbrev pub same_kind : MessageType → MessageType → ℕ
same_kind add add = 1
same_kind trade trade = 1
same_kind delete delete = 1
same_kind _ _ = 0

-- The three counters together.
abbrev pub total : Counts → ℕ
total c = c.add_count + c.trade_count + c.delete_count

-- `after` counts `adds`, `trades` and `deletes` more than `before`.
pub record Tallied (adds trades deletes : ℕ) (before after : Counts) : Type 0 where
  pub adds_more : after.add_count ≡ before.add_count + adds
  pub trades_more : after.trade_count ≡ before.trade_count + trades
  pub deletes_more : after.delete_count ≡ before.delete_count + deletes

count_kind-Tallied :
    (k : MessageType) (c : Counts)
    → total c + 1 < u64_mod
    → Tallied (same_kind add k) (same_kind trade k) (same_kind delete k) c (count_kind k c)
unfolding count_kind
count_kind-Tallied add c h = record {
  adds_more = omega arith;
  trades_more = omega arith;
  deletes_more = omega arith;
}
count_kind-Tallied trade c h = record {
  adds_more = omega arith;
  trades_more = omega arith;
  deletes_more = omega arith;
}
count_kind-Tallied delete c h = record {
  adds_more = omega arith;
  trades_more = omega arith;
  deletes_more = omega arith;
}

same_kind_once : (k : MessageType) → same_kind add k + same_kind trade k + same_kind delete k ≡ 1
same_kind_once add = refl
same_kind_once trade = refl
same_kind_once delete = refl

module _ {ℓ} {Price : Type ℓ} where
  -- `onMessage` for each message in turn.
  abbrev pub on_messages : List (Message Price) → Counts → Counts
  on_messages [] c = c
  on_messages (m ∷ ms) c = on_messages ms (on_message m c)

  -- How many of the messages have the type.
  abbrev pub of_kind : MessageType → List (Message Price) → ℕ
  of_kind k [] = 0
  of_kind k (m ∷ ms) = same_kind k m.kind + of_kind k ms

  pub of_kind_once :
      (ms : List (Message Price))
      → of_kind add ms + of_kind trade ms + of_kind delete ms ≡ length ms
  of_kind_once [] = refl
  of_kind_once (m ∷ ms) = omega (arith, of_kind_once ms, same_kind_once m.kind)

  -- After any sequence of messages each counter of `LoggingConsumer` has grown by the number of
  -- messages of its type, as long as the counters together stay below 2 ^ 64.
  pub on_messages-Tallied :
      (ms : List (Message Price)) (c : Counts)
      → total c + length ms < u64_mod
      → Tallied (of_kind add ms) (of_kind trade ms) (of_kind delete ms) c (on_messages ms c)
  unfolding on_message
  on_messages-Tallied [] c small = record {
    adds_more = omega arith;
    trades_more = omega arith;
    deletes_more = omega arith;
  }
  on_messages-Tallied (m ∷ ms) c small =
      let one = count_kind-Tallied m.kind c (omega arith) in
      let once = same_kind_once m.kind in
      let rest =
        on_messages-Tallied ms (count_kind m.kind c)
          (omega (arith, one.adds_more, one.trades_more, one.deletes_more, once)) in
      record {
        adds_more = omega (arith, one.adds_more, rest.adds_more);
        trades_more = omega (arith, one.trades_more, rest.trades_more);
        deletes_more = omega (arith, one.deletes_more, rest.deletes_more);
      }

  -- After any sequence of messages the three counters of `LoggingConsumer` together have grown by
  -- the number of messages, as long as they stay below 2 ^ 64.
  pub total-on_messages :
      (ms : List (Message Price)) (c : Counts)
      → total c + length ms < u64_mod
      → total (on_messages ms c) ≡ total c + length ms
  total-on_messages ms c small =
      let t = on_messages-Tallied ms c small in
      omega (arith, t.adds_more, t.trades_more, t.deletes_more, of_kind_once ms)
