-- ===== src/Consumer/Logging.antt =====
-- `LoggingConsumer` of include/Consumer.h under `run`: what `print_summary` prints.
use lock_free_spmc_queue_dis.Common.{
  ℕ, ◌+◌, ◌%◌, ◌≡◌, some, List, [], ◌∷◌, arith, length, u64_mod, ℤ, ap, ◌∙◌, sym,
}
use lock_free_spmc_queue_dis.Message.{
  MessageType, add, trade, delete, Message, Counts, no_counts, count_kind, on_message,
}
use lock_free_spmc_queue_dis.Message.Tally.{total}
use lock_free_spmc_queue_dis.WaitStrategy.{EventFd}
use lock_free_spmc_queue_dis.Consumer.{Shared, Turn, Local, Handler, run}
use lock_free_spmc_queue_dis.Consumer.Account.{handle_all, run-Accounted}

-- `LoggingConsumer<Message>`
abbrev pub logging : {Price : Type 0} → Handler (Message Price) Counts
logging = record { timestamp_ns = λ msg. msg.timestamp_ns; on_message = λ msg c. on_message msg c }

count_kind_wraps :
    (k : MessageType) (c : Counts) → total (count_kind k c) % u64_mod ≡ (total c + 1) % u64_mod
unfolding count_kind
count_kind_wraps add c = omega arith
count_kind_wraps trade c = omega arith
count_kind_wraps delete c = omega arith

module _ {Price : Type 0} where
  pub handle_all_wraps :
      (ms : List (Message Price)) (c : Counts)
      → total (handle_all logging ms c) % u64_mod ≡ (total c + length ms) % u64_mod
  unfolding on_message
  handle_all_wraps [] c = omega arith
  handle_all_wraps (m ∷ ms) c =
      omega (arith, handle_all_wraps ms (count_kind m.kind c), count_kind_wraps m.kind c)

  -- Whatever other threads do before its rounds and while it waits, when `run` of a
  -- `LoggingConsumer` with fresh counters returns, its three counters together are the count of
  -- consumed messages, modulo 2 ^ 64, with what was drained after shutdown.
  pub logging_adds_up :
      {K Double : Type 0} (os : EventFd K) (id : ℤ) (max_messages : ℕ)
      (turns : List (Turn (Message Price) K)) (s s' : Shared (Message Price) K)
      (l l' : Local Counts Double)
      → l.handled ≡ no_counts
      → run os logging id max_messages turns s l ≡ some (s', l')
      → total l'.handled % u64_mod ≡ l'.count % u64_mod
  logging_adds_up os id max_messages turns s s' l l' start e =
      let a = run-Accounted logging os id max_messages turns s s' l l' e in
      let from_start : l'.handled ≡ handle_all logging a.messages no_counts =
        a.handled ∙ ap (handle_all logging a.messages) start in
      ap (λ c. total c % u64_mod) from_start ∙ handle_all_wraps a.messages no_counts ∙ sym a.counted
