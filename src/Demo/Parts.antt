-- ===== src/Demo/Parts.antt =====
-- The messages that `consumer_thread` of src/demo_single_process.cpp reads and those it drains, as
-- two parts of the log of the queue.
use lock_free_spmc_queue_dis.Common.{
  ℕ, ◌<◌, ◌≡◌, ap, ◌∙◌, sym, subst, true, none, some, List, ◌++◌, pos, le-cases, inl, inr, add64,
  append_assoc, append_nil,
}
use lock_free_spmc_queue_dis.Queue.{Queue, max_consumers, consume}
use lock_free_spmc_queue_dis.Queue.Inv.{Inv}
use lock_free_spmc_queue_dis.Queue.Consume.{
  position, advance, advance-Inv, consume_active, read_slot_ready, read_slot_empty,
}
use lock_free_spmc_queue_dis.Queue.Drain.{active-advance}
use lock_free_spmc_queue_dis.Message.{Message, count_kind}
use lock_free_spmc_queue_dis.Consumer.{Shared, Handler}
use lock_free_spmc_queue_dis.Consumer.InOrder.{
  Extends, InOrder, InOrder-self, InOrder-after, InOrder-handle,
}
use lock_free_spmc_queue_dis.Demo.{ConsumerResult}

module _ {Name Price : Type 0} where
  -- What a message adds to the result in the main loop, and what it adds in the drain.
  abbrev pub counting : Handler (Message Price) (ConsumerResult Name)
  counting = record {
    timestamp_ns = λ m. m.timestamp_ns;
    on_message = λ m r. record r { counts = count_kind m.kind r.counts; total = add64 r.total 1 };
  }

  abbrev pub totalling : Handler (Message Price) (ConsumerResult Name)
  totalling = record {
    timestamp_ns = λ m. m.timestamp_ns;
    on_message = λ m r. record r { total = add64 r.total 1 };
  }

  module _ (i : ℕ) where
    -- Up to `middle` the messages read were counted by type and in the total, and the ones after it
    -- in the total alone; each is a part of the log, and the second starts where the first ends.
    pub record TwoParts (q : Queue (Message Price)) (log : List (Message Price))
        (r : ConsumerResult Name) (q' : Queue (Message Price)) (r' : ConsumerResult Name)
        : Type 0 where
      pub middle : Queue (Message Price)
      pub at_middle : ConsumerResult Name
      pub read : InOrder counting i q log r middle at_middle
      pub drained : InOrder totalling i middle (log ++ read.more) at_middle q' r'

    pub TwoParts-drained :
        (q q' : Queue (Message Price)) (log : List (Message Price)) (r r' : ConsumerResult Name)
        → Inv q log
        → i < max_consumers
        → (q.consumers i).active ≡ true
        → InOrder totalling i q log r q' r'
        → TwoParts q log r q' r'
    unfolding InOrder-self
    TwoParts-drained q q' log r r' inv hi a d = record {
      middle = q;
      at_middle = r;
      read = InOrder-self counting i q log r inv hi a;
      drained = subst (λ l. InOrder totalling i q l r q' r') (sym (append_nil log)) d;
    }

    pub TwoParts-turn :
        {K : Type 0} (f : Shared (Message Price) K → Shared (Message Price) K)
        → Extends i f
        → (s : Shared (Message Price) K) (log : List (Message Price)) (q' : Queue (Message Price))
          (r r' : ConsumerResult Name)
        → Inv s.queue log
        → (s.queue.consumers i).active ≡ true
        → ((more : List (Message Price))
            → Inv (f s).queue (log ++ more)
            → ((f s).queue.consumers i).active ≡ true
            → TwoParts (f s).queue (log ++ more) r q' r')
        → TwoParts s.queue log r q' r'
    unfolding InOrder-after
    TwoParts-turn f extends s log q' r r' inv a rest =
        let (more, inv₁, same) = extends s log inv a in
        let d = rest more inv₁ (ap (λ c. c.active) same ∙ a) in
        record {
          middle = d.middle;
          at_middle = d.at_middle;
          read =
              InOrder-after counting i s.queue (f s).queue d.middle log more r d.at_middle same
                d.read;
          drained =
              subst (λ l. InOrder totalling i d.middle l d.at_middle q' r')
                (append_assoc log more d.read.more) d.drained;
        }

    pub TwoParts-consume :
        (q q' : Queue (Message Price)) (log : List (Message Price)) (r r' : ConsumerResult Name)
        → Inv q log
        → i < max_consumers
        → (q.consumers i).active ≡ true
        → ((m : Message Price)
            → consume (pos i) q ≡ (some m, advance i q)
            → Inv (advance i q) log
            → ((advance i q).consumers i).active ≡ true
            → TwoParts (advance i q) log (counting.on_message m r) q' r')
        → (consume (pos i) q ≡ (none, q) → TwoParts q log r q' r')
        → TwoParts q log r q' r'
    unfolding InOrder-handle
    TwoParts-consume q q' log r r' inv hi a some_more no_more =
        elim (le-cases (position q i) q.next) [
          | inl ready ↦
              let (m, found, read) = read_slot_ready inv i hi a ready in
              let d =
                some_more m (consume_active i q hi a ∙ read) (advance-Inv inv i hi a ready)
                  (active-advance i q a) in
              record {
                middle = d.middle;
                at_middle = d.at_middle;
                read =
                    InOrder-handle counting i q d.middle log m r d.at_middle
                      (inv.readers i hi a).positive found d.read;
                drained = d.drained;
              }
          | inr done ↦ no_more (consume_active i q hi a ∙ read_slot_empty inv i hi a done)
        ]
