-- ===== src/Interleave/Entry/Invariant.antt =====
-- The invariant of Interleave.Inv along the runs of Interleave.Entry, for the threads of
-- include/Queue.h as they are once every start is stored.
use lock_free_spmc_queue_dis.Common.{
  ℕ, ◌+◌, ◌<◌, ◌≤◌, ◌≡◌, inl, inr, refl, subst, sym, ◌∙◌, ap, none, some, [], true, false, arith,
  update, update_self, update_ne, eq-cases,
}
use lock_free_spmc_queue_dis.Queue.{Queue, max_consumers}
use lock_free_spmc_queue_dis.Queue.Consume.{position}
use lock_free_spmc_queue_dis.Interleave.{set_position}
use lock_free_spmc_queue_dis.Interleave.Inv.{InReach, done_of, SystemInv}
use lock_free_spmc_queue_dis.Interleave.Carry.{published-le}
use lock_free_spmc_queue_dis.Interleave.Consumer.{Move-Consumed}
use lock_free_spmc_queue_dis.Interleave.Enroll.{passed, passed_late}
use lock_free_spmc_queue_dis.Interleave.Preserve.{produce-Inv, consume-Inv, enroll-Inv}
use lock_free_spmc_queue_dis.Interleave.Invariant.{initial-Inv}
use lock_free_spmc_queue_dis.Interleave.Entry.{
  Crowd, raise, MayEnter, EntryStep, produce, consume, win_slot, set_start, EntryReach, begin, next,
}
use lock_free_spmc_queue_dis.Interleave.Entry.Stored.{
  Won-none, Won-some, settled, Won, AllWon, settled-active, stored, stored_system, stored-raise,
  stored-set_start,
}
use lock_free_spmc_queue_dis.Interleave.Entry.Moves.{
  stored-Produced, produce-untouched, consume-others, stored-consume,
}

module _ {ℓ} {T : Type ℓ} where
  pub record EntryInv (s : Crowd T) : Type ℓ where
    pub whole : SystemInv (stored_system s)
    pub won : AllWon s.joining s.system.queue

  module _ {s : Crowd T} (inv : EntryInv s) where
    abbrev memory : Queue T
    memory = stored s.joining s.system.queue

    pub own_slot :
        (c : ℕ)
        → s.joining c ≡ none
        → s.system.queue.consumers c ≡ (stored s.joining s.system.queue).consumers c
    own_slot c e = ap (λ o. settled o (s.system.queue.consumers c)) (sym e)

    -- A start that is safe is in reach of the producer.
    enter-InReach :
        (i start : ℕ)
        → MayEnter s i start
        → InReach s.system.queue.next s.system.queue.min_consumer_seq (done_of s.system) start
    enter-InReach i start may = elim may.reason [
      | inl first ↦
          let early = inv.whole.core.cache.early in
          record {
            positive = may.positive;
            reached = may.reached;
            retained = omega arith;
            guarded = inl (ground (arith, early));
          }
      | inr (inl last) ↦ record {
        positive = may.positive;
        reached = may.reached;
        retained = omega arith;
        guarded = ground (arith, inv.whole.core.cache.bounded);
      }
      | inr (inr (c, on, le, before)) ↦
          let here = own_slot c on.stored in
          let at : position memory c ≤ start = subst (λ k. k.sequence ≤ start) here le in
          let r =
            inv.whole.core.readers c on.in_range (subst (λ k. k.active ≡ true) here on.active) in
          record {
            positive = may.positive;
            reached = may.reached;
            retained = omega (arith, r.retained);
            guarded = ground (arith, r.guarded);
          }
    ]

    enter_unpassed :
        (i start : ℕ)
        → MayEnter s i start
        → i < passed s.system.producer
        → s.system.queue.next + 1 ≤ start
    enter_unpassed i start may behind = elim may.reason [
      | inl first ↦
          let late =
            passed_late memory s.system.log s.system.producer inv.whole.writer (omega arith) in
          absurd (omega arith)
      | inr (inl last) ↦ omega arith
      | inr (inr (c, on, le, before)) ↦ absurd (omega arith)
    ]

    win-Inv :
        (i start : ℕ)
        → i < max_consumers
        → (s.system.queue.consumers i).active ≡ false
        → MayEnter s i start
        → EntryInv (record {
          system = record s.system {
            queue = raise i s.system.queue;
            start = update s.system.start i start;
            got = update s.system.got i [];
          };
          joining = update s.joining i (some start);
        })
    win-Inv i start h free may = record {
      whole =
          subst
            (λ q. SystemInv (record s.system {
              queue = q;
              start = update s.system.start i start;
              got = update s.system.got i [];
            }))
            (sym (stored-raise s.joining s.system.queue i start))
            (enroll-Inv inv.whole i start (enter-InReach i start may) (enter_unpassed i start may) h
              (settled-active (s.joining i) (s.system.queue.consumers i) (inv.won i) ∙ free));
      won = λ k. won k;
    }
      where
        won :
            (k : ℕ) → Won (update s.joining i (some start) k) ((raise i s.system.queue).consumers k)
        won k = elim (eq-cases i k) [
          | inl e ↦
              subst
                (λ n.
                  Won (update s.joining i (some start) n) ((raise i s.system.queue).consumers n))
                e
                (Won-some _ (update_self s.joining i (some start)) (ground arith)
                  (ground (arith, may.left_behind)))
          | inr ne ↦
              subst (λ o. Won o ((raise i s.system.queue).consumers k))
                (sym (update_ne s.joining i k (some start) ne))
                (subst (Won (s.joining k)) (sym (update_ne s.system.queue.consumers i k _ ne))
                  (inv.won k))
        ]

    set_start-Inv :
        (i : ℕ) {start : ℕ}
        → s.joining i ≡ some start
        → EntryInv (record {
          system = record s.system { queue = set_position i start s.system.queue };
          joining = update s.joining i none;
        })
    set_start-Inv i {start} e = record {
      whole =
          subst (λ q. SystemInv (record s.system { queue = q }))
            (stored-set_start s.joining s.system.queue i start inv.won e) inv.whole;
      won = λ k. won k;
    }
      where
        won :
            (k : ℕ)
            → Won (update s.joining i none k) ((set_position i start s.system.queue).consumers k)
        won k = elim (eq-cases i k) [
          | inl same ↦
              subst
                (λ n.
                  Won (update s.joining i none n)
                    ((set_position i start s.system.queue).consumers n))
                same (Won-none _ (update_self s.joining i none))
          | inr ne ↦
              subst (λ o. Won o ((set_position i start s.system.queue).consumers k))
                (sym (update_ne s.joining i k none ne))
                (subst (Won (s.joining k)) (sym (update_ne s.system.queue.consumers i k _ ne))
                  (inv.won k))
        ]

  pub EntryStep-Inv : {s t : Crowd T} → EntryStep s t → EntryInv s → EntryInv t
  EntryStep-Inv {s} (produce small m) inv = record {
    whole =
        produce-Inv inv.whole (
          stored-Produced s.joining s.system.queue inv.won m small inv.whole.core inv.whole.writer);
    won = λ i. subst (λ c. Won (s.joining i) (c i)) (sym (produce-untouched m)) (inv.won i);
  }
  EntryStep-Inv {s} (consume i {q} h e m) inv = record {
    whole = consume-Inv inv.whole i h (
        Move-Consumed inv.whole.core (published-le s.system.producer s.system.queue.next) h
          (inv.whole.delivered i h) (stored-consume s.joining e m) (inv.whole.reader i h)
          (inv.whole.copy i h));
    won = λ k. elim (eq-cases i k) [
      | inl same ↦ subst (λ n. Won (s.joining n) (q.consumers n)) same (Won-none _ e)
      | inr ne ↦ subst (Won (s.joining k)) (sym (consume-others m k ne)) (inv.won k)
    ];
  }
  EntryStep-Inv (win_slot i start h free may) inv = win-Inv inv i start h free may
  EntryStep-Inv (set_start i e) inv = set_start-Inv inv i e

  pub EntryReach-Inv : {blank : T} {s : Crowd T} → EntryReach blank s → EntryInv s
  EntryReach-Inv {blank} begin = record { whole = initial-Inv blank; won = λ i. Won-none _ refl }
  EntryReach-Inv (next r st) = EntryStep-Inv st (EntryReach-Inv r)
