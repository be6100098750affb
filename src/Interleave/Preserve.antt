-- ===== src/Interleave/Preserve.antt =====
-- The invariant of Interleave.Inv over one step of a thread of include/Queue.h.
use lock_free_spmc_queue_dis.Interleave.Enroll.{enrolled-Core, enrolled-Delivered}
use lock_free_spmc_queue_dis.Common.{
  ℕ, ◌+◌, ◌<◌, ◌≤◌, ◌≡◌, inl, inr, subst, sym, List, [], ◌∷◌, true, false, length, arith, update,
  eq-cases, ap, update_self, update_ne,
}
use lock_free_spmc_queue_dis.Queue.{Queue, ConsumerSlot, max_consumers}
use lock_free_spmc_queue_dis.Queue.Consume.{position}
use lock_free_spmc_queue_dis.Queue.Register.{enrolled}
use lock_free_spmc_queue_dis.Interleave.{
  ProducerPc, ConsumerPc, outside, log_after, got_after, System,
}
use lock_free_spmc_queue_dis.Interleave.Inv.{
  Core, Writer, published, Reader, Copied, Delivered, done_of, SystemInv,
}
use lock_free_spmc_queue_dis.Interleave.Producer.{Produced}
use lock_free_spmc_queue_dis.Interleave.Consumer.{Onward, Writer-Onward, Consumed}
use lock_free_spmc_queue_dis.Interleave.Carry.{
  Reader-congr, Reader-inactive, Copied-grow, Delivered-grow, log_after_grows, published-le,
  Delivered-congr,
}
use lock_free_spmc_queue_dis.Interleave.Enroll.{passed, enrolled-Writer}
use lock_free_spmc_queue_dis.Interleave.Inv.{InReach}

module _ {ℓ} {T : Type ℓ} where
  module _ {s : System T} (inv : SystemInv s) where
    pub produce-Inv :
        {q : Queue T} {p : ProducerPc T}
        → Produced s.queue s.log s.producer q p
        → SystemInv (record s { queue = q; producer = p; log = log_after p s.log })
    produce-Inv {q} {p} m = record {
      core = m.core;
      writer = m.writer;
      reader = λ i h.
          Reader-congr s.queue.consumers q.consumers (done_of s) (published p q.next) i
            (s.consumer i) (ap (λ c. c i) m.untouched) m.advanced (inv.reader i h);
      copy = λ i h.
          log_after_grows (λ l. Copied l (s.consumer i)) p s.log (inv.copy i h)
            (λ item. Copied-grow s.log (item ∷ []) (s.consumer i) (inv.copy i h));
      delivered = λ i h a. delivered i h (ap (λ c. c i) m.untouched) a;
    }
      where
        delivered :
            (i : ℕ)
            → i < max_consumers
            → q.consumers i ≡ s.queue.consumers i
            → (q.consumers i).active ≡ true
            → Delivered (log_after p s.log) (s.got i) (s.start i) (position q i)
        delivered i h e a =
            let old = inv.delivered i h (ground (arith, e, a)) in
            let b : position s.queue i ≤ length s.log + 1 =
              omega (arith, inv.core.bounded i h, inv.core.counted) in
            let same : position s.queue i ≡ position q i = ground (arith, e) in
            subst (Delivered (log_after p s.log) (s.got i) (s.start i)) same (
              log_after_grows (λ l. Delivered l (s.got i) (s.start i) (position s.queue i)) p s.log
                old (λ item. Delivered-grow s.log (item ∷ []) (s.got i) (s.start i) _ b old))

    pub consume-Inv :
        (i : ℕ) {q : Queue T} {p : ConsumerPc T}
        → i < max_consumers
        → Consumed s.queue s.log (s.got i) (done_of s) (s.start i) i (s.consumer i) q p
        → SystemInv (record s {
          queue = q;
          consumer = update s.consumer i p;
          got = update s.got i (got_after (s.consumer i) (s.got i));
        })
    consume-Inv i {q} {p} hi m = record {
      core = subst (Core q s.log) done_eq m.core;
      writer =
          subst (λ r. Writer r s.log s.producer) (sym m.slots.1)
            (Writer-Onward s.queue s.log m.slots.0 s.producer onward inv.writer);
      reader = λ j h. reader j h;
      copy = λ j h. copy j h;
      delivered = λ j h a. delivered j h a;
    }
      where
        same_next : q.next ≡ s.queue.next
        same_next = ap (λ r. r.next) m.slots.1

        onward : Onward s.queue.consumers m.slots.0
        onward = subst (Onward s.queue.consumers) (ap (λ r. r.consumers) m.slots.1) m.onward

        done_eq : done_of s ≡ published s.producer q.next
        done_eq = ap (published s.producer) (sym same_next)

        reader :
            (j : ℕ)
            → j < max_consumers
            → Reader q.consumers (published s.producer q.next) j (update s.consumer i p j)
        reader j h = elim (eq-cases i j) [
          | inl e ↦
              subst
                (λ k. Reader q.consumers (published s.producer q.next) k (update s.consumer i p k))
                e
                (subst (Reader q.consumers (published s.producer q.next) i)
                  (sym (update_self s.consumer i p))
                  (subst (λ d. Reader q.consumers d i p) done_eq m.reader))
          | inr ne ↦
              subst (Reader q.consumers (published s.producer q.next) j)
                (sym (update_ne s.consumer i j p ne))
                (Reader-congr s.queue.consumers q.consumers (done_of s)
                  (published s.producer q.next) j (s.consumer j) (m.others j ne)
                  (omega (arith, done_eq)) (inv.reader j h))
        ]

        copy : (j : ℕ) → j < max_consumers → Copied s.log (update s.consumer i p j)
        copy j h = elim (eq-cases i j) [
          | inl e ↦
              subst (λ k. Copied s.log (update s.consumer i p k)) e
                (subst (Copied s.log) (sym (update_self s.consumer i p)) m.copy)
          | inr ne ↦ subst (Copied s.log) (sym (update_ne s.consumer i j p ne)) (inv.copy j h)
        ]

        got : ℕ → List T
        got = update s.got i (got_after (s.consumer i) (s.got i))

        delivered :
            (j : ℕ)
            → j < max_consumers
            → (q.consumers j).active ≡ true
            → Delivered s.log (got j) (s.start j) (position q j)
        delivered j h a = elim (eq-cases i j) [
          | inl e ↦
              subst (λ k. Delivered s.log (got k) (s.start k) (position q k)) e
                (subst (λ g. Delivered s.log g (s.start i) (position q i))
                  (sym (update_self s.got i (got_after (s.consumer i) (s.got i))))
                  (m.delivered (subst (λ k. (q.consumers k).active ≡ true) (sym e) a)))
          | inr ne ↦
              let same : s.queue.consumers j ≡ q.consumers j = sym (m.others j ne) in
              let old = inv.delivered j h (m.onward.still j a) in
              subst (λ g. Delivered s.log g (s.start j) (position q j))
                (sym (update_ne s.got i j (got_after (s.consumer i) (s.got i)) ne))
                (subst (λ c. Delivered s.log (s.got j) (s.start j) c.sequence) same old)
        ]

    -- A registration that takes a slot and stores its position at once.
    pub enroll-Inv :
        (i start : ℕ)
        → InReach s.queue.next s.queue.min_consumer_seq (done_of s) start
        → (i < passed s.producer → s.queue.next + 1 ≤ start)
        → i < max_consumers
        → (s.queue.consumers i).active ≡ false
        → SystemInv (record s {
          queue = enrolled i start s.queue;
          start = update s.start i start;
          got = update s.got i [];
        })
    enroll-Inv i start near behind h free = record {
      core = enrolled-Core i start inv.core (published-le s.producer s.queue.next) near;
      writer = enrolled-Writer s.queue s.log s.producer i start behind inv.writer;
      reader = λ j hj. reader j hj;
      copy = inv.copy;
      delivered = λ j hj a. delivered j hj a;
    }
      where
        slots : ℕ → ConsumerSlot
        slots = (enrolled i start s.queue).consumers

        reader : (j : ℕ) → j < max_consumers → Reader slots (done_of s) j (s.consumer j)
        reader j hj = elim (eq-cases i j) [
          | inl e ↦
              let idle : s.consumer j ≡ outside =
                Reader-inactive s.queue.consumers (done_of s) j (s.consumer j)
                  (subst (λ k. (s.queue.consumers k).active ≡ false) e free) (inv.reader j hj) in
              subst (Reader slots (done_of s) j) (sym idle) tt
          | inr ne ↦
              Reader-congr s.queue.consumers slots (done_of s) (done_of s) j (s.consumer j)
                (update_ne s.queue.consumers i j _ ne) (omega arith) (inv.reader j hj)
        ]

        delivered :
            (j : ℕ)
            → j < max_consumers
            → (slots j).active ≡ true
            → Delivered s.log (update s.got i [] j) (update s.start i start j) (slots j).sequence
        delivered j hj a = elim (eq-cases i j) [
          | inl e ↦
              let g : update s.got i [] j ≡ [] = ground (arith, e) in
              let b : update s.start i start j ≡ start = ground (arith, e) in
              let p : (slots j).sequence ≡ start = ground (arith, e) in
              Delivered-congr s.log g b p (enrolled-Delivered start near.positive)
          | inr ne ↦
              let g : update s.got i [] j ≡ s.got j = update_ne s.got i j [] ne in
              let b : update s.start i start j ≡ s.start j = update_ne s.start i j start ne in
              let c : slots j ≡ s.queue.consumers j = update_ne s.queue.consumers i j _ ne in
              Delivered-congr s.log g b (ap (λ k. k.sequence) c)
                (inv.delivered j hj (subst (λ k. k.active ≡ true) c a))
        ]
