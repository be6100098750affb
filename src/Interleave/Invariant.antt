-- ===== src/Interleave/Invariant.antt =====
-- The invariant of Interleave.Inv along the runs of the threads of include/Queue.h.
use lock_free_spmc_queue_dis.Interleave.Enroll.{MayJoin-InReach, passed}
use lock_free_spmc_queue_dis.Common.{
  ℕ, ◌<◌, ◌≡◌, inl, inr, refl, subst, sym, ◌∙◌, some, [], false, arith, update, ap,
}
use lock_free_spmc_queue_dis.Queue.{Queue, max_consumers, fresh, register_consumer}
use lock_free_spmc_queue_dis.Queue.Register.{enrolled, register-cases}
use lock_free_spmc_queue_dis.PubSub.{MayJoin}
use lock_free_spmc_queue_dis.Refine.{view}
use lock_free_spmc_queue_dis.Interleave.{
  resting, System, Step, produce, consume, enroll, initial, Reach, begin, next,
}
use lock_free_spmc_queue_dis.Interleave.Inv.{Core, published, done_of, SystemInv}
use lock_free_spmc_queue_dis.Interleave.Producer.{Move-Produced}
use lock_free_spmc_queue_dis.Interleave.Consumer.{Move-Consumed}
use lock_free_spmc_queue_dis.Interleave.Carry.{published-le}
use lock_free_spmc_queue_dis.Interleave.Preserve.{produce-Inv, consume-Inv, enroll-Inv}
use lock_free_spmc_queue_dis.Interleave.Inv.{InReach}

module _ {ℓ} {T : Type ℓ} where
  register-slot :
      (start : ℕ) (q : Queue T) (i : ℕ) {q' : Queue T}
      → register_consumer start q ≡ (some i, q')
      → (i < max_consumers) × ((q.consumers i).active ≡ false) × (enrolled i start q ≡ q')
  register-slot start q i {q'} e = elim (register-cases start q) [
    | inl (j, h, free, below, e') ↦
        let same : j ≡ i = cc in
        subst
          (λ k. (k < max_consumers) × ((q.consumers k).active ≡ false) × (enrolled k start q ≡ q'))
          same (h, free, ap (λ r. r.1) (sym e' ∙ e))
    | inr (full, e') ↦ cc
  ]

  enroll_at_rest :
      {s : System T} (i start : ℕ)
      → s.producer ≡ resting
      → MayJoin (view s.queue s.log) start
      → SystemInv s
      → i < max_consumers
      → (s.queue.consumers i).active ≡ false
      → SystemInv (record s {
        queue = enrolled i start s.queue;
        start = update s.start i start;
        got = update s.got i [];
      })
  enroll_at_rest {s} i start rest may inv h free =
      let at_rest : done_of s ≡ s.queue.next = ap (λ p. published p s.queue.next) rest in
      let core : Core s.queue s.log s.queue.next = subst (Core s.queue s.log) at_rest inv.core in
      let near = MayJoin-InReach start core may in
      let none_passed : passed s.producer ≡ 0 = ap passed rest in
      enroll-Inv inv i start
        (subst (λ d. InReach s.queue.next s.queue.min_consumer_seq d start) (sym at_rest) near)
        (λ b. absurd (omega (arith, none_passed))) h free

  pub Step-Inv : {s t : System T} → Step s t → SystemInv s → SystemInv t
  Step-Inv {s} (produce small m) inv = produce-Inv inv (Move-Produced m small inv.core inv.writer)
  Step-Inv {s} (consume i h m) inv = consume-Inv inv i h (
      Move-Consumed inv.core (published-le s.producer s.queue.next) h (inv.delivered i h) m
        (inv.reader i h) (inv.copy i h))
  Step-Inv {s} (enroll i start rest may e) inv =
      let (h, free, same) = register-slot start s.queue i e in
      subst
        (λ r.
          SystemInv
            (record s { queue = r; start = update s.start i start; got = update s.got i [] }))
        same (enroll_at_rest i start rest may inv h free)

  pub initial-Inv : (blank : T) → SystemInv (initial blank)
  unfolding fresh
  initial-Inv blank = record {
    core = record {
      counted = refl;
      small = omega arith;
      held = λ k h. absurd (omega arith);
      stamped = λ i. omega arith;
      readers = λ i h a. cc;
      bounded = λ i h. omega arith;
      cache = record { early = inl refl; bounded = inl (omega arith) };
    };
    writer = tt;
    reader = λ i h. tt;
    copy = λ i h. tt;
    delivered = λ i h a. cc;
  }

  pub Reach-Inv : {blank : T} {s : System T} → Reach blank s → SystemInv s
  Reach-Inv {blank} begin = initial-Inv blank
  Reach-Inv (next r st) = Step-Inv st (Reach-Inv r)
