-- ===== src/Consumer/InOrder.antt =====
-- Which messages `run` of include/Consumer.h has handled when it returns, with a producer and other
-- consumers at work between its calls.
use lock_free_spmc_queue_dis.Common.{
  ℕ, ◌+◌, ◌-◌, ◌<◌, ◌≤◌, ◌≡◌, le-cases, inl, inr, none, pos, refl, ap, ◌∙◌, sym, subst, true, some,
  List, [], ◌∷◌, ◌++◌, length, get_elem?, get_elem?-append_some, append_nil, append_assoc, zero,
  suc, arith,
}
use lock_free_spmc_queue_dis.Queue.{Queue, max_consumers, consume}
use lock_free_spmc_queue_dis.Queue.Inv.{Inv}
use lock_free_spmc_queue_dis.Queue.Consume.{
  position, advance, advance-Inv, consume_active, read_slot_ready, read_slot_empty,
}
use lock_free_spmc_queue_dis.Queue.Drain.{position-advance, active-advance}
use lock_free_spmc_queue_dis.Consumer.{Shared, Turn, Handler}
use lock_free_spmc_queue_dis.Consumer.Account.{handle_all}
use lock_free_spmc_queue_dis.Interleave.Inv.{Delivered}

module _ {ℓ} {T : Type ℓ} where
  pub Delivered-cons :
      (log got : List T) (m : T) (p p' : ℕ)
      → 1 ≤ p
      → get_elem? log (p - 1) ≡ some m
      → Delivered log got (p + 1) p'
      → Delivered log (m ∷ got) p p'
  Delivered-cons log got m p p' positive found d = record {
    begun = positive;
    count = omega (arith, d.count);
    same = λ k h. same k h;
  }
    where
      same : (k : ℕ) → k < length (m ∷ got) → get_elem? (m ∷ got) k ≡ get_elem? log (p - 1 + k)
      same zero h = let e : p - 1 ≡ p - 1 + 0 = omega arith in sym found ∙ ap (get_elem? log) e
      same (suc k) h =
          let e : p + 1 - 1 + k ≡ p - 1 + suc k = omega (arith, positive) in
          d.same k (omega arith) ∙ ap (get_elem? log) e

  -- `f` may publish, and others may join, move and leave, but an active consumer `i` stays where it
  -- is.
  abbrev pub Extends : {K : Type ℓ} → ℕ → (Shared T K → Shared T K) → Type ℓ
  Extends {K} i f =
      (s : Shared T K) (log : List T)
      → Inv s.queue log
      → (s.queue.consumers i).active ≡ true
      → (more : List T) × Inv (f s).queue (log ++ more)
        × ((f s).queue.consumers i ≡ s.queue.consumers i)

  abbrev pub TurnExtends : {K : Type ℓ} → ℕ → Turn T K → Type ℓ
  TurnExtends i turn = Extends i turn.before × Extends i turn.waiting

  module _ {H : Type ℓ} (handler : Handler T H) (i : ℕ) where
    -- From `q` with `log` to `q'`: the messages handled are the part of the last log between the
    -- positions of consumer `i`.
    pub record InOrder (q : Queue T) (log : List T) (h : H) (q' : Queue T) (h' : H) : Type ℓ where
      pub more : List T
      pub keeps : Inv q' (log ++ more)
      pub active : (q'.consumers i).active ≡ true
      pub messages : List T
      pub handled : h' ≡ handle_all handler messages h
      pub segment : Delivered (log ++ more) messages (position q i) (position q' i)

    unfoldable pub InOrder-self :
        (q : Queue T) (log : List T) (h : H)
        → Inv q log
        → i < max_consumers
        → (q.consumers i).active ≡ true
        → InOrder q log h q h
    InOrder-self q log h inv hi a = record {
      more = [];
      keeps = subst (Inv q) (sym (append_nil log)) inv;
      active = a;
      messages = [];
      handled = refl;
      segment = record {
        begun = (inv.readers i hi a).positive;
        count = omega arith;
        same = λ k h. absurd (omega arith);
      };
    }

    unfoldable pub InOrder-after :
        (q q₁ q' : Queue T) (log more : List T) (h h' : H)
        → q₁.consumers i ≡ q.consumers i
        → InOrder q₁ (log ++ more) h q' h'
        → InOrder q log h q' h'
    InOrder-after q q₁ q' log more h h' same r = record {
      more = more ++ r.more;
      keeps = subst (Inv q') (append_assoc log more r.more) r.keeps;
      active = r.active;
      messages = r.messages;
      handled = r.handled;
      segment =
          subst (λ l. Delivered l r.messages (position q i) (position q' i))
            (append_assoc log more r.more)
            (subst (λ c. Delivered ((log ++ more) ++ r.more) r.messages c.sequence (position q' i))
              same r.segment);
    }

    unfoldable pub InOrder-handle :
        (q q' : Queue T) (log : List T) (m : T) (h h' : H)
        → 1 ≤ position q i
        → get_elem? log (position q i - 1) ≡ some m
        → InOrder (advance i q) log (handler.on_message m h) q' h'
        → InOrder q log h q' h'
    InOrder-handle q q' log m h h' positive found r = record {
      more = r.more;
      keeps = r.keeps;
      active = r.active;
      messages = m ∷ r.messages;
      handled = r.handled;
      segment =
          Delivered-cons (log ++ r.more) r.messages m (position q i) (position q' i) positive
            (get_elem?-append_some log r.more (position q i - 1) m found)
            (subst (λ p. Delivered (log ++ r.more) r.messages p (position q' i))
              (position-advance i q) r.segment);
    }

    -- What is in order after the other threads' work `f` is in order before it.
    pub InOrder-turn :
        {K : Type ℓ} (f : Shared T K → Shared T K)
        → Extends i f
        → (s : Shared T K) (log : List T) (q' : Queue T) (h h' : H) → Inv s.queue log
        → (s.queue.consumers i).active ≡ true
        → ((more : List T)
            → Inv (f s).queue (log ++ more)
            → ((f s).queue.consumers i).active ≡ true
            → InOrder (f s).queue (log ++ more) h q' h')
        → InOrder s.queue log h q' h'
    InOrder-turn f extends s log q' h h' inv a rest =
        let (more, inv₁, same) = extends s log inv a in
        InOrder-after s.queue (f s).queue q' log more h h' same
          (rest more inv₁ (ap (λ c. c.active) same ∙ a))

    -- A call of `consume` by an active consumer, on either branch.
    pub InOrder-consume :
        (q q' : Queue T) (log : List T) (h h' : H)
        → Inv q log
        → i < max_consumers
        → (q.consumers i).active ≡ true
        → ((m : T)
            → consume (pos i) q ≡ (some m, advance i q)
            → Inv (advance i q) log
            → ((advance i q).consumers i).active ≡ true
            → InOrder (advance i q) log (handler.on_message m h) q' h')
        → (consume (pos i) q ≡ (none, q) → InOrder q log h q' h')
        → InOrder q log h q' h'
    InOrder-consume q q' log h h' inv hi a some_more no_more =
        elim (le-cases (position q i) q.next) [
          | inl ready ↦
              let (m, found, read) = read_slot_ready inv i hi a ready in
              InOrder-handle q q' log m h h' (inv.readers i hi a).positive found (
                some_more m (consume_active i q hi a ∙ read) (advance-Inv inv i hi a ready)
                  (active-advance i q a))
          | inr done ↦ no_more (consume_active i q hi a ∙ read_slot_empty inv i hi a done)
        ]
