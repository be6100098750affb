-- ===== src/Consumer/Quiet.antt =====
-- `run` of include/Consumer.h once the producer has finished and has set the shutdown flag.
use lock_free_spmc_queue_dis.Common.{
  ℕ, zero, suc, ◌+◌, ◌-◌, ◌<◌, ◌≤◌, ◌≡◌, refl, true, false, Option, none, some, List, [], ◌∷◌,
  arith, ltb, if◌then◌else◌, u64_mod, take, drop, pos, ℤ, Bool-cases, le-cases, inl, inr, ap, ◌∙◌,
  get_elem?, drop_all, lt→ltb, add64, take_nil, sym, subst,
}
use lock_free_spmc_queue_dis.Queue.{Queue, max_consumers, consume}
use lock_free_spmc_queue_dis.Queue.Inv.{Inv}
use lock_free_spmc_queue_dis.Queue.Consume.{
  position, advance, advance-Inv, consume_active, read_slot_ready, read_slot_empty,
}
use lock_free_spmc_queue_dis.Queue.Drain.{position-advance, active-advance, drop-position}
use lock_free_spmc_queue_dis.WaitStrategy.{EventFd, wait_for_data, reset}
use lock_free_spmc_queue_dis.Consumer.{
  Shared, Turn, Local, Handler, handle, drain_rest, run_loop, run, reached,
}
use lock_free_spmc_queue_dis.Consumer.Rounds.{loop_done, loop_more}
use lock_free_spmc_queue_dis.Consumer.Account.{handle_all}

abbrev pub still {ℓ} : {T K : Type ℓ} → Turn T K
still = record { before = λ s. s; waiting = λ s. s }

-- `n` rounds in which no other thread does anything.
abbrev pub quiet {ℓ} : {T K : Type ℓ} → ℕ → List (Turn T K)
quiet zero = []
quiet (suc n) = still ∷ quiet n

-- What `run` takes of the unread messages when it has counted `count`; 0 asks for all.
abbrev pub quota {ℓ} : {T : Type ℓ} → ℕ → ℕ → List T → List T
quota max_messages count ms = if ltb 0 max_messages then take (max_messages - count) ms else ms

module _ {ℓ} {T : Type ℓ} (max_messages : ℕ) where
  quota_all : (count : ℕ) (ms : List T) → ms ≡ [] → quota max_messages count ms ≡ []
  quota_all count ms e = ground (arith, e, take_nil {A = T} (max_messages - count))

  quota_none :
      (count : ℕ) (ms : List T)
      → reached max_messages count ≡ true
      → quota max_messages count ms ≡ []
  unfolding reached
  quota_none count ms e = ground arith

  quota_more :
      (count : ℕ) (m : T) (ms : List T)
      → reached max_messages count ≡ false
      → quota max_messages count (m ∷ ms) ≡ m ∷ quota max_messages (count + 1) ms
  unfolding reached
  quota_more count m ms e = elim (le-cases max_messages 0) [
    | inl all ↦ let test : ltb 0 max_messages ≡ false = ground arith in rw test refl
    | inr some_only ↦
        let more : max_messages - count ≡ suc (max_messages - (count + 1)) = ground (arith, e) in
        rw (lt→ltb 0 max_messages some_only, more) refl
  ]

module _ {ℓ} {T H K Double : Type ℓ} (os : EventFd K) (handler : Handler T H)
    (max_messages : ℕ) where
  -- The result of a run that has handled the messages `ms`.
  pub record Handled (ms : List T) (l : Local H Double) (r : Option (Shared T K × Local H Double))
      : Type ℓ where
    pub shared : Shared T K
    pub own : Local H Double
    pub returns : r ≡ some (shared, own)
    pub same : own.handled ≡ handle_all handler ms l.handled

  -- The consumer after a message.
  abbrev next_local : T → ℕ → Local H Double → Local H Double
  next_local m now l = record (handle handler m now l) {
    strategy = reset (handle handler m now l).strategy;
  }

  loop_empty :
      (id : ℤ) (n : ℕ) (s : Shared T K) (l : Local H Double) (q : Queue T)
      → reached max_messages l.count ≡ false
      → s.shutdown ≡ true
      → consume id s.queue ≡ (none, q)
      → consume id q ≡ (none, q)
      → Handled [] l (run_loop os handler id max_messages (quiet (suc (suc n))) s l)
  unfolding run_loop drain_rest
  loop_empty id n s l q e shut f again = record {
    shared = record s { queue = q; kernel = (wait_for_data os l.strategy s.kernel).2 };
    own = record l { strategy = (wait_for_data os l.strategy s.kernel).1 };
    returns = ground (arith, e, f, shut, again);
    same = refl;
  }

  next_small :
      (m : T) (s : Shared T K) (l : Local H Double) (i : ℕ)
      → l.count + (s.queue.next + 1 - position s.queue i) < u64_mod
      → position s.queue i ≤ s.queue.next
      → (next_local m s.clock l).count + (s.queue.next + 1 - position (advance i s.queue) i)
        < u64_mod
  unfolding handle
  next_small m s l i small ready = omega (arith, position-advance i s.queue)

  -- The rest of a run, with the message before it.
  after_message :
      (n i : ℕ) (s : Shared T K) {log : List T} (l : Local H Double)
      → Inv s.queue log
      → reached max_messages l.count ≡ false
      → (m : T) → get_elem? log (position s.queue i - 1) ≡ some m
      → {r r' : Option (Shared T K × Local H Double)} → r ≡ r'
      → (1 ≤ position s.queue i) × (l.count + 1 < u64_mod)
      → Handled
          (quota max_messages
            (next_local m s.clock l).count
            (drop (position (advance i s.queue) i - 1) log))
          (next_local m s.clock l)
          r'
      → Handled (quota max_messages l.count (drop (position s.queue i - 1) log)) l r
  unfolding handle
  after_message n i s {log} l inv go_on m found step bounds ih =
      let q : Queue T = s.queue in
      let p : ℕ = position q i in
      let one_more : l.count + 1 ≡ add64 l.count 1 = omega arith in
      let split : quota max_messages l.count (drop (p - 1) log)
          ≡ m ∷ quota max_messages (add64 l.count 1) (drop (position (advance i q) i - 1) log) =
        ap (quota max_messages l.count) (drop-position p log m bounds.0 found)
        ∙ quota_more max_messages l.count m (drop (p + 1 - 1) log) go_on
        ∙ ap (λ c. m ∷ quota max_messages c (drop (p + 1 - 1) log)) one_more
        ∙ ap (λ x. m ∷ quota max_messages (add64 l.count 1) (drop (x - 1) log))
            (sym (position-advance i q)) in
      record {
        shared = ih.shared;
        own = ih.own;
        returns = step ∙ ih.returns;
        same = ih.same ∙ sym (ap (λ ms. handle_all handler ms l.handled) split);
      }

  pub run_loop-Handled :
      (n i : ℕ) (s : Shared T K) {log : List T} (l : Local H Double)
      → Inv s.queue log
      → i < max_consumers
      → (s.queue.consumers i).active ≡ true
      → s.shutdown ≡ true
      → s.queue.next + 1 - position s.queue i + 1 < n
      → l.count + (s.queue.next + 1 - position s.queue i) < u64_mod
      → Handled
          (quota max_messages l.count (drop (position s.queue i - 1) log))
          l
          (run_loop os handler (pos i) max_messages (quiet n) s l)
  run_loop-Handled zero i s l inv h a shut enough small = absurd (omega arith)
  run_loop-Handled (suc zero) i s l inv h a shut enough small = absurd (omega arith)
  run_loop-Handled (suc (suc n)) i s {log} l inv h a shut enough small =
      elim (Bool-cases (reached max_messages l.count)) [
        | inl stop ↦ record {
          shared = s;
          own = l;
          returns = loop_done handler (pos i) os max_messages still (quiet (suc n)) s l stop;
          same =
              ap (λ ms. handle_all handler ms l.handled)
                (sym (quota_none max_messages l.count (drop (position s.queue i - 1) log) stop));
        }
        | inr go_on ↦ elim (le-cases (position s.queue i) s.queue.next) [
          | inl ready ↦
              let (m, found, e) = read_slot_ready inv i h a ready in
              after_message n i s l inv go_on m found
                (loop_more handler (pos i) os max_messages still (quiet (suc n)) s l m
                  (advance i s.queue) go_on (consume_active i s.queue h a ∙ e))
                (omega (arith, (inv.readers i h a).positive))
                (run_loop-Handled (suc n) i (record s { queue = advance i s.queue })
                  (next_local m s.clock l) (advance-Inv inv i h a ready) h
                  (active-advance i s.queue a) shut (omega (arith, position-advance i s.queue))
                  (next_small m s l i small ready))
          | inr done ↦
              subst
                (λ ms.
                  Handled ms l (run_loop os handler (pos i) max_messages (quiet (suc (suc n))) s l))
                (sym (
                  quota_all max_messages l.count (drop (position s.queue i - 1) log)
                    (drop_all (position s.queue i - 1) log (omega (arith, inv.counted)))))
                (loop_empty (pos i) n s l s.queue go_on shut
                  (consume_active i s.queue h a ∙ read_slot_empty inv i h a done)
                  (consume_active i s.queue h a ∙ read_slot_empty inv i h a done))
        ]
      ]

  -- With the shutdown flag set, no other thread at work, a queue that keeps the invariant, an
  -- active consumer, and two rounds more than there are unread messages, `run` returns, and has
  -- handled every unread message in order, or the first `max_messages` of them if that is not 0.
  pub run-Handled :
      (n i : ℕ) (s : Shared T K) {log : List T} (l : Local H Double)
      → Inv s.queue log
      → i < max_consumers
      → (s.queue.consumers i).active ≡ true
      → s.shutdown ≡ true
      → s.queue.next + 1 - position s.queue i + 1 < n
      → Handled
          (quota max_messages 0 (drop (position s.queue i - 1) log))
          l
          (run os handler (pos i) max_messages (quiet n) s l)
  unfolding run
  run-Handled n i s {log} l inv h a shut enough =
      let r =
        run_loop-Handled n i s {log = log} (record l { count = 0 }) inv h a shut enough
          (omega (arith, inv.small)) in
      record { shared = r.shared; own = r.own; returns = r.returns; same = r.same }
