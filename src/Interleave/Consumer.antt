-- ===== src/Interleave/Consumer.antt =====
-- The steps of a consumer of include/Queue.h against the invariant of Interleave.Inv.
use lock_free_spmc_queue_dis.Common.{
  ℕ, ◌+◌, ◌-◌, ◌<◌, ◌≤◌, ◌≡◌, ◌≢◌, refl, subst, sym, some, List, [], ◌∷◌, ◌++◌, true, get_elem?,
  arith, add64,
}
use lock_free_spmc_queue_dis.Queue.{Queue, ConsumerSlot, max_consumers}
use lock_free_spmc_queue_dis.Queue.Consume.{position}
use lock_free_spmc_queue_dis.Interleave.{
  ProducerPc, resting, load_active, load_sequence, write_data, writing, store_sequence, ConsumerPc,
  outside, copied, ConsumerMove, inactive, enter, load_position, not_ready, see_ready, begin_copy,
  end_copy, advance_position, unregister, set_position, got_after,
}
use lock_free_spmc_queue_dis.Interleave.Inv.{
  Core, Scanned, Claims, Writer, Finds, Reader, Copied, Delivered,
}
use lock_free_spmc_queue_dis.Interleave.Reading.{
  find_ready, copy_ready, advance-Core, retire-Core, advance-Delivered,
}

-- No consumer has joined, and none has gone back.
pub record Onward (c c' : ℕ → ConsumerSlot) : Type 0 where
  pub still : (j : ℕ) → (c' j).active ≡ true → (c j).active ≡ true
  pub forth : (j : ℕ) → (c j).sequence ≤ (c' j).sequence

module _ {ℓ} {T : Type ℓ} where
  Scanned-Onward :
      {q : Queue T} (c : ℕ → ConsumerSlot) {s i m : ℕ}
      → Onward q.consumers c
      → Scanned q s i m
      → Scanned (record q { consumers = c }) s i m
  Scanned-Onward c on w = record {
    number = w.number;
    late = w.late;
    below = λ j h hj a. ground (arith, w.below j h hj (on.still j a), on.forth j);
    found = w.found;
  }

  Claims-onward :
      {q : Queue T} {log : List T} (c : ℕ → ConsumerSlot) {item : T} {s : ℕ}
      → Claims q log item s
      → Claims (record q { consumers = c }) log item s
  Claims-onward c w = record { number = w.number; positive = w.positive; entry = w.entry }

  pub Writer-Onward :
      (q : Queue T) (log : List T) (c : ℕ → ConsumerSlot) (p : ProducerPc T)
      → Onward q.consumers c
      → Writer q log p
      → Writer (record q { consumers = c }) log p
  Writer-Onward q log c resting on w = tt
  Writer-Onward q log c (load_active item s i m) on w = Scanned-Onward c on w
  Writer-Onward q log c (load_sequence item s i m) on w = (Scanned-Onward c on w.0, w.1)
  Writer-Onward q log c (write_data item s) on w = Claims-onward c w
  Writer-Onward q log c (writing item s) on w = Claims-onward c w
  Writer-Onward q log c (store_sequence item s) on w = (Claims-onward c w.0, w.1)

  -- What a step of consumer `i` leaves.
  pub record Consumed (q : Queue T) (log got : List T) (done start i : ℕ) (c : ConsumerPc T)
      (q' : Queue T) (c' : ConsumerPc T) : Type ℓ where
    pub core : Core q' log done
    pub slots : (consumers : ℕ → ConsumerSlot) × (q' ≡ record q { consumers = consumers })
    pub onward : Onward q.consumers q'.consumers
    pub others : (j : ℕ) → i ≢ j → q'.consumers j ≡ q.consumers j
    pub reader : Reader q'.consumers done i c'
    pub copy : Copied log c'
    pub delivered :
        (q'.consumers i).active ≡ true → Delivered log (got_after c got) start (position q' i)

  module _ {q : Queue T} {log got : List T} {done start i : ℕ} (core : Core q log done)
      (le : done ≤ q.next) (hi : i < max_consumers)
      (delivered : (q.consumers i).active ≡ true → Delivered log got start (position q i)) where
    Onward-self : Onward q.consumers q.consumers
    Onward-self = record { still = λ j a. a; forth = λ j. omega arith }

    quiet :
        {c c' : ConsumerPc T}
        → Reader q.consumers done i c'
        → Copied log c'
        → got_after c got ≡ got
        → Consumed q log got done start i c q c'
    quiet r copy same = record {
      core = core;
      slots = (q.consumers, refl);
      onward = Onward-self;
      others = λ j ne. refl;
      reader = r;
      copy = copy;
      delivered = λ a. subst (λ g. Delivered log g start (position q i)) (sym same) (delivered a);
    }

    advance_step :
        {seq : ℕ} {out : T}
        → Finds q.consumers done i seq
        → get_elem? log (seq - 1) ≡ some out
        → Consumed q log got done start i (copied seq out) (set_position i (seq + 1) q) outside
    advance_step {seq} {out} f copy = record {
      core = advance-Core core le i hi f;
      slots = (_, refl);
      onward = record { still = λ j a. ground arith; forth = λ j. ground (arith, f.expects.own) };
      others = λ j ne. ground arith;
      reader = tt;
      copy = tt;
      delivered = λ a.
          let here : seq + 1 ≡ position (set_position i (seq + 1) q) i = ground arith in
          subst (Delivered log (got ++ out ∷ []) start) here
            (advance-Delivered core le i hi f copy (delivered f.expects.active));
    }

    pub Move-Consumed :
        {q' : Queue T} {c c' : ConsumerPc T}
        → ConsumerMove i q c q' c'
        → Reader q.consumers done i c
        → Copied log c
        → Consumed q log got done start i c q' c'
    Move-Consumed (inactive e) r copy = quiet tt tt refl
    Move-Consumed (enter e) r copy = quiet (record { active = e; own = refl }) tt refl
    Move-Consumed load_position r copy = quiet r tt refl
    Move-Consumed (not_ready e) r copy = quiet tt tt refl
    Move-Consumed (see_ready e) r copy = quiet (find_ready core le i hi e r) tt refl
    Move-Consumed begin_copy r copy = quiet r tt refl
    Move-Consumed end_copy r copy = quiet r (copy_ready core le i hi r) refl
    Move-Consumed (advance_position {seq} {out}) r copy =
        let n : seq + 1 ≡ add64 seq 1 = omega (arith, r.stamped, le, core.small) in
        subst (λ v. Consumed q log got done start i (copied seq out) (set_position i v q) outside) n
          (advance_step r copy)
    Move-Consumed unregister r copy = record {
      core = retire-Core core le i hi;
      slots = (_, refl);
      onward = record { still = λ j a. ground arith; forth = λ j. ground arith };
      others = λ j ne. ground arith;
      reader = tt;
      copy = tt;
      delivered = λ a. ground arith;
    }
