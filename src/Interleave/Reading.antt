-- ===== src/Interleave/Reading.antt =====
-- What the steps of `consume` in include/Queue.h find and leave in the shared memory.
use lock_free_spmc_queue_dis.Common.{
  ℕ, ◌+◌, ◌-◌, ◌<◌, ◌≤◌, ◌≡◌, inl, inr, subst, sym, ◌∙◌, some, List, [], ◌∷◌, ◌++◌, false, length,
  get_elem?, arith, leb, eq-cases, le-cases, length-append, get_elem?-append_left,
  get_elem?-append_last,
}
use lock_free_spmc_queue_dis.Queue.{Queue, max_consumers, slot_index}
use lock_free_spmc_queue_dis.Queue.Inv.{Holds}
use lock_free_spmc_queue_dis.Queue.Consume.{position}
use lock_free_spmc_queue_dis.Interleave.{set_position, retire}
use lock_free_spmc_queue_dis.Interleave.Inv.{InReach, Core, Expects, Finds, Delivered}

module _ {ℓ} {T : Type ℓ} where
  module _ {q : Queue T} {log : List T} {done : ℕ} (core : Core q log done) (le : done ≤ q.next)
      (i : ℕ) (hi : i < max_consumers) where
    pub reach : {seq : ℕ} → Expects q.consumers i seq → InReach q.next q.min_consumer_seq done seq
    reach x =
        subst (InReach q.next q.min_consumer_seq done) (sym x.own) (core.readers i hi x.active)

    pub find_ready :
        {seq : ℕ}
        → leb (q.ring (slot_index seq)).sequence seq ≡ false
        → Expects q.consumers i seq
        → Finds q.consumers done i seq
    find_ready {seq} e x = record {
      expects = x;
      stamped = ground (arith, e, core.stamped (slot_index seq));
    }

    pub copy_ready :
        {seq : ℕ}
        → Finds q.consumers done i seq
        → get_elem? log (seq - 1) ≡ some (q.ring (slot_index seq)).content
    copy_ready {seq} f =
        let r = reach f.expects in
        let back : seq - 1 + 1 ≡ seq = omega (arith, r.positive) in
        (subst (λ s. Holds (q.ring (slot_index s)) log (seq - 1)) back
          (core.held (seq - 1) (omega (arith, r.positive, f.stamped))
            (omega (arith, r.positive, r.retained)))).message

    moved :
        {seq : ℕ} → Finds q.consumers done i seq → InReach q.next q.min_consumer_seq done (seq + 1)
    moved f =
        let r = reach f.expects in
        record {
          positive = omega arith;
          reached = omega (arith, f.stamped);
          retained = omega (arith, r.retained);
          guarded = ground (arith, r.guarded);
        }

    pub advance-Core :
        {seq : ℕ} → Finds q.consumers done i seq → Core (set_position i (seq + 1) q) log done
    advance-Core {seq} f = record {
      counted = core.counted;
      small = core.small;
      held = core.held;
      stamped = core.stamped;
      readers = λ j hj a. elim (eq-cases i j) [
        | inl same ↦
            let here : seq + 1 ≡ position (set_position i (seq + 1) q) j = ground arith in
            subst (InReach q.next q.min_consumer_seq done) here (moved f)
        | inr ne ↦ ground (arith, core.readers j hj)
      ];
      bounded = λ j hj. ground (arith, core.bounded j hj, f.stamped);
      cache = core.cache;
    }

    pub retire-Core : Core (retire i q) log done
    retire-Core = record {
      counted = core.counted;
      small = core.small;
      held = core.held;
      stamped = core.stamped;
      readers = λ j hj a. ground (arith, core.readers j hj);
      bounded = λ j hj. ground (arith, core.bounded j hj);
      cache = core.cache;
    }

    pub advance-Delivered :
        {seq start : ℕ} {out : T} {got : List T}
        → Finds q.consumers done i seq
        → get_elem? log (seq - 1) ≡ some out
        → Delivered log got start (position q i)
        → Delivered log (got ++ out ∷ []) start (seq + 1)
    advance-Delivered {seq} {start} {out} {got} f copy d = record {
      begun = d.begun;
      count = omega (arith, length-append got (out ∷ []), d.count, f.expects.own);
      same = λ k h. elim (le-cases (length got) k) [
        | inl last ↦
            let old : length got ≡ k = omega (arith, length-append got (out ∷ [])) in
            let at : seq - 1 ≡ start - 1 + k = omega (arith, d.count, d.begun, f.expects.own) in
            get_elem?-append_last got out k old
            ∙ subst (λ n. some out ≡ get_elem? log n) at (sym copy)
        | inr before ↦ get_elem?-append_left got (out ∷ []) k before ∙ d.same k before
      ];
    }
