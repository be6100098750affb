-- ===== src/Interleave/Rescan.antt =====
-- The rescan of the consumers in `publish` of include/Queue.h, and the room that its minimum leaves.
use lock_free_spmc_queue_dis.Common.{
  sym, ℕ, suc, ◌+◌, ◌<◌, ◌≤◌, ◌≡◌, inl, inr, refl, List, true, false, u64_max, arith, sub64, leb,
  eq-cases, min,
}
use lock_free_spmc_queue_dis.Queue.{Queue, ring_size, max_consumers}
use lock_free_spmc_queue_dis.Queue.Consume.{position}
use lock_free_spmc_queue_dis.Interleave.Inv.{Core, Scanned}
use lock_free_spmc_queue_dis.Interleave.Writer.{MayCache}

module _ {ℓ} {T : Type ℓ} where
  module _ {q : Queue T} {log : List T} (core : Core q log q.next) where
    pub own_cache : MayCache q q.min_consumer_seq
    own_cache = record { below = λ i h a. (core.readers i h a).guarded; ok = core.cache }

    pub fast_room :
        leb ring_size (sub64 (q.next + 1) q.min_consumer_seq) ≡ false
        → (i : ℕ) → i < max_consumers
        → (q.consumers i).active ≡ true
        → q.next + 1 < position q i + ring_size
    fast_room e i h a =
        let r = core.readers i h a in
        ground (arith, e, r.guarded, r.reached, core.cache.early, core.cache.bounded, core.small)

    slow_late :
        leb ring_size (sub64 (q.next + 1) q.min_consumer_seq) ≡ true → ring_size ≤ q.next + 1
    slow_late e = ground (arith, e, core.cache.early, core.cache.bounded, core.small)

    pub Scanned-room :
        {s i m : ℕ}
        → Scanned q s i m
        → max_consumers ≤ i
        → leb ring_size (sub64 s m) ≡ false
        → (j : ℕ) → j < max_consumers
        → (q.consumers j).active ≡ true
        → q.next + 1 < position q j + ring_size
    Scanned-room w out e j h a =
        ground (arith, e, w.number, w.found, w.below j (omega arith) h a, core.small)

    pub Scanned-cache : {s i m : ℕ} → Scanned q s i m → max_consumers ≤ i → MayCache q m
    Scanned-cache w out = record {
      below = λ j h a. ground (arith, w.below j (omega arith) h a, w.found);
      ok = record { early = inr w.late; bounded = w.found };
    }

    pub scan_start :
        leb ring_size (sub64 (q.next + 1) q.min_consumer_seq) ≡ true
        → Scanned q (q.next + 1) 0 u64_max
    scan_start e = record {
      number = refl;
      late = slow_late e;
      below = λ j h. absurd (omega arith);
      found = inr refl;
    }

    pub scan_skip :
        {s i m : ℕ} → (q.consumers i).active ≡ false → Scanned q s i m → Scanned q s (suc i) m
    scan_skip {i = i} e w = record {
      number = w.number;
      late = w.late;
      below = λ j h hj a. elim (eq-cases i j) [
        | inl same ↦ ground (arith, e, a, same)
        | inr ne ↦ w.below j (omega arith) hj a
      ];
      found = w.found;
    }

    pub scan_take :
        {s i m : ℕ} (v : ℕ)
        → i < max_consumers
        → v ≤ position q i
        → Scanned q s i m
        → Scanned q s (suc i) (min m v)
    scan_take {i = i} v hi le w = record {
      number = w.number;
      late = w.late;
      below = λ j h hj a. elim (eq-cases i j) [
        | inl same ↦ inl (rw (sym same) (omega arith))
        | inr ne ↦ ground (arith, w.below j (omega arith) hj a)
      ];
      found = inl (omega (arith, core.bounded i hi));
    }
