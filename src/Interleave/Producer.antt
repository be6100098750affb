-- ===== src/Interleave/Producer.antt =====
-- The steps of the producer of include/Queue.h against the invariant of Interleave.Inv: its own
-- locals and the consumers.
use lock_free_spmc_queue_dis.Common.{
  add64, subst, sym, ℕ, suc, ◌+◌, ◌-◌, ◌<◌, ◌≤◌, ◌≡◌, refl, List, [], ◌∷◌, ◌++◌, true, u64_max,
  arith, get_elem?-append_last, min, get_elem?, some,
}
use lock_free_spmc_queue_dis.Queue.{Queue, ring_size, max_consumers, slot_index}
use lock_free_spmc_queue_dis.Queue.Inv.{max_messages}
use lock_free_spmc_queue_dis.Queue.Consume.{position}
use lock_free_spmc_queue_dis.Interleave.{
  ProducerPc, resting, write_data, log_after, load_active, begin_fast, begin_slow, skip, notice,
  take, refuse, accept, tear, settle, stamp, ProducerMove, set_content, set_stamp,
}
use lock_free_spmc_queue_dis.Interleave.Inv.{Core, Writer, published, Claims}
use lock_free_spmc_queue_dis.Interleave.Writer.{
  recache-Core, content-Core, stamp-Core, MayCache, claim-Core,
}
use lock_free_spmc_queue_dis.Interleave.Rescan.{
  own_cache, fast_room, Scanned-room, Scanned-cache, scan_start, scan_skip, scan_take,
}
use lock_free_spmc_queue_dis.Interleave.{load_sequence}

module _ {ℓ} {T : Type ℓ} where
  -- What a step of the producer leaves.
  pub record Produced (q : Queue T) (log : List T) (p : ProducerPc T) (q' : Queue T)
      (p' : ProducerPc T) : Type ℓ where
    pub core : Core q' (log_after p' log) (published p' q'.next)
    pub writer : Writer q' (log_after p' log) p'
    pub untouched : q'.consumers ≡ q.consumers
    pub advanced : published p q.next ≤ published p' q'.next

  module _ {q : Queue T} {log : List T} (core : Core q log q.next) where
    claimed :
        (p : ProducerPc T) (item : T) (c : ℕ)
        → published p q.next ≤ q.next
        → q.next < max_messages
        → ((i : ℕ)
            → i < max_consumers
            → (q.consumers i).active ≡ true
            → q.next + 1 < position q i + ring_size)
        → MayCache q c
        → Produced q log p
            (record q { min_consumer_seq = c; next = q.next + 1 })
            (write_data item (q.next + 1))
    claimed p item c before small room may =
        let back : q.next ≡ q.next + 1 - 1 = omega arith in
        record {
          core =
              subst (Core (record q { min_consumer_seq = c; next = q.next + 1 }) (log ++ item ∷ []))
                back (claim-Core core item c small room may);
          writer = record {
            number = refl;
            positive = omega arith;
            entry = get_elem?-append_last log item (q.next + 1 - 1) (omega (arith, core.counted));
          };
          untouched = refl;
          advanced = omega arith;
        }

  same_memory :
      {q : Queue T} {log : List T} {p p' : ProducerPc T}
      → Core q (log_after p' log) (published p' q.next)
      → Writer q (log_after p' log) p'
      → published p q.next ≤ published p' q.next
      → Produced q log p q p'
  same_memory c w le = record { core = c; writer = w; untouched = refl; advanced = le }

  -- A rescan that takes too small a position for a consumer is only more careful.
  pub take-Produced :
      {q : Queue T} {log : List T} {item : T} {s i m : ℕ} (v : ℕ)
      → v ≤ position q i
      → Core q log q.next
      → Writer q log (load_sequence item s i m)
      → Produced q log (load_sequence item s i m) q (load_active item s (suc i) (min m v))
  take-Produced v le core w = same_memory core (scan_take core v w.1 le w.0) (omega arith)

  stamp_step :
      {q : Queue T} {log : List T} {item : T} {s : ℕ}
      → q.next < max_messages
      → Core q log (q.next - 1)
      → Claims q log item s × ((q.ring (slot_index s)).content ≡ item)
      → Core (set_stamp (slot_index s) (add64 s 1) q) log q.next
  stamp_step {q} {log} {item} {s} small core (w, written) =
      let n : q.next + 1 ≡ add64 s 1 = omega (arith, w.number) in
      subst (λ k. Core (set_stamp (slot_index k) (add64 s 1) q) log q.next) (sym w.number)
        (subst (λ v. Core (set_stamp (slot_index q.next) v q) log q.next) n
          (stamp-Core core (omega (arith, w.number, w.positive)) item
            (subst (λ k. get_elem? log (k - 1) ≡ some item) w.number w.entry)
            (subst (λ k. (q.ring (slot_index k)).content ≡ item) w.number written)))

  pub Move-Produced :
      {q q' : Queue T} {log : List T} {p p' : ProducerPc T}
      → ProducerMove q p q' p'
      → q.next < max_messages
      → Core q log (published p q.next)
      → Writer q log p
      → Produced q log p q' p'
  Move-Produced {q} {log = log} (begin_fast item e) small core w =
      let n : q.next + 1 ≡ add64 q.next 1 = omega arith in
      subst (λ k. Produced q log resting (record q { next = k }) (write_data item k)) n
        (claimed core resting item q.min_consumer_seq (omega arith) small (fast_room core (rw n e))
          (own_cache core))
  Move-Produced {q} {log = log} (begin_slow item e) small core w =
      let n : q.next + 1 ≡ add64 q.next 1 = omega arith in
      subst (λ k. Produced q log resting q (load_active item k 0 u64_max)) n
        (same_memory core (scan_start core (rw n e)) (omega arith))
  Move-Produced (skip h e) small core w = same_memory core (scan_skip core e w) (omega arith)
  Move-Produced (notice h e) small core w = same_memory core (w, h) (omega arith)
  Move-Produced {q} (take {i = i}) small core w = take-Produced (position q i) (omega arith) core w
  Move-Produced (refuse {m = m} out e) small core w = record {
    core = recache-Core core m (Scanned-cache core w out);
    writer = tt;
    untouched = refl;
    advanced = omega arith;
  }
  Move-Produced {q} {log = log} (accept {item = item} {s = s} {i = i} {m = m} out e) small core w =
      subst
        (λ k.
          Produced q log (load_active item s i m) (record q { min_consumer_seq = m; next = k })
            (write_data item k))
        (sym w.number)
        (claimed core (load_active item s i m) item m (omega arith) small
          (Scanned-room core w out e) (Scanned-cache core w out))
  Move-Produced {q} {log = log} (tear {item = item} {s = s} junk) small core w = record {
    core =
        subst (λ k. Core (set_content (slot_index k) junk q) log (q.next - 1)) (sym w.number)
          (content-Core core (omega (arith, w.number, w.positive)) junk);
    writer = record { number = w.number; positive = w.positive; entry = w.entry };
    untouched = refl;
    advanced = omega arith;
  }
  Move-Produced {q} {log = log} (settle {item = item} {s = s}) small core w = record {
    core =
        subst (λ k. Core (set_content (slot_index k) item q) log (q.next - 1)) (sym w.number)
          (content-Core core (omega (arith, w.number, w.positive)) item);
    writer = (record { number = w.number; positive = w.positive; entry = w.entry }, ground arith);
    untouched = refl;
    advanced = omega arith;
  }
  Move-Produced {q} {log = log} (stamp {item = item} {s = s}) small core w = record {
    core = stamp_step small core w;
    writer = tt;
    untouched = refl;
    advanced = omega arith;
  }
