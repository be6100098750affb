-- ===== src/Interleave/Writer.antt =====
-- The steps of the producer of include/Queue.h against what Interleave.Inv says of the shared
-- memory.
use lock_free_spmc_queue_dis.Common.{
  ℕ, ◌+◌, ◌-◌, ◌<◌, ◌≤◌, ◌≡◌, ◌≢◌, ◌⊎◌, inl, inr, subst, sym, ◌∙◌, some, List, [], ◌∷◌, ◌++◌, true,
  get_elem?, u64_max, arith, le-cases, length-append, get_elem?-append_left,
}
use lock_free_spmc_queue_dis.Queue.{Queue, ring_size, max_consumers, slot_index}
use lock_free_spmc_queue_dis.Queue.Index.{slot_index-ne}
use lock_free_spmc_queue_dis.Queue.Inv.{max_messages, Holds, CacheOk}
use lock_free_spmc_queue_dis.Queue.Consume.{position}
use lock_free_spmc_queue_dis.Interleave.{set_content, set_stamp}
use lock_free_spmc_queue_dis.Interleave.Inv.{Core}

module _ {ℓ} {T : Type ℓ} where
  -- The cached minimum may become `c`.
  pub record MayCache (q : Queue T) (c : ℕ) : Type 0 where
    pub below :
        (i : ℕ)
        → i < max_consumers
        → (q.consumers i).active ≡ true
        → (c ≤ position q i) ⊎ (c ≡ u64_max)
    pub ok : CacheOk q.next c

  module _ {q : Queue T} {log : List T} (core : Core q log q.next) where
    pub recache-Core : (c : ℕ) → MayCache q c → Core (record q { min_consumer_seq = c }) log q.next
    recache-Core c may = record {
      counted = core.counted;
      small = core.small;
      held = core.held;
      stamped = core.stamped;
      readers = λ i h a.
          let old = core.readers i h a in
          record {
            positive = old.positive;
            reached = old.reached;
            retained = old.retained;
            guarded = may.below i h a;
          };
      bounded = core.bounded;
      cache = may.ok;
    }

    pub claim-Core :
        (item : T) (c : ℕ)
        → q.next < max_messages
        → ((i : ℕ)
            → i < max_consumers
            → (q.consumers i).active ≡ true
            → q.next + 1 < position q i + ring_size)
        → MayCache q c
        → Core (record q { min_consumer_seq = c; next = q.next + 1 }) (log ++ item ∷ []) q.next
    claim-Core item c small room may = record {
      counted = omega (arith, length-append log (item ∷ []), core.counted);
      small = omega arith;
      held = λ k h w.
          let old = core.held k h (omega arith) in
          record {
            stamp = old.stamp;
            message =
                get_elem?-append_left log (item ∷ []) k (omega (arith, core.counted)) ∙ old.message;
          };
      stamped = core.stamped;
      readers = λ i h a.
          let old = core.readers i h a in
          record {
            positive = old.positive;
            reached = old.reached;
            retained = omega (arith, room i h a);
            guarded = may.below i h a;
          };
      bounded = λ i h. omega (arith, core.bounded i h);
      cache = record {
        early = ground (arith, may.ok.early);
        bounded = ground (arith, may.ok.bounded);
      };
    }

  module _ {q : Queue T} {log : List T} (core : Core q log (q.next - 1))
      (positive : 1 ≤ q.next) where
    other_slot :
        (k : ℕ) → k < q.next - 1 → q.next ≤ k + ring_size → slot_index q.next ≢ slot_index (k + 1)
    other_slot k h w e = slot_index-ne (k + 1) q.next (omega arith) (omega arith) (sym e)

    pub content-Core : (junk : T) → Core (set_content (slot_index q.next) junk q) log (q.next - 1)
    content-Core junk = record {
      counted = core.counted;
      small = core.small;
      held = λ k h w.
          let old = core.held k h w in
          let ne = other_slot k h w in
          record { stamp = ground (arith, old.stamp); message = ground (arith, old.message) };
      stamped = λ i. ground (arith, core.stamped i);
      readers = core.readers;
      bounded = core.bounded;
      cache = core.cache;
    }

    stamp_new :
        (item : T)
        → get_elem? log (q.next - 1) ≡ some item
        → (q.ring (slot_index q.next)).content ≡ item
        → Holds
            ((set_stamp (slot_index q.next) (q.next + 1) q).ring (slot_index q.next))
            log
            (q.next - 1)
    stamp_new item entry written = record {
      stamp = ground arith;
      message = ground (arith, entry, written);
    }

    stamp_held :
        (item : T)
        → get_elem? log (q.next - 1) ≡ some item
        → (q.ring (slot_index q.next)).content ≡ item
        → (k : ℕ) → k < q.next
        → q.next ≤ k + ring_size
        → Holds ((set_stamp (slot_index q.next) (q.next + 1) q).ring (slot_index (k + 1))) log k
    stamp_held item entry written k h w = elim (le-cases q.next (k + 1)) [
      | inl last ↦
          let e₁ : q.next - 1 ≡ k = omega arith in
          let e₂ : q.next ≡ k + 1 = omega arith in
          subst
            (λ x. Holds ((set_stamp (slot_index q.next) (q.next + 1) q).ring (slot_index x)) log k)
            e₂
            (subst
              (λ y.
                Holds ((set_stamp (slot_index q.next) (q.next + 1) q).ring (slot_index q.next)) log
                  y)
              e₁ (stamp_new item entry written))
      | inr before ↦
          let old = core.held k (omega arith) w in
          let ne = other_slot k (omega arith) w in
          record { stamp = ground (arith, old.stamp); message = ground (arith, old.message) }
    ]

    pub stamp-Core :
        (item : T)
        → get_elem? log (q.next - 1) ≡ some item
        → (q.ring (slot_index q.next)).content ≡ item
        → Core (set_stamp (slot_index q.next) (q.next + 1) q) log q.next
    stamp-Core item entry written = record {
      counted = core.counted;
      small = core.small;
      held = λ k h w. stamp_held item entry written k h w;
      stamped = λ i. ground (arith, core.stamped i);
      readers = λ i h a.
          let old = core.readers i h a in
          record {
            positive = old.positive;
            reached = omega (arith, old.reached);
            retained = old.retained;
            guarded = old.guarded;
          };
      bounded = core.bounded;
      cache = core.cache;
    }
