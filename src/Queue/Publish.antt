-- ===== src/Queue/Publish.antt =====
-- `publish` of include/Queue.h on a queue that keeps its invariant: when it accepts, and what it
-- leaves.
use lock_free_spmc_queue_dis.Common.{
  ℕ, ◌+◌, ◌<◌, ◌≤◌, ◌≡◌, ◌⊎◌, inl, inr, true, false, List, Bool-cases, arith, u64_max, leb, add64,
  sub64, leb→le, ◌∙◌,
}
use lock_free_spmc_queue_dis.Queue.{
  Queue, ring_size, max_consumers, publish, publish_slow, scan_min,
}
use lock_free_spmc_queue_dis.Queue.Scan.{scan_min_below, scan_min-Attained}
use lock_free_spmc_queue_dis.Queue.Inv.{max_messages, Inv}
use lock_free_spmc_queue_dis.Queue.Consume.{position}
use lock_free_spmc_queue_dis.Queue.Append.{appended, HasRoom, Caches}

module _ {ℓ} {T : Type ℓ} where
  abbrev pub minimum : Queue T → ℕ
  minimum q = scan_min max_consumers 0 q.consumers u64_max

  -- Some active consumer is a full lap behind the message after `next`.
  abbrev pub Lagging : Queue T → ℕ → Type 0
  Lagging q i =
      (i < max_consumers)
      × ((q.consumers i).active ≡ true)
      × (position q i + ring_size ≤ q.next + 1)

  abbrev pub NoneActive : Queue T → Type 0
  NoneActive q = (i : ℕ) → i < max_consumers → (q.consumers i).active ≡ true → ⊥

  module _ {q : Queue T} {log : List T} (inv : Inv q log) where
    minimum-le :
        (i : ℕ) → i < max_consumers → (q.consumers i).active ≡ true → minimum q ≤ position q i
    minimum-le i h a =
        scan_min_below q.consumers max_consumers 0 u64_max i (omega arith) (omega arith) a

    -- The rescan finds a consumer, which is at most one past the last message, or finds none.
    minimum-cases :
        ((i : ℕ) × (i < max_consumers)
          × ((q.consumers i).active ≡ true)
          × (position q i ≡ minimum q))
        ⊎ (minimum q ≡ u64_max)
    minimum-cases = elim (scan_min-Attained q.consumers max_consumers 0 u64_max) [
      | inl none_found ↦ inr none_found
      | inr (i, h, a, e) ↦ inl (i, omega arith, a, e)
    ]

    minimum-Caches : ring_size ≤ q.next + 1 → Caches q (minimum q)
    minimum-Caches late = record {
      below = λ i h a. inl (minimum-le i h a);
      ok = record {
        early = inr late;
        bounded = elim minimum-cases [
          | inl (i, h, a, e) ↦ inl (omega (arith, (inv.readers i h a).reached))
          | inr e ↦ inr e
        ];
      };
    }

    own-Caches : Caches q q.min_consumer_seq
    own-Caches = record { below = λ i h a. (inv.readers i h a).guarded; ok = inv.cache }

    pub recached-Inv : (c : ℕ) → Caches q c → Inv (record q { min_consumer_seq = c }) log
    recached-Inv c caches = record {
      counted = inv.counted;
      small = inv.small;
      held = inv.held;
      stamped = inv.stamped;
      readers = λ i h a.
          let old = inv.readers i h a in
          record {
            positive = old.positive;
            reached = old.reached;
            retained = old.retained;
            guarded = caches.below i h a;
          };
      cache = caches.ok;
    }

    -- The cached test can only fail a full lap after the start.
    full-late : ring_size ≤ sub64 (q.next + 1) q.min_consumer_seq → ring_size ≤ q.next + 1
    full-late h = ground (arith, inv.cache.early, inv.cache.bounded, inv.small)

    fast-HasRoom : sub64 (q.next + 1) q.min_consumer_seq < ring_size → HasRoom q
    fast-HasRoom h i hi a =
        let w = inv.readers i hi a in
        ground (arith, w.guarded, w.reached, inv.cache.early, inv.cache.bounded, inv.small)

    slow-HasRoom : ring_size ≤ q.next + 1 → sub64 (q.next + 1) (minimum q) < ring_size → HasRoom q
    slow-HasRoom late h i hi a =
        omega (arith, (inv.readers i hi a).reached, minimum-le i hi a, inv.small)

    slow-blocked :
        ring_size ≤ q.next + 1
        → ring_size ≤ sub64 (q.next + 1) (minimum q)
        → ((i : ℕ) × Lagging q i) ⊎ NoneActive q
    slow-blocked late h = elim minimum-cases [
      | inl (i, hi, a, e) ↦ inl (i, (hi, a, omega (arith, (inv.readers i hi a).reached, inv.small)))
      | inr e ↦
          inr λ i hi a. omega (arith, (inv.readers i hi a).reached, minimum-le i hi a, inv.small)
    ]

  abbrev pub Accepts : Queue T → T → Type ℓ
  Accepts q item = (c : ℕ) × HasRoom q × Caches q c × (publish item q ≡ (true, appended item c q))

  abbrev pub Refuses : Queue T → T → Type ℓ
  Refuses q item =
      (c : ℕ) × (((i : ℕ) × Lagging q i) ⊎ (NoneActive q × (ring_size ≤ q.next + 1)))
      × Caches q c
      × (publish item q ≡ (false, record q { min_consumer_seq = c }))

  module _ {q : Queue T} {log : List T} (inv : Inv q log) (item : T)
      (small : q.next < max_messages) where
    next_seq-eq : add64 q.next 1 ≡ q.next + 1
    next_seq-eq = omega arith

    publish_slow-cases :
        ring_size ≤ q.next + 1
        → publish item q ≡ publish_slow item (q.next + 1) q
        → Accepts q item ⊎ Refuses q item
    unfolding publish_slow
    publish_slow-cases late e =
        let caches = minimum-Caches inv late in
        elim (Bool-cases (leb ring_size (sub64 (q.next + 1) (minimum q)))) [
          | inl full ↦ inr (minimum q, blocked (leb→le _ _ full), caches, e ∙ rw full)
          | inr free ↦
              inl (minimum q, slow-HasRoom inv late (ground (arith, free)), caches, e ∙ rw free)
        ]
      where
        blocked :
            ring_size ≤ sub64 (q.next + 1) (minimum q)
            → ((i : ℕ) × Lagging q i) ⊎ (NoneActive q × (ring_size ≤ q.next + 1))
        blocked h = elim (slow-blocked inv late h) [
          | inl lag ↦ inl lag
          | inr quiet ↦ inr (quiet, late)
        ]

    pub publish-cases : Accepts q item ⊎ Refuses q item
    unfolding publish
    publish-cases = elim (Bool-cases (leb ring_size (sub64 (q.next + 1) q.min_consumer_seq))) [
      | inl slow ↦ publish_slow-cases (full-late inv (leb→le _ _ slow)) (rw (next_seq-eq, slow))
      | inr fast ↦ inl (
        q.min_consumer_seq,
        fast-HasRoom inv (ground (arith, fast)),
        own-Caches inv,
        rw (next_seq-eq, fast),
      )
    ]
