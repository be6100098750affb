-- ===== src/Queue/Stall.antt =====
-- `publish` of include/Queue.h with no consumer registered.
use lock_free_spmc_queue_dis.Common.{
  ◌+◌, ◌-◌, ◌<◌, ◌≤◌, ◌≡◌, ◌⊎◌, inl, inr, refl, true, false, List, [], ◌∷◌, min, arith, length,
  sub64, add64, u64_max, le-cases, leb,
}
use lock_free_spmc_queue_dis.Queue.{
  Queue, ring_size, max_consumers, publish, publish_slow, write_slot,
}
use lock_free_spmc_queue_dis.Queue.Scan.{scan_min-Attained}
use lock_free_spmc_queue_dis.Queue.Inv.{max_messages}
use lock_free_spmc_queue_dis.Queue.Append.{appended}
use lock_free_spmc_queue_dis.Queue.Publish.{NoneActive, minimum}
use lock_free_spmc_queue_dis.Queue.Backpressure.{offer}

module _ {ℓ} {T : Type ℓ} where
  minimum_quiet : (q : Queue T) → NoneActive q → minimum q ≡ u64_max
  minimum_quiet q quiet = elim (scan_min-Attained q.consumers max_consumers 0 u64_max) [
    | inl e ↦ e
    | inr (i, h, a, e) ↦ absurd (quiet i (omega arith) a)
  ]

  publish_fast :
      (item : T) (q : Queue T)
      → q.next < max_messages
      → q.min_consumer_seq ≤ q.next + 1
      → q.next + 1 < q.min_consumer_seq + ring_size
      → publish item q ≡ (true, appended item q.min_consumer_seq q)
  unfolding publish
  publish_fast item q small low room =
      let next : add64 q.next 1 ≡ q.next + 1 = omega arith in
      let test : leb ring_size (sub64 (q.next + 1) q.min_consumer_seq) ≡ false = ground arith in
      rw (next, test)

  publish_full :
      (item : T) (q : Queue T)
      → q.next < max_messages
      → NoneActive q
      → ring_size ≤ q.next + 1
      → (q.min_consumer_seq + ring_size ≤ q.next + 1) ⊎ (q.min_consumer_seq ≡ u64_max)
      → publish item q ≡ (false, record q { min_consumer_seq = u64_max })
  unfolding publish publish_slow
  publish_full item q small quiet late full =
      let next : add64 q.next 1 ≡ q.next + 1 = omega arith in
      let cached : leb ring_size (sub64 (q.next + 1) q.min_consumer_seq) ≡ true = ground arith in
      let real : leb ring_size (sub64 (q.next + 1) u64_max) ≡ true = ground arith in
      rw (next, cached, minimum_quiet q quiet, real)

  offer_stuck :
      (items : List T) (q : Queue T)
      → q.next < max_messages
      → NoneActive q
      → ring_size ≤ q.next + 1
      → q.min_consumer_seq ≡ u64_max
      → (offer items q).0 ≡ 0
  unfolding offer
  offer_stuck [] q small quiet late e = refl
  offer_stuck (x ∷ xs) q small quiet late e =
      rw (publish_full x q small quiet late (inr e))
        (offer_stuck xs (record q { min_consumer_seq = u64_max }) small quiet late refl)

  -- With no active consumer and a cached minimum that is no rescan without a consumer, as many
  -- messages of a list are accepted as fit in the lap after the cached minimum; none is accepted
  -- after that, although no consumer is there to overrun.
  pub offer_unheard :
      (items : List T) (q : Queue T)
      → NoneActive q
      → q.min_consumer_seq ≤ q.next + 1
      → q.next + length items < max_messages
      → (offer items q).0 ≡ min (length items) (q.min_consumer_seq + (ring_size - 1) - q.next)
  unfolding offer write_slot
  offer_unheard [] q quiet low small = omega arith
  offer_unheard (x ∷ xs) q quiet low small =
      elim (le-cases (q.min_consumer_seq + ring_size) (q.next + 1)) [
        | inl full ↦
            let here = publish_full x q (omega arith) quiet (omega arith) (inl full) in
            rw here (
              omega (
                arith,
                offer_stuck xs (record q { min_consumer_seq = u64_max }) (omega arith) quiet
                    (omega arith) refl,
              ))
        | inr room ↦
            let here = publish_fast x q (omega arith) low (omega arith) in
            rw here (
              omega (
                arith,
                offer_unheard xs (appended x q.min_consumer_seq q) quiet (omega arith)
                    (omega arith),
              ))
      ]
