-- ===== src/Tests/Stops.antt =====
-- A queue that no consumer reads, and one whose first message is overwritten.
use lock_free_spmc_queue_dis.Common.{
  ℕ, zero, suc, ◌+◌, ◌-◌, ◌<◌, ◌≡◌, refl, inl, inr, arith, List, [], ◌∷◌, some, pos, min, length,
  get_elem?, ltb, if◌then◌else◌,
}
use lock_free_spmc_queue_dis.Queue.{Queue, ring_size, fresh, consume, no_consumer}
use lock_free_spmc_queue_dis.Queue.Index.{slot_index-eq-mod}
use lock_free_spmc_queue_dis.Queue.Inv.{Inv}
use lock_free_spmc_queue_dis.Queue.Consume.{position}
use lock_free_spmc_queue_dis.Queue.Register.{enrolled}
use lock_free_spmc_queue_dis.Queue.Backpressure.{offer}
use lock_free_spmc_queue_dis.Queue.Stall.{offer_unheard}
use lock_free_spmc_queue_dis.Queue.LateJoin.{late_join, overwriting}

offer_unheard_example :
    (offer {T = ℕ} (1 ∷ 2 ∷ 3 ∷ []) (fresh 0)).0 ≡ min 3 (0 + (ring_size - 1) - 0)
unfolding fresh
offer_unheard_example =
    offer_unheard (1 ∷ 2 ∷ 3 ∷ []) (fresh 0) (λ i h a. cc) (omega arith) (omega arith)

abbrev zeros : ℕ → List ℕ
zeros zero = []
zeros (suc n) = 0 ∷ zeros n

length-zeros : (n : ℕ) → length (zeros n) ≡ n
length-zeros zero = refl
length-zeros (suc n) = omega (arith, length-zeros n)

get_elem?-zeros : (n k : ℕ) → k < n → get_elem? (zeros n) k ≡ some 0
get_elem?-zeros zero k h = absurd (omega arith)
get_elem?-zeros (suc n) zero h = refl
get_elem?-zeros (suc n) (suc k) h = get_elem?-zeros n k (omega arith)

-- 1025 messages of 0, which nobody is registered to read.
abbrev lapped : Queue ℕ
lapped = record {
  ring = λ i. record {
    sequence = if ltb i 2 then i + 1025 else (if ltb i 1024 then i + 1 else 0);
    content = 0;
  };
  consumers = λ _. no_consumer;
  next = 1025;
  min_consumer_seq = 2;
}

lapped-Inv : Inv lapped (zeros 1025)
lapped-Inv = record {
  counted = length-zeros 1025;
  small = omega arith;
  held = λ k h w. record {
    stamp = ground (arith, slot_index-eq-mod (k + 1));
    message = get_elem?-zeros 1025 k h;
  };
  stamped = λ i. ground arith;
  readers = λ i h a. cc;
  cache = record { early = inr (omega arith); bounded = inl (omega arith) };
}

late_join_example :
    (1 < overwriting 1025 1)
    × (get_elem? (zeros 1025) (overwriting 1025 1 - 1) ≡ (consume (pos 0) (enrolled 0 1 lapped)).0)
    × (position (consume (pos 0) (enrolled 0 1 lapped)).1 0 ≡ 2)
late_join_example = late_join 0 1 lapped-Inv (omega arith) (omega arith)
