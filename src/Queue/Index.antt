-- ===== src/Queue/Index.antt =====
-- The slot of a sequence number, `seq & kRingMask` in include/Queue.h.
use lock_free_spmc_queue_dis.Common.{ℕ, ◌+◌, ◌%◌, ◌<◌, ◌≡◌, ◌≢◌, arith}
use lock_free_spmc_queue_dis.Common.Bits.{bit_and_mask}
use lock_free_spmc_queue_dis.Queue.{ring_size, slot_index}

-- The mask of a sequence number is its remainder by the size of the ring.
pub slot_index-eq-mod : (seq : ℕ) → slot_index seq ≡ seq % ring_size
unfolding slot_index
slot_index-eq-mod seq = bit_and_mask seq

pub slot_index-lt : (seq : ℕ) → slot_index seq < ring_size
slot_index-lt seq = omega (arith, slot_index-eq-mod seq)

-- Two sequence numbers less than a lap apart have different slots.
pub slot_index-ne : (a b : ℕ) → a < b → b < a + ring_size → slot_index a ≢ slot_index b
slot_index-ne a b h k = omega (arith, slot_index-eq-mod a, slot_index-eq-mod b)

pub slot_index_lap : (a : ℕ) → slot_index (a + ring_size) ≡ slot_index a
slot_index_lap a = omega (arith, slot_index-eq-mod a, slot_index-eq-mod (a + ring_size))
