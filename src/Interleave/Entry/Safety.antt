-- ===== src/Interleave/Entry/Safety.antt =====
-- The states that the threads of include/Queue.h can reach while consumers register.
use lock_free_spmc_queue_dis.Common.{ℕ, ◌≤◌, ◌<◌, ◌+◌, ◌≡◌, ◌≢◌, sym, subst, true, arith}
use lock_free_spmc_queue_dis.Queue.{max_consumers, slot_index}
use lock_free_spmc_queue_dis.Queue.Inv.{Holds}
use lock_free_spmc_queue_dis.Queue.Consume.{position}
use lock_free_spmc_queue_dis.Interleave.{writing, reading}
use lock_free_spmc_queue_dis.Interleave.Inv.{Delivered, done_of}
use lock_free_spmc_queue_dis.Interleave.Safety.{slots_apart}
use lock_free_spmc_queue_dis.Interleave.Entry.{Crowd, Settled, EntryReach}
use lock_free_spmc_queue_dis.Interleave.Entry.Stored.{stored_system}
use lock_free_spmc_queue_dis.Interleave.Entry.Invariant.{EntryInv, own_slot, EntryReach-Inv}

module _ {ℓ} {T : Type ℓ} {blank : T} {s : Crowd T} (r : EntryReach blank s) (i : ℕ) where
  inv : EntryInv s
  inv = EntryReach-Inv r

  -- In every state that the threads can reach, with registrations in two steps at any point of a
  -- publish, each begun under the conditions of `MayEnter`, the slot that a consumer copies is not
  -- the slot that the producer is writing.
  pub entry_no_torn_read :
      i < max_consumers
      → (seq n : ℕ) (item : T) → s.system.consumer i ≡ reading seq
      → s.system.producer ≡ writing item n
      → slot_index seq ≢ slot_index n
  entry_no_torn_read h seq n item at_read at_write =
      slots_apart inv.whole i h seq n item at_read at_write

  -- In every state that the threads can reach, with registrations in two steps at any point of a
  -- publish, each begun under the conditions of `MayEnter`: what a consumer that has stored its
  -- start and is active has received is the part of the log between its start and its position,
  -- with no message lost, none twice, in the order of publication.
  pub entry_received_in_order :
      Settled s i
      → Delivered s.system.log (s.system.got i) (s.system.start i) (position s.system.queue i)
  entry_received_in_order on =
      let here = own_slot inv i on.stored in
      subst (λ c. Delivered s.system.log (s.system.got i) (s.system.start i) c.sequence) (sym here)
        (inv.whole.delivered i on.in_range (subst (λ c. c.active ≡ true) here on.active))

  pub entry_unread_kept :
      Settled s i
      → (k : ℕ) → position s.system.queue i ≤ k + 1
      → k < done_of s.system
      → Holds (s.system.queue.ring (slot_index (k + 1))) s.system.log k
  entry_unread_kept on k unread stamped =
      let here = own_slot inv i on.stored in
      let behind : position (stored_system s).queue i ≤ k + 1 =
        subst (λ c. c.sequence ≤ k + 1) here unread in
      let r = inv.whole.core.readers i on.in_range (subst (λ c. c.active ≡ true) here on.active) in
      inv.whole.core.held k stamped (omega (arith, r.retained))
