-- ===== src/Interleave/Safety.antt =====
-- The states that the threads of include/Queue.h can reach: slots, stamps and what consumers have
-- received.
use lock_free_spmc_queue_dis.Common.{
  ℕ, ◌+◌, ◌-◌, ◌<◌, ◌≤◌, ◌≡◌, ◌≢◌, ◌↔◌, subst, sym, true, false, arith, leb,
}
use lock_free_spmc_queue_dis.Queue.{max_consumers, slot_index}
use lock_free_spmc_queue_dis.Queue.Index.{slot_index-ne}
use lock_free_spmc_queue_dis.Queue.Inv.{Holds}
use lock_free_spmc_queue_dis.Queue.Consume.{position}
use lock_free_spmc_queue_dis.Interleave.{
  ProducerPc, writing, ConsumerPc, expecting, reading, System, Reach,
}
use lock_free_spmc_queue_dis.Interleave.Inv.{
  InReach, Writer, Expects, Reader, Delivered, done_of, SystemInv,
}
use lock_free_spmc_queue_dis.Interleave.Invariant.{Reach-Inv}

module _ {ℓ} {T : Type ℓ} {s : System T} (inv : SystemInv s) (i : ℕ) (h : i < max_consumers) where
  Reader-at : (p : ConsumerPc T) → s.consumer i ≡ p → Reader s.queue.consumers (done_of s) i p
  Reader-at p e = subst (Reader s.queue.consumers (done_of s) i) e (inv.reader i h)

  Writer-at : (p : ProducerPc T) → s.producer ≡ p → Writer s.queue s.log p
  Writer-at p e = subst (Writer s.queue s.log) e inv.writer

  reach_of :
      (seq : ℕ)
      → Expects s.queue.consumers i seq
      → InReach s.queue.next s.queue.min_consumer_seq (done_of s) seq
  reach_of seq x =
      subst (InReach s.queue.next s.queue.min_consumer_seq (done_of s)) (sym x.own)
        (inv.core.readers i h x.active)

  -- The slot that a consumer copies is not the slot that is being written.
  pub slots_apart :
      (seq n : ℕ) (item : T)
      → s.consumer i ≡ reading seq
      → s.producer ≡ writing item n
      → slot_index seq ≢ slot_index n
  slots_apart seq n item at_read at_write =
      let f = Reader-at (reading seq) at_read in
      let w = Writer-at (writing item n) at_write in
      let d : done_of s ≡ s.queue.next - 1 = ground (arith, at_write) in
      slot_index-ne seq n (omega (arith, f.stamped, d, w.number, w.positive))
        (omega (arith, (reach_of seq f.expects).retained, w.number))

  ready_stamp :
      (seq : ℕ)
      → Expects s.queue.consumers i seq
      → seq ≤ done_of s
      → (s.queue.ring (slot_index seq)).sequence ≡ seq + 1
  ready_stamp seq x le =
      let w = reach_of seq x in
      let back : seq - 1 + 1 ≡ seq = omega (arith, w.positive) in
      let slot : Holds (s.queue.ring (slot_index seq)) s.log (seq - 1) =
        subst (λ k. Holds (s.queue.ring (slot_index k)) s.log (seq - 1)) back
          (inv.core.held (seq - 1) (omega (arith, w.positive))
            (omega (arith, w.positive, w.retained))) in
      omega (arith, slot.stamp, w.positive)

module _ {ℓ} {T : Type ℓ} {blank : T} {s : System T} (r : Reach blank s) (i : ℕ)
    (h : i < max_consumers) where
  inv : SystemInv s
  inv = Reach-Inv r

  -- In every reachable state, the slot that a consumer copies is not the slot that the producer is
  -- writing.
  pub no_torn_read :
      (seq n : ℕ) (item : T)
      → s.consumer i ≡ reading seq
      → s.producer ≡ writing item n
      → slot_index seq ≢ slot_index n
  no_torn_read seq n item at_read at_write = slots_apart inv i h seq n item at_read at_write

  -- In every reachable state of the threads, what an active consumer has received is the part of
  -- the log between the message at which it registered and its position: no message lost, none
  -- twice, in the order of publication.
  pub received_in_order :
      (s.queue.consumers i).active ≡ true
      → Delivered s.log (s.got i) (s.start i) (position s.queue i)
  received_in_order a = inv.delivered i h a

  -- In every reachable state, a message that has been stamped and that an active consumer has not
  -- read is still in its slot, whatever the producer is doing.
  pub unread_kept :
      (k : ℕ)
      → (s.queue.consumers i).active ≡ true
      → position s.queue i ≤ k + 1
      → k < done_of s
      → Holds (s.queue.ring (slot_index (k + 1))) s.log k
  unread_kept k a unread stamped =
      inv.core.held k stamped (omega (arith, (inv.core.readers i h a).retained))

  -- In every reachable state, a consumer that has loaded its position passes the readiness test
  -- exactly if the message of that number has been stamped.
  pub ready_iff :
      (seq : ℕ)
      → s.consumer i ≡ expecting seq
      → (leb (s.queue.ring (slot_index seq)).sequence seq ≡ false) ↔ (seq ≤ done_of s)
  ready_iff seq e =
      let x = Reader-at inv i h (expecting seq) e in
      (
        (λ ready. ground (arith, ready, inv.core.stamped (slot_index seq))),
        (λ le. ground (arith, ready_stamp inv i h seq x le)),
      )
