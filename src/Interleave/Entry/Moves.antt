-- ===== src/Interleave/Entry/Moves.antt =====
-- The steps of Interleave.Entry on the threads as they are once every start is stored.
use lock_free_spmc_queue_dis.Common.{
  ℕ, ◌<◌, ◌≡◌, ◌≢◌, refl, subst, sym, ◌∙◌, ap, Option, none, Bool, List, update_ne,
}
use lock_free_spmc_queue_dis.Queue.{Queue}
use lock_free_spmc_queue_dis.Queue.Inv.{max_messages}
use lock_free_spmc_queue_dis.Queue.Consume.{position}
use lock_free_spmc_queue_dis.Interleave.{
  ProducerPc, ConsumerPc, ProducerMove, ConsumerMove, begin_fast, begin_slow, skip, notice, take,
  refuse, accept, tear, settle, stamp, inactive, enter, load_position, not_ready, see_ready,
  begin_copy, end_copy, advance_position, unregister, expecting, outside, is_active, copied,
}
use lock_free_spmc_queue_dis.Interleave.Inv.{Core, Writer, published}
use lock_free_spmc_queue_dis.Interleave.Producer.{Produced, Move-Produced, take-Produced}
use lock_free_spmc_queue_dis.Interleave.Entry.Stored.{
  settled, AllWon, settled-active, settled-position, stored, stored-set_position, stored-retire,
}

module _ {ℓ} {T : Type ℓ} where
  module _ (j : ℕ → Option ℕ) (q : Queue T) (won : AllWon j q) where
    seen : (i : ℕ) {b : Bool} → (q.consumers i).active ≡ b → ((stored j q).consumers i).active ≡ b
    seen i e = settled-active (j i) (q.consumers i) (won i) ∙ e

    pub stored-Produced :
        {q' : Queue T} {log : List T} {p p' : ProducerPc T}
        → ProducerMove q p q' p'
        → q.next < max_messages
        → Core (stored j q) log (published p q.next)
        → Writer (stored j q) log p
        → Produced (stored j q) log p (stored j q') p'
    stored-Produced (begin_fast item e) small core w =
        Move-Produced (begin_fast item e) small core w
    stored-Produced (begin_slow item e) small core w =
        Move-Produced (begin_slow item e) small core w
    stored-Produced (skip {i = i} h e) small core w = Move-Produced (skip h (seen i e)) small core w
    stored-Produced (notice {i = i} h e) small core w =
        Move-Produced (notice h (seen i e)) small core w
    stored-Produced (take {i = i}) small core w =
        take-Produced (position q i) (settled-position (j i) (q.consumers i) (won i)) core w
    stored-Produced (refuse out e) small core w = Move-Produced (refuse out e) small core w
    stored-Produced (accept out e) small core w = Move-Produced (accept out e) small core w
    stored-Produced (tear junk) small core w = Move-Produced (tear junk) small core w
    stored-Produced settle small core w = Move-Produced settle small core w
    stored-Produced stamp small core w = Move-Produced stamp small core w

  pub produce-untouched :
      {q q' : Queue T} {p p' : ProducerPc T} → ProducerMove q p q' p' → q'.consumers ≡ q.consumers
  produce-untouched (begin_fast item e) = refl
  produce-untouched (begin_slow item e) = refl
  produce-untouched (skip h e) = refl
  produce-untouched (notice h e) = refl
  produce-untouched take = refl
  produce-untouched (refuse out e) = refl
  produce-untouched (accept out e) = refl
  produce-untouched (tear junk) = refl
  produce-untouched settle = refl
  produce-untouched stamp = refl

  pub consume-others :
      {i : ℕ} {q q' : Queue T} {c c' : ConsumerPc T}
      → ConsumerMove i q c q' c'
      → (k : ℕ) → i ≢ k
      → q'.consumers k ≡ q.consumers k
  consume-others (inactive e) k ne = refl
  consume-others (enter e) k ne = refl
  consume-others load_position k ne = refl
  consume-others (not_ready e) k ne = refl
  consume-others (see_ready e) k ne = refl
  consume-others begin_copy k ne = refl
  consume-others end_copy k ne = refl
  consume-others {i} {q} advance_position k ne = update_ne q.consumers i k _ ne
  consume-others {i} {q} unregister k ne = update_ne q.consumers i k _ ne

  -- A consumer that has stored its start takes the same steps.
  module _ (j : ℕ → Option ℕ) {i : ℕ} (e : j i ≡ none) where
    own : (q : Queue T) → q.consumers i ≡ (stored j q).consumers i
    own q = ap (λ o. settled o (q.consumers i)) (sym e)

    pub stored-consume :
        {q q' : Queue T} {c c' : ConsumerPc T}
        → ConsumerMove i q c q' c'
        → ConsumerMove i (stored j q) c (stored j q') c'
    stored-consume {q} (inactive a) = inactive (sym (ap (λ c. c.active) (own q)) ∙ a)
    stored-consume {q} (enter a) = enter (sym (ap (λ c. c.active) (own q)) ∙ a)
    stored-consume {q} load_position =
        subst (λ c. ConsumerMove i (stored j q) is_active (stored j q) (expecting c.sequence))
          (sym (own q)) load_position
    stored-consume (not_ready r) = not_ready r
    stored-consume (see_ready r) = see_ready r
    stored-consume begin_copy = begin_copy
    stored-consume end_copy = end_copy
    stored-consume {q} (advance_position {seq} {out}) =
        subst (λ r. ConsumerMove i (stored j q) (copied seq out) r outside)
          (sym (stored-set_position j q i _ e)) advance_position
    stored-consume {q} unregister =
        subst (λ r. ConsumerMove i (stored j q) outside r outside) (sym (stored-retire j q i e))
          unregister
