-- ===== src/Producer/Counting.antt =====
-- The counters of `run_producer_mode` in src/main.cpp when its loop ends, and its shutdown.
use lock_free_spmc_queue_dis.Common.{
  ℕ, zero, suc, ◌+◌, ◌<◌, ◌≡◌, refl, true, false, Bool, Option, none, some, List, [], ◌∷◌, arith,
  u64_mod, ap, ◌∙◌, sym,
}
use lock_free_spmc_queue_dis.Message.{MessageType, add, trade, delete, Message, Counts, count_kind}
use lock_free_spmc_queue_dis.Message.Tally.{total}
use lock_free_spmc_queue_dis.WaitStrategy.{EventFd, WaitStrategy}
use lock_free_spmc_queue_dis.Consumer.{Shared}
use lock_free_spmc_queue_dis.Producer.{
  Prices, Progress, no_progress, publish_from, publish_notify, run_producer_mode, advance_type,
  shut_down, then_shut_down, type_at, message_of, add32,
}

total-count_kind :
    (k : MessageType) (c : Counts) → total c + 1 < u64_mod → total (count_kind k c) ≡ total c + 1
unfolding count_kind
total-count_kind add c h = omega arith
total-count_kind trade c h = omega arith
total-count_kind delete c h = omega arith

module _ {ℓ} {Price K : Type ℓ} (os : EventFd K) (strategy : WaitStrategy)
    (prices : Prices Price) where
  publish_from-total :
      (turns : List (Shared (Message Price) K → Shared (Message Price) K)) (i left : ℕ)
      (p p' : Progress) (s s' : Shared (Message Price) K)
      → total p.counts + left < u64_mod
      → publish_from os strategy prices turns i left p s ≡ some (p', s')
      → total p'.counts ≡ total p.counts + left
  unfolding publish_from
  publish_from-total turns i zero p p' s s' h e =
      let same : p ≡ p' = cc in ap (λ x. total x.counts) (sym same) ∙ (omega arith)
  publish_from-total [] i (suc left) p p' s s' h e = cc
  publish_from-total (turn ∷ turns) i (suc left) p p' s s' h e =
      by_result (λ b x f. publish_from-total turns (add32 i 1) left b p' x s' f)
        (λ b x f. publish_from-total turns i (suc left) b p' x s' f) r.0 e
    where
      r : Bool × Shared (Message Price) K
      r =
          publish_notify os strategy (message_of prices (type_at p.type_idx) i (turn s).clock)
            (turn s)

      by_result :
          ((b : Progress) (x : Shared (Message Price) K)
            → total b.counts + left < u64_mod
            → publish_from os strategy prices turns (add32 i 1) left b x ≡ some (p', s')
            → total p'.counts ≡ total b.counts + left)
          → ((b : Progress) (x : Shared (Message Price) K)
              → total b.counts + suc left < u64_mod
              → publish_from os strategy prices turns i (suc left) b x ≡ some (p', s')
              → total p'.counts ≡ total b.counts + suc left)
          → (ok : Bool)
          → (elim ok [
            | true ↦
                publish_from os strategy prices turns (add32 i 1) left (advance_type true p) r.1
            | false ↦ publish_from os strategy prices turns i (suc left) (advance_type false p) r.1
          ])
            ≡ some (p', s')
          → total p'.counts ≡ total p.counts + suc left
      by_result went again true e =
          let one = total-count_kind (type_at p.type_idx) p.counts (omega arith) in
          omega (arith, one, went (advance_type true p) r.1 (omega (arith, one)) e)
      by_result went again false e = again (advance_type false p) r.1 h e

  -- Whatever other threads do between its rounds, when the producer's loop ends its three counters
  -- together are the number of messages it was to publish, and the shutdown flag is set.
  pub run_producer_mode-total :
      (turns : List (Shared (Message Price) K → Shared (Message Price) K)) (total_messages : ℕ)
      (s s' : Shared (Message Price) K) (p : Progress)
      → total_messages < u64_mod
      → run_producer_mode os strategy prices turns total_messages s ≡ some (p, s')
      → (total p.counts ≡ total_messages) × (s'.shutdown ≡ true)
  unfolding run_producer_mode shut_down then_shut_down
  run_producer_mode-total turns n s s' p h e =
      by_end (publish_from os strategy prices turns 1 n no_progress s) refl e
    where
      by_end :
          (r : Option (Progress × Shared (Message Price) K))
          → publish_from os strategy prices turns 1 n no_progress s ≡ r
          → then_shut_down os strategy r ≡ some (p, s')
          → (total p.counts ≡ n) × (s'.shutdown ≡ true)
      by_end none found e = cc
      by_end (some (p₁, s₁)) found e =
          let same : p₁ ≡ p = cc in
          let last : shut_down os strategy s₁ ≡ s' = cc in
          let all = publish_from-total turns 1 n no_progress p₁ s s₁ (omega arith) found in
          (
            ap (λ x. total x.counts) (sym same) ∙ omega (arith, all),
            ap (λ x. x.shutdown) (sym last),
          )
