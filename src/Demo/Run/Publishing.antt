-- ===== src/Demo/Run/Publishing.antt =====
-- The producer's loop of src/demo_single_process.cpp against that of src/main.cpp.
use lock_free_spmc_queue_dis.Common.{
  ℕ, zero, suc, ◌+◌, ◌%◌, ◌≡◌, refl, Bool, true, false, List, [], ◌∷◌,
}
use lock_free_spmc_queue_dis.Message.{Message}
use lock_free_spmc_queue_dis.WaitStrategy.{EventFd, WaitStrategy, new_blocking, notify_all}
use lock_free_spmc_queue_dis.Consumer.{Shared}
use lock_free_spmc_queue_dis.Producer.{
  Prices, Progress, publish_from, publish_notify, advance_type, type_at, message_of, add32,
}
use lock_free_spmc_queue_dis.Demo.Run.{publish_write, demo_publish}
use mathlib.Core.Option.{map as option_map}

module _ {ℓ} {Price K : Type ℓ} (os : EventFd K) (efd spin_limit timeout : ℕ)
    (prices : Prices Price) where
  abbrev pub strategy : WaitStrategy
  strategy = new_blocking efd spin_limit timeout

  publish_write-eq :
      (item : Message Price) (s : Shared (Message Price) K)
      → publish_write os efd prices item s ≡ publish_notify os strategy item s
  unfolding publish_notify notify_all
  publish_write-eq item s = refl

  pub demo_publish-eq-publish_from :
      (turns : List (Shared (Message Price) K → Shared (Message Price) K)) (i left : ℕ)
      (p : Progress) (s : Shared (Message Price) K)
      → demo_publish os efd prices turns i left p.type_idx s
        ≡ option_map (λ r. r.1) (publish_from os strategy prices turns i left p s)
  unfolding demo_publish publish_from publish_notify notify_all
  demo_publish-eq-publish_from turns i zero p s = refl
  demo_publish-eq-publish_from [] i (suc left) p s = refl
  demo_publish-eq-publish_from (turn ∷ turns) i (suc left) p s =
      by_result (λ j b x. demo_publish-eq-publish_from turns j left b x)
        (λ b x. demo_publish-eq-publish_from turns i (suc left) b x) r.0 r.1
    where
      r : Bool × Shared (Message Price) K
      r =
          publish_write os efd prices (message_of prices (type_at p.type_idx) i (turn s).clock)
            (turn s)

      by_result :
          ((j : ℕ) (b : Progress) (x : Shared (Message Price) K)
            → demo_publish os efd prices turns j left b.type_idx x
              ≡ option_map (λ r. r.1) (publish_from os strategy prices turns j left b x))
          → ((b : Progress) (x : Shared (Message Price) K)
              → demo_publish os efd prices turns i (suc left) b.type_idx x
                ≡ option_map (λ r. r.1) (publish_from os strategy prices turns i (suc left) b x))
          → (ok : Bool) (x : Shared (Message Price) K)
          → (elim ok [
            | true ↦ demo_publish os efd prices turns (add32 i 1) left ((p.type_idx + 1) % 3) x
            | false ↦ demo_publish os efd prices turns i (suc left) ((p.type_idx + 1) % 3) x
          ])
            ≡ option_map
                (λ r. r.1)
                (elim ok [
                  | true ↦
                      publish_from os strategy prices turns (add32 i 1) left (advance_type true p) x
                  | false ↦
                      publish_from os strategy prices turns i (suc left) (advance_type false p) x
                ])
      by_result went again true x = went (add32 i 1) (advance_type true p) x
      by_result went again false x = again (advance_type false p) x
