-- ===== src/Endpoint/Release.antt =====
-- What the constructors and destructors of include/Producer.h and include/Consumer.h leave open,
-- and what they leave in the queue.
use lock_free_spmc_queue_dis.Common.{
  ℕ, ◌<◌, ◌≡◌, refl, Bool, true, false, Option, none, some, List, ◌++◌, ◌⊎◌, inl, inr, ◌∙◌, ap, sym,
  subst,
}
use lock_free_spmc_queue_dis.Queue.{Queue, max_consumers}
use lock_free_spmc_queue_dis.Queue.Register.{
  AllActive, enrolled, retired, register-cases, unregister-eq-retired,
}
use lock_free_spmc_queue_dis.SharedMemory.{
  Call, Answers, Failure, shm_open_failed, ftruncate_failed, mmap_failed, eventfd_failed, Manager,
  construct, destruct,
}
use lock_free_spmc_queue_dis.SharedMemory.Release.{
  Held, replay, Releases, unlinked_if, construct-Releases,
}
use lock_free_spmc_queue_dis.Endpoint.{
  Thrown, no_segment, no_queue, slots_full, construct_producer, Attached, construct_consumer,
  destroy_consumer, check_queue, register_if, register_with, leave,
}

module _ {ℓ} {Name : Type ℓ} where
  -- As `Releases`, for what a constructor of a client throws or returns, which has a queue then.
  abbrev pub Frees : Bool → Held → List (Call Name) × (Thrown ⊎ Manager Name) → Type 0
  Frees create h (calls, inl (no_segment shm_open_failed)) = replay calls h ≡ some h
  Frees create h (calls, inl _) = replay calls h ≡ some (unlinked_if create h)
  Frees create h (calls, inr m) =
      (replay (calls ++ destruct m) h ≡ some (unlinked_if create h))
      × ((address : ℕ) × (m.queue ≡ some address))

  check_queue-Frees :
      (create : Bool) (h : Held) (r : List (Call Name) × (Failure ⊎ Manager Name))
      → Releases create h r
      → Frees create h (check_queue r)
  unfolding check_queue
  check_queue-Frees create h (calls, inl shm_open_failed) e = e
  check_queue-Frees create h (calls, inl ftruncate_failed) e = e
  check_queue-Frees create h (calls, inl mmap_failed) e = e
  check_queue-Frees create h (calls, inl eventfd_failed) e = e
  check_queue-Frees create h (calls, inr m) e = by_queue m.queue refl
    where
      by_queue :
          (found : Option ℕ)
          → m.queue ≡ found
          → Frees create h (elim found [
            | none ↦ (calls ++ destruct m, inl no_queue)
            | some address ↦ (calls, inr m)
          ])
      by_queue none at = e
      by_queue (some address) at = (e, (address, at))

  pub construct_producer-Frees :
      (answers : Answers) (size : ℕ) (name : Name) (h : Held)
      → Frees true h (construct_producer answers size name)
  unfolding construct_producer
  construct_producer-Frees answers size name h =
      check_queue-Frees true h (construct answers size name true)
        (construct-Releases answers size name true h).0

  Frees-thrown :
      (h : Held) (calls : List (Call Name)) (why : Thrown)
      → Frees false h (calls, inl why)
      → replay calls h ≡ some h
  Frees-thrown h calls (no_segment shm_open_failed) e = e
  Frees-thrown h calls (no_segment ftruncate_failed) e = e
  Frees-thrown h calls (no_segment mmap_failed) e = e
  Frees-thrown h calls (no_segment eventfd_failed) e = e
  Frees-thrown h calls no_queue e = e
  Frees-thrown h calls slots_full e = e

module _ {ℓ} {Name T : Type ℓ} where
  -- What a consumer's constructor leaves when it throws, and when it returns, also with its
  -- destructor after it, on whatever the queue is by then.
  abbrev pub Attaches :
      Held → Queue T → List (Call Name) × Queue T × (Thrown ⊎ Attached Name) → Type ℓ
  Attaches h q (calls, q', inl why) = (replay calls h ≡ some h) × (q' ≡ q)
  Attaches h q (calls, q', inr c) =
      (c.consumer_id < max_consumers)
      × ((q.consumers c.consumer_id).active ≡ false)
      × AllActive q c.consumer_id
      × (q' ≡ enrolled c.consumer_id 1 q)
      × ((later : Queue T)
          → (replay (calls ++ (destroy_consumer c later).0) h ≡ some h)
            × ((destroy_consumer c later).1 ≡ retired c.consumer_id later))

  register_if-Attaches :
      (h : Held) (q : Queue T) (r : List (Call Name) × (Thrown ⊎ Manager Name))
      → Frees false h r
      → Attaches h q (register_if q r)
  unfolding register_if register_with destroy_consumer leave
  register_if-Attaches h q (calls, inl why) e = (Frees-thrown h calls why e, refl)
  register_if-Attaches h q (calls, inr m) (e, (address, at)) = elim (register-cases 1 q) [
    | inl (i, below, free, first, found) ↦
        subst (λ r. Attaches h q (register_with m calls r)) (sym found)
          (
            below,
            free,
            first,
            refl,
            λ later. (e, ap (λ a. leave a i later) at ∙ unregister-eq-retired i later below),
          )
    | inr (full, found) ↦ subst (λ r. Attaches h q (register_with m calls r)) (sym found) (e, refl)
  ]

  -- Whatever each system call answers, a consumer's constructor that throws leaves nothing open and
  -- the queue as it was; one that returns has registered at message 1 in the first slot that was
  -- inactive, and its destructor, on any later queue, closes and unmaps all that the constructor
  -- opened, and makes the slot inactive.
  pub construct_consumer-Attaches :
      (answers : Answers) (size : ℕ) (name : Name) (h : Held) (q : Queue T)
      → Attaches h q (construct_consumer answers size name q)
  unfolding construct_consumer
  construct_consumer-Attaches answers size name h q =
      register_if-Attaches h q (check_queue (construct answers size name false)) (
        check_queue-Frees false h (construct answers size name false)
          (construct-Releases answers size name false h).0)
