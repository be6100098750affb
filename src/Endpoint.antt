-- ===== src/Endpoint.antt =====
-- The constructors and destructors of include/Producer.h and include/Consumer.h: a manager of the
-- shared memory, and for a consumer its registration with the queue there.
pub mod Release
use lock_free_spmc_queue_dis.Common.{
  ℕ, true, false, Option, none, some, List, ◌++◌, ◌⊎◌, inl, inr, pos,
}
use lock_free_spmc_queue_dis.Queue.{Queue}
use lock_free_spmc_queue_dis.SharedMemory.{Call, Answers, Failure, Manager, construct, destruct}
use lock_free_spmc_queue_dis.Consumer.{attach, detach}

-- What a constructor throws: the manager's exception, or its own.
pub data Thrown : Type 0 where
  no_segment : (why : Failure) → Thrown
  no_queue : Thrown
  slots_full : Thrown

module _ {ℓ} {Name : Type ℓ} where
  -- `if (!queue_) throw`: what has been built is destroyed.
  check_queue :
      List (Call Name) × (Failure ⊎ Manager Name) → List (Call Name) × (Thrown ⊎ Manager Name)
  check_queue (calls, inl why) = (calls, inl (no_segment why))
  check_queue (calls, inr m) = elim m.queue [
    | none ↦ (calls ++ destruct m, inl no_queue)
    | some address ↦ (calls, inr m)
  ]

  -- `Producer::Producer`
  unfoldable pub construct_producer :
      Answers → ℕ → Name → List (Call Name) × (Thrown ⊎ Manager Name)
  unfolding check_queue
  construct_producer answers size name = check_queue (construct answers size name true)

  -- The destructor of a `Producer`, which is that of its manager.
  abbrev pub destroy_producer : Manager Name → List (Call Name)
  destroy_producer m = destruct m

-- `Consumer`, as far as its constructor sets it up beside the strategy and the tracker.
pub record Attached {ℓ} (Name : Type ℓ) : Type ℓ where
  pub manager : Manager Name
  pub consumer_id : ℕ

-- `if (queue_ && consumer_id_ >= 0)` of `Consumer::~Consumer`
leave {ℓ} : {T : Type ℓ} → Option ℕ → ℕ → Queue T → Queue T
leave none i q = q
leave (some address) i q = detach (pos i) q

module _ {ℓ} {Name T : Type ℓ} where
  -- The registration; where it throws, the manager that has been built is destroyed on the way to
  -- a handler.
  register_with :
      Manager Name
      → List (Call Name)
      → Option ℕ × Queue T
      → List (Call Name) × Queue T × (Thrown ⊎ Attached Name)
  register_with m calls (none, q) = (calls ++ destruct m, q, inl slots_full)
  register_with m calls (some i, q) = (calls, q, inr (record { manager = m; consumer_id = i }))

  register_if :
      Queue T
      → List (Call Name) × (Thrown ⊎ Manager Name)
      → List (Call Name) × Queue T × (Thrown ⊎ Attached Name)
  unfolding register_with
  register_if q (calls, inl why) = (calls, q, inl why)
  register_if q (calls, inr m) = register_with m calls (attach q)

  -- `Consumer::Consumer` over the queue that the segment holds.
  unfoldable pub construct_consumer :
      Answers → ℕ → Name → Queue T → List (Call Name) × Queue T × (Thrown ⊎ Attached Name)
  unfolding check_queue register_if
  construct_consumer answers size name q =
      register_if q (check_queue (construct answers size name false))

  -- `Consumer::~Consumer`, and the destructor of its manager after it.
  unfoldable pub destroy_consumer : Attached Name → Queue T → List (Call Name) × Queue T
  unfolding leave
  destroy_consumer c q = (destruct c.manager, leave c.manager.queue c.consumer_id q)
