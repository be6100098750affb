-- ===== src/SharedMemory.antt =====
-- include/SharedMemoryManager.h: the system calls that the manager makes on every path, as a list,
-- and what they leave open.
pub mod Release
use lock_free_spmc_queue_dis.Common.{
  ℕ, ◌≡◌, Bool, true, false, Option, none, some, List, [], ◌∷◌, ◌++◌, ◌⊎◌, inl, inr, if◌then◌else◌,
}

-- A system call with what it returned; `ftruncate`, `close`, `munmap` and `shm_unlink` are given
-- what they act on.
pub data Call {ℓ} (Name : Type ℓ) : Type ℓ where
  shm_open : (name : Name) (create : Bool) (result : Option ℕ) → Call Name
  ftruncate : (fd size : ℕ) (ok : Bool) → Call Name
  mmap : (fd size : ℕ) (result : Option ℕ) → Call Name
  eventfd : (result : Option ℕ) → Call Name
  close : (fd : ℕ) → Call Name
  munmap : (address size : ℕ) → Call Name
  shm_unlink : (name : Name) → Call Name

-- What the kernel answers in a run of the constructor, `none` and `false` for its failures.
pub record Answers : Type 0 where
  pub shm_open : Option ℕ
  pub ftruncate : Bool
  pub mmap : Option ℕ
  pub eventfd : Option ℕ

-- Where the constructor throws.
pub data Failure : Type 0 where
  shm_open_failed : Failure
  ftruncate_failed : Failure
  mmap_failed : Failure
  eventfd_failed : Failure

-- `SharedMemoryManager`; none stands for -1 in a descriptor and for a null pointer. `constructed`
-- says that the queue was built in place by this manager.
pub record Manager {ℓ} (Name : Type ℓ) : Type ℓ where
  pub name : Name
  pub is_owner : Bool
  pub shm_fd : Option ℕ
  pub mapped_ptr : Option ℕ
  pub size : ℕ
  pub queue : Option ℕ
  pub constructed : Bool
  pub event_fd : Option ℕ

module _ {ℓ} {Name : Type ℓ} where
  -- `if (create) shm_unlink(name)`
  unlink_if : Bool → Name → List (Call Name)
  unlink_if create name = if create then shm_unlink name ∷ [] else []

  -- Step 6, with the calls made before it.
  open_event :
      Answers → Name → Bool → ℕ → ℕ → List (Call Name) → List (Call Name) × (Failure ⊎ Manager Name)
  unfolding unlink_if
  open_event answers name create size address calls = elim answers.eventfd [
    | none ↦
        (calls ++ eventfd none ∷ munmap address size ∷ unlink_if create name, inl eventfd_failed)
    | some event_fd ↦ (
      calls ++ eventfd (some event_fd) ∷ [],
      inr (record {
        name = name;
        is_owner = create;
        shm_fd = none;
        mapped_ptr = some address;
        size = size;
        queue = some address;
        constructed = create;
        event_fd = some event_fd;
      }),
    )
  ]

  -- Steps 3 to 6.
  map_memory :
      Answers → Name → Bool → ℕ → ℕ → List (Call Name) → List (Call Name) × (Failure ⊎ Manager Name)
  unfolding unlink_if open_event
  map_memory answers name create size fd calls = elim answers.mmap [
    | none ↦ (calls ++ mmap fd size none ∷ close fd ∷ unlink_if create name, inl mmap_failed)
    | some address ↦
        open_event answers name create size address
          (calls ++ mmap fd size (some address) ∷ close fd ∷ [])
  ]

  -- Steps 2 to 6.
  set_size :
      Answers → Name → Bool → ℕ → ℕ → List (Call Name) → List (Call Name) × (Failure ⊎ Manager Name)
  unfolding map_memory
  set_size answers name false size fd calls = map_memory answers name false size fd calls
  set_size answers name true size fd calls =
      if answers.ftruncate
      then map_memory answers name true size fd (calls ++ ftruncate fd size true ∷ [])
      else (
        calls ++ ftruncate fd size false ∷ close fd ∷ shm_unlink name ∷ [],
        inl ftruncate_failed,
      )

  -- The constructor; `size` is `sizeof(LockFreePubSubQueue<T>)`.
  unfoldable pub construct : Answers → ℕ → Name → Bool → List (Call Name) × (Failure ⊎ Manager Name)
  unfolding set_size
  construct answers size name create = elim answers.shm_open [
    | none ↦ (shm_open name create none ∷ [], inl shm_open_failed)
    | some fd ↦ set_size answers name create size fd (shm_open name create (some fd) ∷ [])
  ]

  close_event : Option ℕ → List (Call Name)
  close_event none = []
  close_event (some fd) = close fd ∷ []

  unmap : Option ℕ → ℕ → List (Call Name)
  unmap none size = []
  unmap (some address) size = munmap address size ∷ []

  -- The destructor.
  unfoldable pub destruct : Manager Name → List (Call Name)
  unfolding close_event unmap unlink_if
  destruct m = close_event m.event_fd ++ unmap m.mapped_ptr m.size ++ unlink_if m.is_owner m.name

  -- The move constructor: the new manager, and what is left of the old one. `left` is the name that
  -- `std::move` leaves in the old string, which C++ does not say.
  unfoldable pub move : Name → Manager Name → Manager Name × Manager Name
  move left m =
      (m, record m { name = left; mapped_ptr = none; queue = none; event_fd = none; shm_fd = none })

  -- `unlink`
  unfoldable pub unlink : Name → List (Call Name)
  unlink name = shm_unlink name ∷ []
