-- ===== src/SharedMemory/Release.antt =====
-- What the system calls of a manager of include/SharedMemoryManager.h leave open: descriptors,
-- mappings, and the name of the segment.
use lock_free_spmc_queue_dis.Common.{
  ℕ, ◌≡◌, Bool, true, false, Option, none, some, List, [], ◌∷◌, ◌++◌, ◌⊎◌, inl, inr, if◌then◌else◌,
  ==_self, ◌==◌, refl, ◌||◌, ◌&&◌, arith,
}
use lock_free_spmc_queue_dis.SharedMemory.{
  Call, shm_open, ftruncate, mmap, eventfd, close, munmap, shm_unlink, Answers, Failure,
  shm_open_failed, Manager, unlink_if, construct, destruct, move,
}
use mathlib.Core.Option.{map as option_map}

-- What the process holds, its mappings with their sizes, and whether the segment has its name.
pub record Held : Type 0 where
  pub fds : List ℕ
  pub maps : List (ℕ × ℕ)
  pub linked : Bool

-- The list without the first `x`; `none` if it has none.
unfoldable pub release : ℕ → List ℕ → Option (List ℕ)
release x [] = none
release x (y ∷ ys) = if x == y then some ys else option_map (λ zs. y ∷ zs) (release x ys)

release_head : (x : ℕ) (xs : List ℕ) → release x (x ∷ xs) ≡ some xs
unfolding release
release_head x xs = rw (==_self x) refl

-- The mappings without the first one at `p` of that size; `none` if there is none.
unfoldable pub release_map : ℕ → ℕ → List (ℕ × ℕ) → Option (List (ℕ × ℕ))
release_map p size [] = none
release_map p size ((q, n) ∷ ms) =
    if (p == q) && (size == n)
    then some ms
    else option_map (λ zs. (q, n) ∷ zs) (release_map p size ms)

release_map_head : (p size : ℕ) (ms : List (ℕ × ℕ)) → release_map p size ((p, size) ∷ ms) ≡ some ms
unfolding release_map
release_map_head p size ms = rw (==_self p, ==_self size) refl

-- What of it is open.
abbrev pub opened : Option Held → Option (List ℕ × List (ℕ × ℕ))
opened = option_map λ h. (h.fds, h.maps)

abbrev pub unlinked_if : Bool → Held → Held
unlinked_if create h = record h { linked = if create then false else h.linked }

module _ {ℓ} {Name : Type ℓ} where
  -- The effect of one call; `none` if it closes or unmaps what is not open. There is one segment,
  -- whose name is not told from another.
  unfoldable pub effect : Call Name → Held → Option Held
  effect (shm_open name create none) h = some h
  effect (shm_open name create (some fd)) h =
      some (record h { fds = fd ∷ h.fds; linked = create || h.linked })
  effect (ftruncate fd size ok) h = some h
  effect (mmap fd size none) h = some h
  effect (mmap fd size (some address)) h = some (record h { maps = (address, size) ∷ h.maps })
  effect (eventfd none) h = some h
  effect (eventfd (some fd)) h = some (record h { fds = fd ∷ h.fds })
  effect (close fd) h = option_map (λ fds. record h { fds = fds }) (release fd h.fds)
  effect (munmap address size) h =
      option_map (λ maps. record h { maps = maps }) (release_map address size h.maps)
  effect (shm_unlink name) h = some (record h { linked = false })

  unfoldable pub replay : List (Call Name) → Held → Option Held
  replay [] h = some h
  replay (call ∷ calls) h = elim (effect call h) [ none ↦ none | some h' ↦ replay calls h' ]

  -- What is held in the end, with the destructor of a manager that was made.
  abbrev pub Releases : Bool → Held → List (Call Name) × (Failure ⊎ Manager Name) → Type 0
  Releases create h (calls, inl shm_open_failed) = replay calls h ≡ some h
  Releases create h (calls, inl _) = replay calls h ≡ some (unlinked_if create h)
  Releases create h (calls, inr m) = replay (calls ++ destruct m) h ≡ some (unlinked_if create h)

  by_answer :
      (opened mapped event : Option ℕ) (sized : Bool) (size : ℕ) (name : Name) (create : Bool)
      (h : Held)
      → Releases create h (
          construct
            (record { shm_open = opened; ftruncate = sized; mmap = mapped; eventfd = event })
            size
            name
            create)
  unfolding construct destruct effect replay unlink_if
  by_answer none mapped event sized size name create h = refl
  by_answer (some fd) none event sized size name false h = ground (arith, release_head fd h.fds)
  by_answer (some fd) none event false size name true h = ground (arith, release_head fd h.fds)
  by_answer (some fd) none event true size name true h = ground (arith, release_head fd h.fds)
  by_answer (some fd) (some p) none false size name true h = ground (arith, release_head fd h.fds)
  by_answer (some fd) (some p) none true size name true h =
      ground (arith, release_head fd h.fds, release_map_head p size h.maps)
  by_answer (some fd) (some p) none sized size name false h =
      ground (arith, release_head fd h.fds, release_map_head p size h.maps)
  by_answer (some fd) (some p) (some e) false size name true h =
      ground (arith, release_head fd h.fds)
  by_answer (some fd) (some p) (some e) true size name true h =
      ground (arith, release_head fd h.fds, release_map_head p size h.maps, release_head e h.fds)
  by_answer (some fd) (some p) (some e) sized size name false h =
      ground (arith, release_head fd h.fds, release_map_head p size h.maps, release_head e h.fds)

  -- The calls act on no segment but the one with the name `n`.
  abbrev pub Names : Name → List (Call Name) → Type ℓ
  Names n [] = Unit
  Names n (shm_open m create result ∷ calls) = (m ≡ n) × Names n calls
  Names n (shm_unlink m ∷ calls) = (m ≡ n) × Names n calls
  Names n (ftruncate fd size ok ∷ calls) = Names n calls
  Names n (mmap fd size result ∷ calls) = Names n calls
  Names n (eventfd result ∷ calls) = Names n calls
  Names n (close fd ∷ calls) = Names n calls
  Names n (munmap address size ∷ calls) = Names n calls

  -- The calls of a constructor, with those of the destructor of a manager that was made.
  abbrev pub all_calls : List (Call Name) × (Failure ⊎ Manager Name) → List (Call Name)
  all_calls (calls, inl why) = calls
  all_calls (calls, inr m) = calls ++ destruct m

  construct-Names :
      (shm mapped event : Option ℕ) (sized : Bool) (size : ℕ) (name : Name) (create : Bool)
      → Names name (
          all_calls (
            construct
              (record { shm_open = shm; ftruncate = sized; mmap = mapped; eventfd = event })
              size
              name
              create))
  unfolding construct destruct unlink_if
  construct-Names none mapped event sized size name create = (refl, tt)
  construct-Names (some fd) none event sized size name false = (refl, tt)
  construct-Names (some fd) none event false size name true = (refl, (refl, tt))
  construct-Names (some fd) none event true size name true = (refl, (refl, tt))
  construct-Names (some fd) (some p) event false size name true = (refl, (refl, tt))
  construct-Names (some fd) (some p) none true size name true = (refl, (refl, tt))
  construct-Names (some fd) (some p) none sized size name false = (refl, tt)
  construct-Names (some fd) (some p) (some e) true size name true = (refl, (refl, tt))
  construct-Names (some fd) (some p) (some e) sized size name false = (refl, tt)

  -- Whatever each system call of the constructor answers, a constructor that throws leaves no
  -- descriptor and no mapping open, and one that returns leaves what its destructor releases, each
  -- closed or unmapped exactly where it was open; and a creator's segment has lost its name in
  -- either case, except where the segment could not be opened; a mapping is unmapped with the size
  -- it was made with, and no call names another segment.
  pub construct-Releases :
      (answers : Answers) (size : ℕ) (name : Name) (create : Bool) (h : Held)
      → Releases create h (construct answers size name create)
        × Names name (all_calls (construct answers size name create))
  construct-Releases answers size name create h = (
    by_answer answers.shm_open answers.mmap answers.eventfd answers.ftruncate size name create h,
    construct-Names answers.shm_open answers.mmap answers.eventfd answers.ftruncate size name
        create,
  )

  -- What is open after the constructor and the destructors of both managers of a move, the old one
  -- destroyed first or last.
  abbrev pub MovedReleases : Name → Held → List (Call Name) × (Failure ⊎ Manager Name) → Type 0
  MovedReleases left h (calls, inl why) = Unit
  MovedReleases left h (calls, inr m) =
      (opened (replay (calls ++ destruct (move left m).1 ++ destruct (move left m).0) h)
        ≡ some (h.fds, h.maps))
      × (opened (replay (calls ++ destruct (move left m).0 ++ destruct (move left m).1) h)
          ≡ some (h.fds, h.maps))

  moved_by_answer :
      (shm mapped event : Option ℕ) (sized : Bool) (size : ℕ) (name left : Name) (create : Bool)
      (h : Held)
      → MovedReleases left h (
          construct
            (record { shm_open = shm; ftruncate = sized; mmap = mapped; eventfd = event })
            size
            name
            create)
  unfolding construct destruct move effect replay unlink_if
  moved_by_answer none mapped event sized size name left create h = tt
  moved_by_answer (some fd) none event sized size name left false h = tt
  moved_by_answer (some fd) none event false size name left true h = tt
  moved_by_answer (some fd) none event true size name left true h = tt
  moved_by_answer (some fd) (some p) none false size name left true h = tt
  moved_by_answer (some fd) (some p) none true size name left true h = tt
  moved_by_answer (some fd) (some p) none sized size name left false h = tt
  moved_by_answer (some fd) (some p) (some e) false size name left true h = tt
  moved_by_answer (some fd) (some p) (some e) true size name left true h =
      ground (arith, release_head fd h.fds, release_map_head p size h.maps, release_head e h.fds)
  moved_by_answer (some fd) (some p) (some e) sized size name left false h =
      ground (arith, release_head fd h.fds, release_map_head p size h.maps, release_head e h.fds)

  -- Whatever each system call of the constructor answers, if it returns a manager and that manager
  -- is moved, whatever string the move leaves as the old one's name, then the destructors of the
  -- old and the new manager, in either order, close and unmap only what is open, and together leave
  -- the descriptors and mappings that were there before the constructor.
  pub construct-move-Releases :
      (answers : Answers) (size : ℕ) (name left : Name) (create : Bool) (h : Held)
      → MovedReleases left h (construct answers size name create)
  construct-move-Releases answers size name left create h =
      moved_by_answer answers.shm_open answers.mmap answers.eventfd answers.ftruncate size name left
        create h
