-- ===== src/Main/Modes/Leftover.antt =====
-- What the system calls of a mode of src/main.cpp leave open.
use lock_free_spmc_queue_dis.Common.{
  ℕ, ◌≡◌, ◌⊎◌, inl, inr, refl, Bool, true, false, Option, none, some, List, [], ◌∷◌, ◌++◌,
  if◌then◌else◌,
}
use lock_free_spmc_queue_dis.WaitStrategy.{busy_spin, new_yielding}
use lock_free_spmc_queue_dis.SharedMemory.{Call, eventfd}
use lock_free_spmc_queue_dis.SharedMemory.Release.{Held, replay, effect, unlinked_if}
use lock_free_spmc_queue_dis.Main.{Bytes, eq_bytes}
use lock_free_spmc_queue_dis.Main.Modes.{
  Outcome, no_eventfd, threw, running, finished, yield_name, block_name, choose_strategy,
  blocking_on,
}

-- The calls that may come before those of a constructor.
pub data Prefix {ℓ} (Name : Type ℓ) (event : Option ℕ) : List (Call Name) → Type ℓ where
  nothing : Prefix Name event []
  failed : Prefix Name event (eventfd none ∷ [])
  opened : (efd : ℕ) → event ≡ some efd → Prefix Name event (eventfd (some efd) ∷ [])

-- No mapping is left, and no descriptor but the mode's own eventfd, which nothing closes.
pub record Leaves {ℓ} {Name : Type ℓ} (event : Option ℕ) (h : Held) (calls : List (Call Name))
    : Type 0 where
  pub after : Held
  pub replayed : replay calls h ≡ some after
  pub maps : after.maps ≡ h.maps
  pub fds : (after.fds ≡ h.fds) ⊎ ((efd : ℕ) × (event ≡ some efd) × (after.fds ≡ efd ∷ h.fds))

-- The calls may take the segment's name away, and leave the rest as it was.
pub record Kept {ℓ} {Name : Type ℓ} (h : Held) (calls : List (Call Name)) : Type 0 where
  pub after : Held
  pub replayed : replay calls h ≡ some after
  pub maps : after.maps ≡ h.maps
  pub fds : after.fds ≡ h.fds

-- `P`, unless the mode is still running.
abbrev pub Ends {ℓ ℓ'} : {R : Type ℓ} → Outcome R → Type ℓ' → Type ℓ'
Ends running P = Unit
Ends no_eventfd P = P
Ends (threw why) P = P
Ends (finished result) P = P

pub Ends-map : {R P Q : Type 0} (o : Outcome R) → (P → Q) → Ends o P → Ends o Q
Ends-map running f p = tt
Ends-map no_eventfd f p = f p
Ends-map (threw why) f p = f p
Ends-map (finished result) f p = f p

module _ {Name : Type 0} where
  pub choose_strategy-Prefix :
      (name : Bytes) (event : Option ℕ) → Prefix Name event (choose_strategy name event).0
  unfolding choose_strategy blocking_on
  choose_strategy-Prefix name event =
      by_name (eq_bytes name yield_name) (eq_bytes name block_name) event
    where
      by_name :
          (yields blocks : Bool) (e : Option ℕ)
          → Prefix Name e
              (if yields
                then ([], some (new_yielding 1000))
                else if blocks
                then blocking_on e
                else ([], some busy_spin)).0
      by_name true blocks e = nothing
      by_name false true none = failed
      by_name false true (some efd) = opened efd refl
      by_name false false e = nothing

  pub after_prefix :
      {event : Option ℕ} {first : List (Call Name)} (calls : List (Call Name)) (h : Held)
      → Prefix Name event first
      → ((g : Held) → Kept g calls)
      → Leaves event h (first ++ calls)
  unfolding replay effect
  after_prefix calls h nothing keeps =
      let k = keeps h in
      record { after = k.after; replayed = k.replayed; maps = k.maps; fds = inl k.fds }
  after_prefix calls h failed keeps =
      let k = keeps h in
      record { after = k.after; replayed = k.replayed; maps = k.maps; fds = inl k.fds }
  after_prefix calls h (opened efd e) keeps =
      let k = keeps (record h { fds = efd ∷ h.fds }) in
      record { after = k.after; replayed = k.replayed; maps = k.maps; fds = inr (efd, e, k.fds) }

  pub Kept-same : (g : Held) (calls : List (Call Name)) → replay calls g ≡ some g → Kept g calls
  Kept-same g calls e = record { after = g; replayed = e; maps = refl; fds = refl }

  pub Kept-unlinked :
      (g : Held) (calls : List (Call Name))
      → replay calls g ≡ some (unlinked_if true g)
      → Kept g calls
  Kept-unlinked g calls e = record {
    after = unlinked_if true g;
    replayed = e;
    maps = refl;
    fds = refl;
  }

-- On whatever is held before, the calls leave that.
abbrev pub Restores {ℓ} : {Name S R : Type ℓ} → List (Call Name) × S × Outcome R → Type 0
Restores (calls, s, outcome) = Ends outcome ((g : Held) → Kept g calls)
