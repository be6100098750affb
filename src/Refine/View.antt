-- ===== src/Refine/View.antt =====
-- How a change of the queue of include/Queue.h shows in the abstract state that it stands for.
use lock_free_spmc_queue_dis.Common.{
  ℕ, ◌+◌, ◌<◌, ◌≤◌, ◌≡◌, refl, ap, fun_ext, true, none, some, List, [], ◌∷◌, ◌++◌, arith, update,
}
use lock_free_spmc_queue_dis.Queue.{Queue, max_consumers, write_slot}
use lock_free_spmc_queue_dis.Queue.Consume.{position, advance}
use lock_free_spmc_queue_dis.Queue.Append.{appended}
use lock_free_spmc_queue_dis.Queue.Register.{enrolled, retired}
use lock_free_spmc_queue_dis.PubSub.{Joined}
use lock_free_spmc_queue_dis.Refine.{view_cursor, view}

module _ {ℓ} {T : Type ℓ} where
  -- An active consumer has joined, at its position; no other has.
  pub Joined-iff :
      (q : Queue T) (log : List T) (i c : ℕ)
      → Joined (view q log) i c
      → (i < max_consumers) × ((q.consumers i).active ≡ true) × (position q i ≡ c)
  Joined-iff q log i c e = ground arith

  pub Joined-of_active :
      (q : Queue T) (log : List T) (i : ℕ)
      → i < max_consumers
      → (q.consumers i).active ≡ true
      → Joined (view q log) i (position q i)
  Joined-of_active q log i h a = ground arith

  pub view-advance :
      (q : Queue T) (log : List T) (i : ℕ)
      → i < max_consumers
      → (q.consumers i).active ≡ true
      → view (advance i q) log
        ≡ record (view q log) { cursor = update (view_cursor q) i (some (position q i + 1)) }
  view-advance q log i h a = ap (λ f. record { log = log; cursor = f }) (fun_ext λ j. ground arith)

  pub view-enrolled :
      (q : Queue T) (log : List T) (i start : ℕ)
      → i < max_consumers
      → view (enrolled i start q) log
        ≡ record (view q log) { cursor = update (view_cursor q) i (some start) }
  view-enrolled q log i start h =
      ap (λ f. record { log = log; cursor = f }) (fun_ext λ j. ground arith)

  pub view-retired :
      (q : Queue T) (log : List T) (i : ℕ)
      → view (retired i q) log ≡ record (view q log) { cursor = update (view_cursor q) i none }
  view-retired q log i = ap (λ f. record { log = log; cursor = f }) (fun_ext λ j. ground arith)

  pub view_out_of_range :
      (q : Queue T) (log : List T) (i : ℕ)
      → max_consumers ≤ i
      → view q log ≡ record (view q log) { cursor = update (view_cursor q) i none }
  view_out_of_range q log i h =
      ap (λ f. record { log = log; cursor = f }) (fun_ext λ j. ground arith)

  pub view-appended :
      (q : Queue T) (log : List T) (item : T) (c : ℕ)
      → view (appended item c q) (log ++ item ∷ []) ≡ record (view q log) { log = log ++ item ∷ [] }
  unfolding write_slot
  view-appended q log item c = refl
