-- ===== src/Tests/Calls.antt =====
-- Sequences of calls on the queue of include/Queue.h, and the theorems about them.
use lock_free_spmc_queue_dis.Common.{
  ℕ, ◌+◌, ◌-◌, ◌≡◌, ◌↔◌, refl, inl, true, arith, List, [], ◌∷◌, none, some, pos, min,
}
use lock_free_spmc_queue_dis.Queue.{
  Queue, ring_size, slot_index, fresh, register_consumer, claim, publish, consume, valid_id,
  write_slot,
}
use lock_free_spmc_queue_dis.Queue.Inv.{Inv, fresh-Inv}
use lock_free_spmc_queue_dis.Queue.Consume.{position}
use lock_free_spmc_queue_dis.Queue.Append.{HasRoom}
use lock_free_spmc_queue_dis.Queue.Backpressure.{publish-ok_iff, offer, offer-eq-min, Slowest}
use lock_free_spmc_queue_dis.Queue.Drain.{drain, drain_lem, caught_up}
use lock_free_spmc_queue_dis.PubSub.{
  MayJoin, Op, join, send, receive, joined, sent, received, Trace,
}
use lock_free_spmc_queue_dis.Refine.{run, view, perform}
use lock_free_spmc_queue_dis.Refine.Runs.{Disciplined, final_log, run_refines}

abbrev first_join : MayJoin {T = ℕ} (view (fresh 0) []) 1
first_join = record { positive = omega arith; reached = omega arith; reason = inl refl }

-- One consumer joins, two messages are sent, and three are asked for.
abbrev script : List (Op ℕ)
script = join 1 ∷ send 7 ∷ send 8 ∷ receive (pos 0) ∷ receive (pos 0) ∷ receive (pos 0) ∷ []

script_replies :
    (run script (fresh 0)).0
    ≡ joined (some 0)
      ∷ sent true
      ∷ sent true
      ∷ received (some 7)
      ∷ received (some 8)
      ∷ received none
      ∷ []
unfolding run perform fresh register_consumer claim publish write_slot consume slot_index valid_id
script_replies = refl

script-Disciplined : Disciplined script (fresh 0) []
unfolding run perform fresh register_consumer claim publish write_slot consume slot_index valid_id
script-Disciplined = (first_join, (omega arith, (omega arith, (tt, (tt, (tt, tt))))))

run_refines_example :
    Trace
      (view (fresh 0) [])
      script
      (run script (fresh 0)).0
      (view (run script (fresh 0)).1 (final_log script (fresh 0) []))
    × Inv (run script (fresh 0)).1 (final_log script (fresh 0) [])
run_refines_example = run_refines script (fresh-Inv 0) script-Disciplined

abbrev two_sent : List (Op ℕ)
two_sent = join 1 ∷ send 7 ∷ send 8 ∷ []

-- Messages 7 and 8 for a consumer that has read neither.
abbrev pub waiting : Queue ℕ
waiting = (run two_sent (fresh 0)).1

two_sent-Disciplined : Disciplined two_sent (fresh 0) []
unfolding run perform fresh register_consumer claim publish write_slot consume slot_index valid_id
two_sent-Disciplined = (first_join, (omega arith, (omega arith, tt)))

pub waiting-Inv : Inv waiting (7 ∷ 8 ∷ [])
unfolding run perform fresh register_consumer claim publish write_slot consume slot_index valid_id
waiting-Inv = (run_refines two_sent (fresh-Inv 0) two_sent-Disciplined).1

publish-ok_iff_example : ((publish 9 waiting).0 ≡ true) ↔ HasRoom waiting
unfolding run perform fresh register_consumer claim publish write_slot slot_index
publish-ok_iff_example = publish-ok_iff 9 0 waiting-Inv (omega arith) (omega arith) refl

waiting-Slowest : Slowest waiting 0
unfolding run perform fresh register_consumer claim publish write_slot slot_index
waiting-Slowest = (omega arith, refl, λ j h a. ground arith)

offer-eq-min_example :
    (offer (1 ∷ 2 ∷ 3 ∷ []) waiting).0 ≡ min 3 (position waiting 0 + (ring_size - 1) - waiting.next)
unfolding run perform fresh register_consumer claim publish write_slot slot_index
offer-eq-min_example = offer-eq-min (1 ∷ 2 ∷ 3 ∷ []) 0 waiting-Inv waiting-Slowest (omega arith)

drain_lem_example : drain 3 (pos 0) waiting ≡ some (7 ∷ 8 ∷ [], caught_up 0 waiting)
unfolding run perform fresh register_consumer claim publish write_slot slot_index
drain_lem_example = drain_lem 3 0 waiting-Inv (omega arith) refl (omega arith)
