-- ===== src/Refine/Runs.antt =====
-- Sequences of calls on the queue of include/Queue.h against traces of the log with cursors.
use lock_free_spmc_queue_dis.Common.{List, [], ◌∷◌}
use lock_free_spmc_queue_dis.Queue.{Queue}
use lock_free_spmc_queue_dis.Queue.Inv.{max_messages, Inv}
use lock_free_spmc_queue_dis.PubSub.{Op, join, leave, send, receive, Allowed, Trace, done, more}
use lock_free_spmc_queue_dis.Refine.{perform, run, grow, view}
use lock_free_spmc_queue_dis.Refine.Steps.{
  Refines, receive-Refines, send-Refines, join-Refines, leave-Refines,
}

module _ {ℓ} {T : Type ℓ} where
  -- Every call is allowed in the state in which it is made.
  abbrev pub Disciplined : List (Op T) → Queue T → List T → Type 0
  Disciplined [] q log = Unit
  Disciplined (op ∷ ops) q log =
      Allowed (view q log) max_messages op
      × Disciplined ops (perform op q).1 (grow op (perform op q).0 log)

  -- The messages accepted by the end of the calls.
  abbrev pub final_log : List (Op T) → Queue T → List T → List T
  final_log [] q log = log
  final_log (op ∷ ops) q log = final_log ops (perform op q).1 (grow op (perform op q).0 log)

  pub perform-Refines :
      (op : Op T) {q : Queue T} {log : List T}
      → Inv q log
      → Allowed (view q log) max_messages op
      → Refines q log op (perform op q).0 (perform op q).1
  unfolding perform
  perform-Refines (join start) inv may = join-Refines inv start may
  perform-Refines (leave id) inv may = leave-Refines inv id
  perform-Refines (send item) inv may = send-Refines inv item may
  perform-Refines (receive id) inv may = receive-Refines inv id

  -- Any sequence of registrations, unregistrations, publishes and consumes on a queue that keeps
  -- the invariant, each call allowed where it is made, has the replies of a trace of the log with
  -- cursors, ends in a queue that stands for the last state of that trace, and keeps the invariant.
  pub run_refines :
      (ops : List (Op T)) {q : Queue T} {log : List T}
      → Inv q log
      → Disciplined ops q log
      → Trace (view q log) ops (run ops q).0 (view (run ops q).1 (final_log ops q log))
        × Inv (run ops q).1 (final_log ops q log)
  unfolding run
  run_refines [] inv ok = (done, inv)
  run_refines (op ∷ ops) inv ok =
      let r = perform-Refines op inv ok.0 in
      let (trace, inv') = run_refines ops r.keeps ok.1 in (more r.step trace, inv')
