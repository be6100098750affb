-- ===== src/Refine.antt =====
-- The queue of include/Queue.h against the log with cursors of PubSub: the calls of a client on
-- the queue, and the abstract state that a queue stands for.
pub mod View
pub mod Steps
pub mod Runs
use lock_free_spmc_queue_dis.Common.{
  ℕ, Option, none, some, List, [], ◌∷◌, ◌++◌, Bool, true, false, ltb, if◌then◌else◌,
}
use lock_free_spmc_queue_dis.Queue.{
  Queue, max_consumers, register_consumer, unregister_consumer, publish, consume,
}
use lock_free_spmc_queue_dis.PubSub.{
  PubSub, Op, join, leave, send, receive, Reply, joined, left, sent, received,
}

module _ {ℓ} {T : Type ℓ} where
  unfoldable pub perform : Op T → Queue T → Reply T × Queue T
  perform (join start) q = let (id, q') = register_consumer start q in (joined id, q')
  perform (leave id) q = (left, unregister_consumer id q)
  perform (send item) q = let (ok, q') = publish item q in (sent ok, q')
  perform (receive id) q = let (out, q') = consume id q in (received out, q')

  unfoldable pub run : List (Op T) → Queue T → List (Reply T) × Queue T
  run [] q = ([], q)
  run (op ∷ ops) q =
      let (reply, q') = perform op q in let (replies, q'') = run ops q' in (reply ∷ replies, q'')

  -- The log after a call that returned `reply`.
  abbrev pub grow : Op T → Reply T → List T → List T
  grow (send item) (sent true) log = log ++ item ∷ []
  grow _ _ log = log

  abbrev pub view_cursor : Queue T → ℕ → Option ℕ
  view_cursor q i =
      if ltb i max_consumers
      then (if (q.consumers i).active then some (q.consumers i).sequence else none)
      else none

  -- The abstract state of a queue whose messages so far are `log`.
  abbrev pub view : Queue T → List T → PubSub T
  view q log = record { log = log; cursor = view_cursor q }
