-- ===== src/Consumer/Rounds.antt =====
-- One round of the loops of `run` in include/Consumer.h, by what it meets.
use lock_free_spmc_queue_dis.Common.{ℕ, ◌≡◌, true, false, none, some, List, ◌∷◌, ℤ, arith}
use lock_free_spmc_queue_dis.Queue.{Queue, consume}
use lock_free_spmc_queue_dis.WaitStrategy.{EventFd, wait_for_data, reset}
use lock_free_spmc_queue_dis.Consumer.{
  Shared, Turn, Local, Handler, handle, drain_rest, run_loop, reached,
}

module _ {ℓ} {T H K Double : Type ℓ} (handler : Handler T H) (id : ℤ) where
  pub drain_more :
      (turn : Turn T K) (turns : List (Turn T K)) (s : Shared T K) (l : Local H Double) (m : T)
      (q : Queue T)
      → consume id (turn.before s).queue ≡ (some m, q)
      → drain_rest handler id (turn ∷ turns) s l
        ≡ drain_rest handler id turns
            (record (turn.before s) { queue = q })
            (handle handler m (turn.before s).clock l)
  unfolding drain_rest
  drain_more turn turns s l m q found = ground (arith, found)

  pub drain_done :
      (turn : Turn T K) (turns : List (Turn T K)) (s : Shared T K) (l : Local H Double)
      (q : Queue T)
      → consume id (turn.before s).queue ≡ (none, q)
      → drain_rest handler id (turn ∷ turns) s l ≡ some (record (turn.before s) { queue = q }, l)
  unfolding drain_rest
  drain_done turn turns s l q found = ground (arith, found)

  module _ (os : EventFd K) (max_messages : ℕ) where
    -- The consumer after a message, its strategy reset.
    abbrev pub after_message : T → ℕ → Local H Double → Local H Double
    after_message m now l = record (handle handler m now l) {
      strategy = reset (handle handler m now l).strategy;
    }

    -- What is shared while the consumer waits, and after the turn of the others in that time.
    abbrev pub asleep : Turn T K → Shared T K → Local H Double → Queue T → Shared T K
    asleep turn s l q = record (turn.before s) {
      queue = q;
      kernel = (wait_for_data os l.strategy (turn.before s).kernel).2;
    }

    abbrev pub waited : Turn T K → Shared T K → Local H Double → Local H Double
    waited turn s l = record l { strategy = (wait_for_data os l.strategy (turn.before s).kernel).1 }

    pub loop_done :
        (turn : Turn T K) (turns : List (Turn T K)) (s : Shared T K) (l : Local H Double)
        → reached max_messages l.count ≡ true
        → run_loop os handler id max_messages (turn ∷ turns) s l ≡ some (s, l)
    unfolding run_loop
    loop_done turn turns s l stop = ground (arith, stop)

    pub loop_more :
        (turn : Turn T K) (turns : List (Turn T K)) (s : Shared T K) (l : Local H Double) (m : T)
        (q : Queue T)
        → reached max_messages l.count ≡ false
        → consume id (turn.before s).queue ≡ (some m, q)
        → run_loop os handler id max_messages (turn ∷ turns) s l
          ≡ run_loop os handler id max_messages turns
              (record (turn.before s) { queue = q })
              (after_message m (turn.before s).clock l)
    unfolding run_loop
    loop_more turn turns s l m q go_on found = ground (arith, go_on, found)

    pub loop_drain :
        (turn : Turn T K) (turns : List (Turn T K)) (s : Shared T K) (l : Local H Double)
        (q : Queue T)
        → reached max_messages l.count ≡ false
        → consume id (turn.before s).queue ≡ (none, q)
        → (turn.waiting (asleep turn s l q)).shutdown ≡ true
        → run_loop os handler id max_messages (turn ∷ turns) s l
          ≡ drain_rest handler id turns (turn.waiting (asleep turn s l q)) (waited turn s l)
    unfolding run_loop
    loop_drain turn turns s l q go_on found shut = ground (arith, go_on, found, shut)

    pub loop_wait :
        (turn : Turn T K) (turns : List (Turn T K)) (s : Shared T K) (l : Local H Double)
        (q : Queue T)
        → reached max_messages l.count ≡ false
        → consume id (turn.before s).queue ≡ (none, q)
        → (turn.waiting (asleep turn s l q)).shutdown ≡ false
        → run_loop os handler id max_messages (turn ∷ turns) s l
          ≡ run_loop os handler id max_messages turns
              (turn.waiting (asleep turn s l q))
              (waited turn s l)
    unfolding run_loop
    loop_wait turn turns s l q go_on found shut = ground (arith, go_on, found, shut)
