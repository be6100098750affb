-- ===== src/Consumer/Account.antt =====
-- What `run` of include/Consumer.h has done when it returns, with other threads at work.
use lock_free_spmc_queue_dis.Common.{
  ℕ, ◌+◌, ◌%◌, ◌≡◌, refl, true, false, Option, none, some, List, [], ◌∷◌, arith, length, u64_mod, ℤ,
  sub64, subst, Bool,
}
use lock_free_spmc_queue_dis.Queue.{consume}
use lock_free_spmc_queue_dis.WaitStrategy.{EventFd, WaitStrategy, wait_for_data, reset}
use lock_free_spmc_queue_dis.Latency.Recording.{record_all}
use lock_free_spmc_queue_dis.Consumer.{
  Shared, Turn, Local, Handler, handle, drain_rest, run_loop, run, reached,
}

-- `onMessage` for each message in turn.
abbrev pub handle_all {ℓ} : {T H : Type ℓ} → Handler T H → List T → H → H
handle_all handler [] h = h
handle_all handler (m ∷ ms) h = handle_all handler ms (handler.on_message m h)

module _ {ℓ} {T H Double : Type ℓ} (handler : Handler T H) where
  -- From `l` to `l'` some messages were handled, each with one latency recorded and counted once.
  pub record Accounted (l l' : Local H Double) : Type ℓ where
    pub messages : List T
    pub latencies : List ℕ
    pub handled : l'.handled ≡ handle_all handler messages l.handled
    pub recorded : l'.tracker ≡ record_all latencies l.tracker
    pub one_each : length latencies ≡ length messages
    pub counted : l'.count % u64_mod ≡ (l.count + length messages) % u64_mod

  Accounted-self : (l : Local H Double) → Accounted l l
  unfolding record_all
  Accounted-self l = record {
    messages = [];
    latencies = [];
    handled = refl;
    recorded = refl;
    one_each = refl;
    counted = omega arith;
  }

  Accounted-handle :
      (m : T) (now : ℕ) (l l' : Local H Double)
      → Accounted (handle handler m now l) l'
      → Accounted l l'
  unfolding handle record_all
  Accounted-handle m now l l' a = record {
    messages = m ∷ a.messages;
    latencies = sub64 now (handler.timestamp_ns m) ∷ a.latencies;
    handled = a.handled;
    recorded = a.recorded;
    one_each = omega (arith, a.one_each);
    counted = omega (arith, a.counted);
  }

  Accounted-strategy :
      (w : WaitStrategy) (l l' : Local H Double)
      → Accounted (record l { strategy = w }) l'
      → Accounted l l'
  Accounted-strategy w l l' a = record {
    messages = a.messages;
    latencies = a.latencies;
    handled = a.handled;
    recorded = a.recorded;
    one_each = a.one_each;
    counted = a.counted;
  }

  module _ {K : Type ℓ} (id : ℤ) where
    drain_rest-Accounted :
        (turns : List (Turn T K)) (s s' : Shared T K) (l l' : Local H Double)
        → drain_rest handler id turns s l ≡ some (s', l')
        → Accounted l l'
    unfolding drain_rest
    drain_rest-Accounted [] s s' l l' e = cc
    drain_rest-Accounted (turn ∷ turns) s s' l l' e =
        by_message (λ a b f. drain_rest-Accounted turns a s' b l' f)
          (consume id (turn.before s).queue).0 e
      where
        after : Shared T K
        after = record (turn.before s) { queue = (consume id (turn.before s).queue).1 }

        stopped : Option (Shared T K × Local H Double)
        stopped = some (after, l)

        by_message :
            ((a : Shared T K) (b : Local H Double)
              → drain_rest handler id turns a b ≡ some (s', l')
              → Accounted b l')
            → (out : Option T)
            → (elim out [
              | none ↦ stopped
              | some msg ↦ drain_rest handler id turns after (handle handler msg after.clock l)
            ])
              ≡ some (s', l')
            → Accounted l l'
        by_message ih none e = let same : l ≡ l' = cc in subst (Accounted l) same (Accounted-self l)
        by_message ih (some msg) e =
            Accounted-handle msg after.clock l l' (ih after (handle handler msg after.clock l) e)

  module _ {K : Type ℓ} (os : EventFd K) (id : ℤ) (max_messages : ℕ) where
    run_loop-Accounted :
        (turns : List (Turn T K)) (s s' : Shared T K) (l l' : Local H Double)
        → run_loop os handler id max_messages turns s l ≡ some (s', l')
        → Accounted l l'
    unfolding run_loop
    run_loop-Accounted [] s s' l l' e = cc
    run_loop-Accounted (turn ∷ turns) s s' l l' e =
        by_test (λ a b f. run_loop-Accounted turns a s' b l' f) (reached max_messages l.count) e
      where
        after : Shared T K
        after = record (turn.before s) { queue = (consume id (turn.before s).queue).1 }

        handled : T → Local H Double
        handled msg =
            let next = handle handler msg after.clock l in
            record next { strategy = reset next.strategy }

        awake : Shared T K
        awake =
            turn.waiting (record after { kernel = (wait_for_data os l.strategy after.kernel).2 })

        waited : Local H Double
        waited = record l { strategy = (wait_for_data os l.strategy after.kernel).1 }

        by_flag :
            ((a : Shared T K) (b : Local H Double)
              → run_loop os handler id max_messages turns a b ≡ some (s', l')
              → Accounted b l')
            → (shutdown : Bool)
            → (elim shutdown [
              | true ↦ drain_rest handler id turns awake waited
              | false ↦ run_loop os handler id max_messages turns awake waited
            ])
              ≡ some (s', l')
            → Accounted l l'
        by_flag ih true e =
            Accounted-strategy waited.strategy l l'
              (drain_rest-Accounted id turns awake s' waited l' e)
        by_flag ih false e = Accounted-strategy waited.strategy l l' (ih awake waited e)

        by_message :
            ((a : Shared T K) (b : Local H Double)
              → run_loop os handler id max_messages turns a b ≡ some (s', l')
              → Accounted b l')
            → (out : Option T)
            → (elim out [
              | some msg ↦ run_loop os handler id max_messages turns after (handled msg)
              | none ↦ elim awake.shutdown [
                | true ↦ drain_rest handler id turns awake waited
                | false ↦ run_loop os handler id max_messages turns awake waited
              ]
            ])
              ≡ some (s', l')
            → Accounted l l'
        by_message ih none e = by_flag ih awake.shutdown e
        by_message ih (some msg) e = Accounted-handle msg after.clock l l' (
            Accounted-strategy (handled msg).strategy (handle handler msg after.clock l) l'
              (ih after (handled msg) e))

        by_test :
            ((a : Shared T K) (b : Local H Double)
              → run_loop os handler id max_messages turns a b ≡ some (s', l')
              → Accounted b l')
            → (stop : Bool)
            → (elim stop [
              | true ↦ some (s, l)
              | false ↦ elim (consume id (turn.before s).queue).0 [
                | some msg ↦ run_loop os handler id max_messages turns after (handled msg)
                | none ↦ elim awake.shutdown [
                  | true ↦ drain_rest handler id turns awake waited
                  | false ↦ run_loop os handler id max_messages turns awake waited
                ]
              ]
            ])
              ≡ some (s', l')
            → Accounted l l'
        by_test ih true e = let same : l ≡ l' = cc in subst (Accounted l) same (Accounted-self l)
        by_test ih false e = by_message ih (consume id (turn.before s).queue).0 e

    -- Whatever other threads do before its rounds and while it waits, when `run` returns there is
    -- one sequence of messages that were passed to `onMessage`, in that order, with one latency for
    -- each offered to the tracker, and the count is their number modulo 2 ^ 64.
    pub run-Accounted :
        (turns : List (Turn T K)) (s s' : Shared T K) (l l' : Local H Double)
        → run os handler id max_messages turns s l ≡ some (s', l')
        → Accounted (record l { count = 0 }) l'
    unfolding run
    run-Accounted turns s s' l l' e = run_loop-Accounted turns s s' (record l { count = 0 }) l' e
