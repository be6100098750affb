-- ===== src/Demo/Results.antt =====
-- The counters of `consumer_thread` in src/demo_single_process.cpp when it returns.
use lock_free_spmc_queue_dis.Common.{
  ℕ, ◌+◌, ◌%◌, ◌≡◌, refl, Bool, true, false, Option, none, some, List, [], ◌∷◌, arith, length,
  u64_mod, ltb, ℤ, subst, add64, ap, ◌∙◌,
}
use lock_free_spmc_queue_dis.Queue.{consume}
use lock_free_spmc_queue_dis.Message.{Message, count_kind, on_message}
use lock_free_spmc_queue_dis.Message.Tally.{on_messages}
use lock_free_spmc_queue_dis.WaitStrategy.{EventFd, wait_for_data}
use lock_free_spmc_queue_dis.Consumer.{Shared, Turn}
use lock_free_spmc_queue_dis.Demo.{
  ConsumerResult, Thread, add_total, add_counted, drain_remaining, thread_loop, consumer_thread,
}

-- From `r` to `r'`: the messages counted by type, and those that were drained without.
pub record Summed {Name : Type 0} (Price : Type 0) (r r' : ConsumerResult Name) : Type 0 where
  pub counted : List (Message Price)
  pub drained : List (Message Price)
  pub by_type : r'.counts ≡ on_messages counted r.counts
  pub in_total : r'.total % u64_mod ≡ (r.total + length counted + length drained) % u64_mod

-- The messages of the drain alone.
pub record Drains {Name : Type 0} (Price : Type 0) (r r' : ConsumerResult Name) : Type 0 where
  pub rest : List (Message Price)
  pub same : r'.counts ≡ r.counts
  pub longer : r'.total % u64_mod ≡ (r.total + length rest) % u64_mod

module _ {Name Price : Type 0} where
  Summed-self : (r : ConsumerResult Name) → Summed Price r r
  Summed-self r = record { counted = []; drained = []; by_type = refl; in_total = omega arith }

  Summed-Drains : (r r' : ConsumerResult Name) → Drains Price r r' → Summed Price r r'
  Summed-Drains r r' d = record {
    counted = [];
    drained = d.rest;
    by_type = d.same;
    in_total = omega (arith, d.longer);
  }

  Summed-counted :
      (m : Message Price) (r r₁ r' : ConsumerResult Name)
      → r₁.counts ≡ count_kind m.kind r.counts
      → r₁.total ≡ add64 r.total 1
      → Summed Price r₁ r'
      → Summed Price r r'
  unfolding on_message
  Summed-counted m r r₁ r' by one d = record {
    counted = m ∷ d.counted;
    drained = d.drained;
    by_type = d.by_type ∙ ap (on_messages d.counted) by;
    in_total = omega (arith, d.in_total, one);
  }

module _ {Name Double Price K : Type 0} (os : EventFd K) (id : ℤ) where
  drain_remaining-Drains :
      (turns : List (Turn (Message Price) K)) (s s' : Shared (Message Price) K)
      (t t' : Thread Name Double)
      → drain_remaining os id turns s t ≡ some (s', t')
      → Drains Price t.result t'.result
  unfolding drain_remaining
  drain_remaining-Drains [] s s' t t' e = cc
  drain_remaining-Drains (turn ∷ turns) s s' t t' e =
      by_message (λ a b f. drain_remaining-Drains turns a s' b t' f)
        (consume id (turn.before s).queue).0 e
    where
      after : Shared (Message Price) K
      after = record (turn.before s) { queue = (consume id (turn.before s).queue).1 }

      stopped : Option (Shared (Message Price) K × Thread Name Double)
      stopped = some (after, t)

      by_message :
          ((a : Shared (Message Price) K) (b : Thread Name Double)
            → drain_remaining os id turns a b ≡ some (s', t')
            → Drains Price b.result t'.result)
          → (out : Option (Message Price))
          → (elim out [
            | none ↦ stopped
            | some msg ↦ drain_remaining os id turns after (add_total msg after.clock t)
          ])
            ≡ some (s', t')
          → Drains Price t.result t'.result
      by_message ih none e =
          let same : t ≡ t' = cc in
          subst (λ x. Drains Price t.result x.result) same
            (record { rest = []; same = refl; longer = omega arith })
      by_message ih (some msg) e =
          let d = ih after (add_total msg after.clock t) e in
          record { rest = msg ∷ d.rest; same = d.same; longer = omega (arith, d.longer) }

  thread_loop-Summed :
      (total_messages : ℕ) (turns : List (Turn (Message Price) K)) (s s' : Shared (Message Price) K)
      (t t' : Thread Name Double)
      → thread_loop os id total_messages turns s t ≡ some (s', t')
      → Summed Price t.result t'.result
  unfolding thread_loop
  thread_loop-Summed total_messages [] s s' t t' e = cc
  thread_loop-Summed total_messages (turn ∷ turns) s s' t t' e =
      by_test (λ a b f. thread_loop-Summed total_messages turns a s' b t' f)
        (ltb t.result.total total_messages) e
    where
      after : Shared (Message Price) K
      after = record (turn.before s) { queue = (consume id (turn.before s).queue).1 }

      stopped : Option (Shared (Message Price) K × Thread Name Double)
      stopped = some (s, t)

      awake : Shared (Message Price) K
      awake = turn.waiting (record after { kernel = (wait_for_data os t.strategy after.kernel).2 })

      waited : Thread Name Double
      waited = record t { strategy = (wait_for_data os t.strategy after.kernel).1 }

      by_message :
          ((a : Shared (Message Price) K) (b : Thread Name Double)
            → thread_loop os id total_messages turns a b ≡ some (s', t')
            → Summed Price b.result t'.result)
          → (out : Option (Message Price))
          → (elim out [
            | some msg ↦
                thread_loop os id total_messages turns after (add_counted msg after.clock t)
            | none ↦ elim awake.shutdown [
              | true ↦ drain_remaining os id turns awake waited
              | false ↦ thread_loop os id total_messages turns awake waited
            ]
          ])
            ≡ some (s', t')
          → Summed Price t.result t'.result
      by_message ih none e = by_flag awake.shutdown e
        where
          by_flag :
              (shutdown : Bool)
              → (elim shutdown [
                | true ↦ drain_remaining os id turns awake waited
                | false ↦ thread_loop os id total_messages turns awake waited
              ])
                ≡ some (s', t')
              → Summed Price t.result t'.result
          by_flag true e =
              Summed-Drains t.result t'.result (drain_remaining-Drains turns awake s' waited t' e)
          by_flag false e = ih awake waited e
      by_message ih (some msg) e =
          Summed-counted msg t.result (add_counted msg after.clock t).result t'.result refl refl
            (ih after (add_counted msg after.clock t) e)

      by_test :
          ((a : Shared (Message Price) K) (b : Thread Name Double)
            → thread_loop os id total_messages turns a b ≡ some (s', t')
            → Summed Price b.result t'.result)
          → (below : Bool)
          → (elim below [
            | false ↦ stopped
            | true ↦ elim (consume id (turn.before s).queue).0 [
              | some msg ↦
                  thread_loop os id total_messages turns after (add_counted msg after.clock t)
              | none ↦ elim awake.shutdown [
                | true ↦ drain_remaining os id turns awake waited
                | false ↦ thread_loop os id total_messages turns awake waited
              ]
            ]
          ])
            ≡ some (s', t')
          → Summed Price t.result t'.result
      by_test ih false e =
          let same : t ≡ t' = cc in
          subst (λ x. Summed Price t.result x.result) same (Summed-self t.result)
      by_test ih true e = by_message ih (consume id (turn.before s).queue).0 e

  -- Whatever other threads do before its rounds and while it waits, when `consumer_thread` returns
  -- there are messages that it counted by type and messages that it drained after shutdown, such
  -- that the counters by type have grown by the first alone and the total, modulo 2 ^ 64, by both.
  pub consumer_thread-Summed :
      (total_messages : ℕ) (name : Name) (turns : List (Turn (Message Price) K))
      (s s' : Shared (Message Price) K) (t t' : Thread Name Double)
      → consumer_thread os id total_messages name turns s t ≡ some (s', t')
      → Summed Price t.result t'.result
  unfolding consumer_thread
  consumer_thread-Summed total_messages name turns s s' t t' e =
      let d =
        thread_loop-Summed total_messages turns s s'
          (record t { result = record (t.result) { strategy_name = name } }) t' e in
      record {
        counted = d.counted;
        drained = d.drained;
        by_type = d.by_type;
        in_total = d.in_total;
      }
