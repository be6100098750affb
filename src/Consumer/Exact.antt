-- ===== src/Consumer/Exact.antt =====
-- `run` of include/Consumer.h with a limit and a shutdown flag that is never set, as src/main.cpp
-- calls it.
use lock_free_spmc_queue_dis.Common.{
  ℕ, ◌<◌, ◌≤◌, ◌≡◌, refl, Bool, true, false, Option, none, some, List, [], ◌∷◌, arith, u64_mod, ℤ,
  ap, ◌∙◌, sym,
}
use lock_free_spmc_queue_dis.Queue.{consume}
use lock_free_spmc_queue_dis.WaitStrategy.{EventFd, wait_for_data, reset}
use lock_free_spmc_queue_dis.Consumer.{
  Shared, Turn, Local, Handler, handle, drain_rest, run_loop, run, reached,
}

abbrev pub Every {ℓ} : {A : Type ℓ} → (A → Type ℓ) → List A → Type ℓ
Every P [] = Unit
Every P (x ∷ xs) = P x × Every P xs

-- The other threads do not set the flag.
abbrev pub KeepsFlag {ℓ} : {T K : Type ℓ} → Turn T K → Type ℓ
KeepsFlag {T = T} {K} turn =
    (s : Shared T K)
    → s.shutdown ≡ false
    → ((turn.before s).shutdown ≡ false) × ((turn.waiting s).shutdown ≡ false)

pub reached_stop :
    (max_messages count : ℕ) → reached max_messages count ≡ true → max_messages ≤ count
unfolding reached
reached_stop m c e = ground arith

pub reached_more :
    (max_messages count : ℕ)
    → 0 < max_messages
    → reached max_messages count ≡ false
    → count < max_messages
unfolding reached
reached_more m c h e = ground arith

module _ {ℓ} {T H K Double : Type ℓ} (os : EventFd K) (handler : Handler T H) (id : ℤ)
    (max_messages : ℕ) (limited : 0 < max_messages) (bounded : max_messages < u64_mod) where
  count_handle :
      (msg : T) (now : ℕ) (l : Local H Double)
      → l.count < max_messages
      → (handle handler msg now l).count ≤ max_messages
  unfolding handle
  count_handle msg now l more = omega (arith, bounded)

  run_loop-exact :
      (turns : List (Turn T K)) (s s' : Shared T K) (l l' : Local H Double)
      → Every KeepsFlag turns
      → s.shutdown ≡ false
      → l.count ≤ max_messages
      → run_loop os handler id max_messages turns s l ≡ some (s', l')
      → l'.count ≡ max_messages
  unfolding run_loop
  run_loop-exact [] s s' l l' keep off le e = cc
  run_loop-exact (turn ∷ turns) s s' l l' (keeps, keep) off le e =
      by_test (λ a b o c f. run_loop-exact turns a s' b l' keep o c f)
        (reached max_messages l.count) refl e
    where
      after : Shared T K
      after = record (turn.before s) { queue = (consume id (turn.before s).queue).1 }

      handled : T → Local H Double
      handled msg =
          let next = handle handler msg after.clock l in
          record next { strategy = reset next.strategy }

      asleep : Shared T K
      asleep = record after { kernel = (wait_for_data os l.strategy after.kernel).2 }

      awake : Shared T K
      awake = turn.waiting asleep

      waited : Local H Double
      waited = record l { strategy = (wait_for_data os l.strategy after.kernel).1 }

      Rest : Type ℓ
      Rest =
          (a : Shared T K) (b : Local H Double)
          → a.shutdown ≡ false
          → b.count ≤ max_messages
          → run_loop os handler id max_messages turns a b ≡ some (s', l')
          → l'.count ≡ max_messages

      one_more : (msg : T) → l.count < max_messages → (handled msg).count ≤ max_messages
      one_more msg more = count_handle msg after.clock l more

      by_flag :
          Rest
          → (shutdown : Bool) → awake.shutdown ≡ shutdown
          → (elim shutdown [
            | true ↦ drain_rest handler id turns awake waited
            | false ↦ run_loop os handler id max_messages turns awake waited
          ])
            ≡ some (s', l')
          → l'.count ≡ max_messages
      by_flag ih true at e =
          let stays : awake.shutdown ≡ false = (keeps asleep (keeps s off).0).1 in cc
      by_flag ih false at e = ih awake waited at le e

      by_message :
          Rest
          → l.count < max_messages
          → (out : Option T)
          → (elim out [
            | some msg ↦ run_loop os handler id max_messages turns after (handled msg)
            | none ↦ elim awake.shutdown [
              | true ↦ drain_rest handler id turns awake waited
              | false ↦ run_loop os handler id max_messages turns awake waited
            ]
          ])
            ≡ some (s', l')
          → l'.count ≡ max_messages
      by_message ih more none e = by_flag ih awake.shutdown refl e
      by_message ih more (some msg) e = ih after (handled msg) (keeps s off).0 (one_more msg more) e

      by_test :
          Rest
          → (stop : Bool) → reached max_messages l.count ≡ stop
          → (elim stop [
            | true ↦ some (s, l)
            | false ↦ elim (consume id (turn.before s).queue).0 [
              | some msg ↦ run_loop os handler id max_messages turns after (handled msg)
              | none ↦ elim awake.shutdown [
                | true ↦ drain_rest handler id turns awake waited
                | false ↦ run_loop os handler id max_messages turns awake waited
              ]
            ]
          ])
            ≡ some (s', l')
          → l'.count ≡ max_messages
      by_test ih true at e =
          let same : l ≡ l' = cc in
          ap (λ x. x.count) (sym same) ∙ omega (arith, reached_stop max_messages l.count at)
      by_test ih false at e =
          by_message ih (reached_more max_messages l.count limited at)
            (consume id (turn.before s).queue).0 e

  pub run_exact :
      (turns : List (Turn T K)) (s s' : Shared T K) (l l' : Local H Double)
      → Every KeepsFlag turns
      → s.shutdown ≡ false
      → run os handler id max_messages turns s l ≡ some (s', l')
      → l'.count ≡ max_messages
  unfolding run
  run_exact turns s s' l l' keep off e =
      run_loop-exact turns s s' (record l { count = 0 }) l' keep off (omega arith) e
