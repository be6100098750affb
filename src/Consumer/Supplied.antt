-- ===== src/Consumer/Supplied.antt =====
-- `run` of include/Consumer.h with a limit while the producer keeps pace.
use lock_free_spmc_queue_dis.Common.{
  ℕ, ◌+◌, ◌-◌, ◌<◌, ◌≤◌, ◌≡◌, Option, some, List, [], ◌∷◌, arith, length, u64_mod, ℤ, ◌∙◌,
  Bool-cases, inl, inr,
}
use lock_free_spmc_queue_dis.Queue.{consume}
use lock_free_spmc_queue_dis.WaitStrategy.{EventFd, reset}
use lock_free_spmc_queue_dis.Consumer.{Shared, Turn, Local, Handler, handle, run_loop, run, reached}
use lock_free_spmc_queue_dis.Consumer.Rounds.{loop_done, loop_more}
use lock_free_spmc_queue_dis.Consumer.Exact.{Every, reached_stop, reached_more}

-- Before its round there is a message for the consumer, whatever else `P` says of what is shared.
abbrev pub Supplies {ℓ} : {T K : Type ℓ} → (Shared T K → Type ℓ) → ℤ → Turn T K → Type ℓ
Supplies {T = T} {K} P id turn =
    (s : Shared T K)
    → P s
    → (msg : T) × ((consume id (turn.before s).queue).0 ≡ some msg)
      × P (record (turn.before s) { queue = (consume id (turn.before s).queue).1 })

module _ {ℓ} {T H K Double : Type ℓ} (os : EventFd K) (handler : Handler T H) (id : ℤ)
    (max_messages : ℕ) (limited : 0 < max_messages) (bounded : max_messages < u64_mod) where
  -- A run that returns with the limit reached.
  pub record Finishes (P : Shared T K → Type ℓ) (r : Option (Shared T K × Local H Double))
      : Type ℓ where
    pub shared : Shared T K
    pub own : Local H Double
    pub returns : r ≡ some (shared, own)
    pub exact : own.count ≡ max_messages
    pub still : P shared

  count_next :
      (msg : T) (now : ℕ) (l : Local H Double)
      → l.count < max_messages
      → (handle handler msg now l).count ≡ l.count + 1
  unfolding handle
  count_next msg now l more = omega (arith, bounded)

  run_loop-Finishes :
      (P : Shared T K → Type ℓ) (turns : List (Turn T K)) (s : Shared T K) (l : Local H Double)
      → Every (Supplies P id) turns
      → P s
      → l.count ≤ max_messages
      → max_messages - l.count < length turns
      → Finishes P (run_loop os handler id max_messages turns s l)
  run_loop-Finishes P [] s l every p le enough = absurd (omega arith)
  run_loop-Finishes P (turn ∷ turns) s l (supplies, every) p le enough =
      elim (Bool-cases (reached max_messages l.count)) [
        | inl stop ↦ record {
          shared = s;
          own = l;
          returns = loop_done handler id os max_messages turn turns s l stop;
          exact = omega (arith, reached_stop max_messages l.count stop);
          still = p;
        }
        | inr go_on ↦
            let (msg, found, p') = supplies s p in
            let more = reached_more max_messages l.count limited go_on in
            let one = count_next msg (turn.before s).clock l more in
            let rest =
              run_loop-Finishes P turns _
                (record (handle handler msg (turn.before s).clock l) {
                  strategy = reset (handle handler msg (turn.before s).clock l).strategy;
                })
                every p' (omega (arith, one)) (omega (arith, one)) in
            record {
              shared = rest.shared;
              own = rest.own;
              returns =
                  loop_more handler id os max_messages turn turns s l msg _ go_on
                    (λ j. (found j, (consume id (turn.before s).queue).1))
                  ∙ rest.returns;
              exact = rest.exact;
              still = rest.still;
            }
      ]

  -- If before every round there is a message for the consumer, by a property of the shared state
  -- that each round keeps, then a `run` with a limit above 0 returns within one round more than the
  -- limit, and has counted exactly the limit.
  pub run-Finishes :
      (P : Shared T K → Type ℓ) (turns : List (Turn T K)) (s : Shared T K) (l : Local H Double)
      → Every (Supplies P id) turns
      → P s
      → max_messages < length turns
      → Finishes P (run os handler id max_messages turns s l)
  unfolding run
  run-Finishes P turns s l every p enough =
      run_loop-Finishes P turns s (record l { count = 0 }) every p (omega arith) (omega arith)
