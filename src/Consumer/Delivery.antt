-- ===== src/Consumer/Delivery.antt =====
-- `run` of include/Consumer.h against the log of the queue, round by round.
use lock_free_spmc_queue_dis.Common.{
  ℕ, ◌<◌, ◌≡◌, ◌∙◌, sym, subst, true, Option, some, List, [], ◌∷◌, ◌++◌, pos, Bool-cases, inl, inr,
}
use lock_free_spmc_queue_dis.Queue.{Queue, max_consumers}
use lock_free_spmc_queue_dis.Queue.Inv.{Inv}
use lock_free_spmc_queue_dis.Queue.Consume.{advance}
use lock_free_spmc_queue_dis.WaitStrategy.{EventFd}
use lock_free_spmc_queue_dis.Consumer.{
  Shared, Turn, Local, Handler, handle, drain_rest, run_loop, run, reached,
}
use lock_free_spmc_queue_dis.Consumer.Exact.{Every}
use lock_free_spmc_queue_dis.Consumer.Rounds.{
  drain_more, drain_done, loop_done, loop_more, loop_drain, loop_wait, asleep,
}
use lock_free_spmc_queue_dis.Consumer.InOrder.{
  TurnExtends, InOrder, InOrder-self, InOrder-turn, InOrder-consume,
}

module _ {ℓ} {T H K Double : Type ℓ} (handler : Handler T H) (i : ℕ) (hi : i < max_consumers) where
  InOrder-stop :
      (s s' : Shared T K) (l l' : Local H Double) (log : List T)
      → Inv s.queue log
      → (s.queue.consumers i).active ≡ true
      → ◌≡◌ {A = Option (Shared T K × Local H Double)} (some (s, l)) (some (s', l'))
      → InOrder handler i s.queue log l.handled s'.queue l'.handled
  InOrder-stop s s' l l' log inv a e =
      let last : s ≡ s' = cc in
      let own : l ≡ l' = cc in
      subst (λ x. InOrder handler i s.queue log l.handled x.queue l'.handled) last
        (subst (λ x. InOrder handler i s.queue log l.handled s.queue x.handled) own
          (InOrder-self handler i s.queue log l.handled inv hi a))

  drain_rest-InOrder :
      (turns : List (Turn T K)) (s s' : Shared T K) (l l' : Local H Double) (log : List T)
      → Every (TurnExtends i) turns
      → Inv s.queue log
      → (s.queue.consumers i).active ≡ true
      → drain_rest handler (pos i) turns s l ≡ some (s', l')
      → InOrder handler i s.queue log l.handled s'.queue l'.handled
  unfolding drain_rest handle
  drain_rest-InOrder [] s s' l l' log every inv a e = cc
  drain_rest-InOrder (turn ∷ turns) s s' l l' log (extends, every) inv a e =
      InOrder-turn handler i turn.before extends.0 s log s'.queue l.handled l'.handled inv a
        λ more inv₁ a₁.
          let q : Queue T = (turn.before s).queue in
          InOrder-consume handler i q s'.queue (log ++ more) l.handled l'.handled inv₁ hi a₁
            (λ m read inv₂ a₂.
              drain_rest-InOrder turns (record (turn.before s) { queue = advance i q }) s'
                (handle handler m (turn.before s).clock l) l' (log ++ more) every inv₂ a₂
                (sym (drain_more handler (pos i) turn turns s l m (advance i q) read) ∙ e))
            (λ read.
              InOrder-stop (turn.before s) s' l l' (log ++ more) inv₁ a₁
                (sym (drain_done handler (pos i) turn turns s l q read) ∙ e))

  module _ (os : EventFd K) (max_messages : ℕ) where
    run_loop-InOrder :
        (turns : List (Turn T K)) (s s' : Shared T K) (l l' : Local H Double) (log : List T)
        → Every (TurnExtends i) turns
        → Inv s.queue log
        → (s.queue.consumers i).active ≡ true
        → run_loop os handler (pos i) max_messages turns s l ≡ some (s', l')
        → InOrder handler i s.queue log l.handled s'.queue l'.handled
    unfolding run_loop handle
    run_loop-InOrder [] s s' l l' log every inv a e = cc
    run_loop-InOrder (turn ∷ turns) s s' l l' log (extends, every) inv a e =
        elim (Bool-cases (reached max_messages l.count)) [
          | inl stop ↦
              InOrder-stop s s' l l' log inv a
                (sym (loop_done handler (pos i) os max_messages turn turns s l stop) ∙ e)
          | inr go_on ↦
              InOrder-turn handler i turn.before extends.0 s log s'.queue l.handled l'.handled inv a
                λ more inv₁ a₁.
                  let q : Queue T = (turn.before s).queue in
                  InOrder-consume handler i q s'.queue (log ++ more) l.handled l'.handled inv₁ hi a₁
                    (λ m read inv₂ a₂.
                      run_loop-InOrder turns (record (turn.before s) { queue = advance i q }) s' _
                        l' (log ++ more) every inv₂ a₂
                        (sym (
                            loop_more handler (pos i) os max_messages turn turns s l m (advance i q)
                              go_on read)
                          ∙ e))
                    (λ read.
                      let sleeps : Shared T K = asleep handler (pos i) os max_messages turn s l q in
                      InOrder-turn handler i turn.waiting extends.1 sleeps (log ++ more) s'.queue
                        l.handled l'.handled inv₁ a₁
                        λ more₂ inv₂ a₂. elim (Bool-cases (turn.waiting sleeps).shutdown) [
                          | inl shut ↦
                              drain_rest-InOrder turns (turn.waiting sleeps) s' _ l'
                                ((log ++ more) ++ more₂) every inv₂ a₂
                                (sym (
                                    loop_drain handler (pos i) os max_messages turn turns s l q
                                      go_on read shut)
                                  ∙ e)
                          | inr unset ↦
                              run_loop-InOrder turns (turn.waiting sleeps) s' _ l'
                                ((log ++ more) ++ more₂) every inv₂ a₂
                                (sym (
                                    loop_wait handler (pos i) os max_messages turn turns s l q go_on
                                      read unset)
                                  ∙ e)
                        ])
        ]

    -- If the other threads, before each round and while the consumer waits, keep the invariant of
    -- the queue while the log grows and leave the slot of an active consumer as it is, then when
    -- `run` of that consumer returns, by its limit or after the drain that follows a shutdown, the
    -- messages passed to `onMessage` are the part of the log between the position at its start and
    -- its position now, in order, with none lost and none twice.
    pub run-InOrder :
        (turns : List (Turn T K)) (s s' : Shared T K) (l l' : Local H Double) (log : List T)
        → Every (TurnExtends i) turns
        → Inv s.queue log
        → (s.queue.consumers i).active ≡ true
        → run os handler (pos i) max_messages turns s l ≡ some (s', l')
        → InOrder handler i s.queue log l.handled s'.queue l'.handled
    unfolding run
    run-InOrder turns s s' l l' log every inv a e =
        run_loop-InOrder turns s s' (record l { count = 0 }) l' log every inv a e
