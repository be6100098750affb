-- ===== src/Refine/Steps.antt =====
-- Each operation of include/Queue.h against the steps of the abstract state.
use lock_free_spmc_queue_dis.Common.{
  ℕ, ◌+◌, ◌<◌, ◌≤◌, ◌≡◌, ◌≢◌, ◌⊎◌, inl, inr, refl, sym, inl, inr, ◌⊎◌, ◌≢◌, u64_max, subst, ◌∙◌,
  true, false, Option, none, List, Bool, Bool-cases, le-cases, arith, length, ℤ, pos, negsuc,
  u64_max,
}
use lock_free_spmc_queue_dis.Queue.{
  Queue, ring_size, max_consumers, register_consumer, unregister_consumer, publish, consume,
}
use lock_free_spmc_queue_dis.Queue.Inv.{max_messages, InWindow, Inv}
use lock_free_spmc_queue_dis.Queue.Consume.{
  position, advance-Inv, consume_inactive, consume_active, consume_negative, consume_out_of_range,
  read_slot_ready, read_slot_empty,
}
use lock_free_spmc_queue_dis.Queue.Append.{HasRoom, appended-Inv}
use lock_free_spmc_queue_dis.Queue.Publish.{Lagging, NoneActive, publish-cases, recached-Inv}
use lock_free_spmc_queue_dis.Queue.Register.{
  register-cases, enrolled-Inv, retired-Inv, unregister_negative, unregister_out_of_range,
  unregister-eq-retired,
}
use lock_free_spmc_queue_dis.PubSub.{
  Op, join, leave, send, receive, Reply, joined, left, sent, received, Joined, Room, Crowded,
  Unheard, Unknown, Step, admit, no_slot, depart, depart_unknown, accept, refuse, deliver,
  nothing_new, not_joined, MayJoin,
}
use lock_free_spmc_queue_dis.Refine.{grow, view_cursor, view}
use lock_free_spmc_queue_dis.Refine.View.{
  Joined-iff, Joined-of_active, view-advance, view-enrolled, view-retired, view_out_of_range,
  view-appended,
}

module _ {ℓ} {T : Type ℓ} where
  -- The call `op` on `q` is a step of the abstract state, and leaves the invariant in force.
  pub record Refines (q : Queue T) (log : List T) (op : Op T) (reply : Reply T) (q' : Queue T)
      : Type ℓ where
    pub step : Step (view q log) (view q' (grow op reply log)) op reply
    pub keeps : Inv q' (grow op reply log)

  -- What each operation is shown to do, at the pair that it returns.
  abbrev pub Received : Queue T → List T → ℤ → Option T × Queue T → Type ℓ
  Received q log id r = Refines q log (receive id) (received r.0) r.1

  abbrev pub Sent : Queue T → List T → T → Bool × Queue T → Type ℓ
  Sent q log item r = Refines q log (send item) (sent r.0) r.1

  abbrev pub JoinedAs : Queue T → List T → ℕ → Option ℕ × Queue T → Type ℓ
  JoinedAs q log start r = Refines q log (join start) (joined r.0) r.1

  module _ {q : Queue T} {log : List T} (inv : Inv q log) where
    receive_active :
        (i : ℕ)
        → i < max_consumers
        → (q.consumers i).active ≡ true
        → Received q log (pos i) (consume (pos i) q)
    receive_active i h a = elim (le-cases (position q i) q.next) [
      | inl ready ↦
          let (m, found, e) = read_slot_ready inv i h a ready in
          subst (Received q log (pos i)) (sym (consume_active i q h a ∙ e)) (record {
            step = deliver i (position q i) m at found (view-advance q log i h a);
            keeps = advance-Inv inv i h a ready;
          })
      | inr caught_up ↦
          subst (Received q log (pos i))
            (sym (consume_active i q h a ∙ read_slot_empty inv i h a caught_up))
            (record {
              step =
                  nothing_new i (position q i) at
                    (omega (arith, (inv.readers i h a).reached, inv.counted)) refl;
              keeps = inv;
            })
    ]
      where
        at : Joined (view q log) i (position q i)
        at = Joined-of_active q log i h a

    receive-Unknown :
        (id : ℤ)
        → consume id q ≡ (none, q)
        → Unknown (view q log) id
        → Received q log id (consume id q)
    receive-Unknown id e u =
        subst (Received q log id) (sym e) (record { step = not_joined id u refl; keeps = inv })

    pub receive-Refines : (id : ℤ) → Received q log id (consume id q)
    receive-Refines (negsuc n) = receive-Unknown (negsuc n) (consume_negative n q) tt
    receive-Refines (pos i) = elim (le-cases max_consumers i) [
      | inl out ↦ receive-Unknown (pos i) (consume_out_of_range i q out) (ground (arith, out))
      | inr h ↦ elim (Bool-cases (q.consumers i).active) [
        | inl a ↦ receive_active i h a
        | inr a ↦ receive-Unknown (pos i) (consume_inactive i q a) (ground (arith, a))
      ]
    ]

    HasRoom-Room : HasRoom q → Room (view q log)
    HasRoom-Room free i c at =
        let (h, a, e) = Joined-iff q log i c at in omega (arith, free i h a, inv.counted)

    refusal :
        ((i : ℕ) × Lagging q i) ⊎ (NoneActive q × (ring_size ≤ q.next + 1))
        → Crowded (view q log) ⊎ Unheard (view q log)
    refusal (inl (i, (h, a, lag))) =
        inl (i, position q i, Joined-of_active q log i h a, omega (arith, inv.counted))
    refusal (inr (quiet, late)) = inr (
      (λ i c at. let (h, a, e) = Joined-iff q log i c at in quiet i h a),
      omega (arith, inv.counted),
    )

    pub send-Refines : (item : T) → length log < max_messages → Sent q log item (publish item q)
    send-Refines item room = elim (publish-cases inv item (omega (arith, inv.counted))) [
      | inl (c, free, caches, e) ↦ subst (Sent q log item) (sym e) (record {
        step = accept item (HasRoom-Room free) (view-appended q log item c);
        keeps = appended-Inv inv item c (omega (arith, inv.counted)) free caches;
      })
      | inr (c, why, caches, e) ↦
          subst (Sent q log item) (sym e)
            (record { step = refuse item (refusal why) refl; keeps = recached-Inv inv c caches })
    ]

    join_retained : (start : ℕ) → MayJoin (view q log) start → q.next < start + ring_size
    join_retained start may = elim may.reason [
      | inl next ↦ omega (arith, inv.counted)
      | inr (inl early) ↦ omega (arith, inv.counted, may.positive)
      | inr (inr (i, c, at, le)) ↦
          let (h, a, e) = Joined-iff q log i c at in omega (arith, (inv.readers i h a).retained)
    ]

    join_guarded :
        (start : ℕ)
        → MayJoin (view q log) start
        → (q.min_consumer_seq ≤ start) ⊎ (q.min_consumer_seq ≡ u64_max)
    join_guarded start may = elim may.reason [
      | inl next ↦ ground (arith, inv.cache.bounded, inv.counted)
      | inr (inl early) ↦ ground (arith, inv.cache.early, inv.counted)
      | inr (inr (i, c, at, le)) ↦
          let (h, a, e) = Joined-iff q log i c at in ground (arith, (inv.readers i h a).guarded)
    ]

    pub join_window :
        (start : ℕ) → MayJoin (view q log) start → InWindow q.next q.min_consumer_seq start
    join_window start may = record {
      positive = may.positive;
      reached = omega (arith, may.reached, inv.counted);
      retained = join_retained start may;
      guarded = join_guarded start may;
    }

    not_active : (i : ℕ) → (q.consumers i).active ≡ false → view_cursor q i ≡ none
    not_active i a = ground arith

    has_cursor :
        (i : ℕ) → i < max_consumers → (q.consumers i).active ≡ true → view_cursor q i ≢ none
    has_cursor i h a e = ground arith

    pub join-Refines :
        (start : ℕ) → MayJoin (view q log) start → JoinedAs q log start (register_consumer start q)
    join-Refines start may = elim (register-cases start q) [
      | inl (i, h, free, below, e) ↦ subst (JoinedAs q log start) (sym e) (record {
        step =
            admit start i h (not_active i free) (λ j hj. has_cursor j (omega arith) (below j hj))
              (view-enrolled q log i start h);
        keeps = enrolled-Inv inv i start (join_window start may);
      })
      | inr (full, e) ↦
          subst (JoinedAs q log start) (sym e) (record {
            step = no_slot start (λ j hj. has_cursor j hj (full j hj)) refl;
            keeps = inv;
          })
    ]

    pub leave-Refines : (id : ℤ) → Refines q log (leave id) left (unregister_consumer id q)
    leave-Refines (negsuc n) =
        subst (Refines q log (leave (negsuc n)) left) (sym (unregister_negative n q))
          (record { step = depart_unknown n refl; keeps = inv })
    leave-Refines (pos i) = elim (le-cases max_consumers i) [
      | inl out ↦
          subst (Refines q log (leave (pos i)) left) (sym (unregister_out_of_range i q out))
            (record { step = depart i (view_out_of_range q log i out); keeps = inv })
      | inr h ↦
          subst (Refines q log (leave (pos i)) left) (sym (unregister-eq-retired i q h))
            (record { step = depart i (view-retired q log i); keeps = retired-Inv inv i })
    ]
