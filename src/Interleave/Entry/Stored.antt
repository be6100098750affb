-- ===== src/Interleave/Entry/Stored.antt =====
-- The threads of Interleave.Entry as they are once every registration has stored its start.
use lock_free_spmc_queue_dis.Common.{
  ℕ, ◌≤◌, ◌≡◌, inl, inr, refl, subst, sym, ◌∙◌, ap, fun_ext, Option, none, some, true, false, arith,
  update, eq-cases,
}
use lock_free_spmc_queue_dis.Queue.{Queue, ConsumerSlot}
use lock_free_spmc_queue_dis.Queue.Register.{enrolled}
use lock_free_spmc_queue_dis.Interleave.{System, set_position, retire}
use lock_free_spmc_queue_dis.Interleave.Entry.{Crowd, raise}

abbrev pub settled : Option ℕ → ConsumerSlot → ConsumerSlot
settled none c = c
settled (some start) c = record { active = true; sequence = start }

-- A slot whose start is still to be stored is active, and its position is not ahead of the start.
pub record Won (o : Option ℕ) (c : ConsumerSlot) : Type 0 where
  pub active : (start : ℕ) → o ≡ some start → c.active ≡ true
  pub behind : (start : ℕ) → o ≡ some start → c.sequence ≤ start

pub Won-none : {o : Option ℕ} (c : ConsumerSlot) → o ≡ none → Won o c
Won-none c e = record { active = λ start e'. cc; behind = λ start e'. cc }

pub Won-some :
    {o : Option ℕ} {start : ℕ} (c : ConsumerSlot)
    → o ≡ some start
    → c.active ≡ true
    → c.sequence ≤ start
    → Won o c
Won-some {start = start} c e a le = record {
  active = λ start e'. a;
  behind = λ start' e'. let same : start ≡ start' = cc in omega arith;
}

pub settled-active : (o : Option ℕ) (c : ConsumerSlot) → Won o c → (settled o c).active ≡ c.active
settled-active none c w = refl
settled-active (some start) c w = sym (w.active start refl)

pub settled-position :
    (o : Option ℕ) (c : ConsumerSlot) → Won o c → c.sequence ≤ (settled o c).sequence
settled-position none c w = omega arith
settled-position (some start) c w = w.behind start refl

pub settled-update :
    (j : ℕ → Option ℕ) (f : ℕ → ConsumerSlot) (i : ℕ) (o : Option ℕ) (c : ConsumerSlot) (k : ℕ)
    → settled (update j i o k) (update f i c k)
      ≡ update (λ n. settled (j n) (f n)) i (settled o c) k
settled-update j f i o c k = ground arith

pub settled-keep :
    (j : ℕ → Option ℕ) (f : ℕ → ConsumerSlot) (i : ℕ) (c : ConsumerSlot)
    → j i ≡ none
    → (k : ℕ) → settled (j k) (update f i c k) ≡ update (λ n. settled (j n) (f n)) i c k
settled-keep j f i c e k = elim (eq-cases i k) [
  | inl same ↦
      let here : j k ≡ none = ap j (sym same) ∙ e in
      ap (λ o. settled o (update f i c k)) here ∙ ground arith
  | inr ne ↦ ground arith
]

module _ {ℓ} {T : Type ℓ} where
  abbrev pub stored : (ℕ → Option ℕ) → Queue T → Queue T
  stored j q = record q { consumers = λ i. settled (j i) (q.consumers i) }

  abbrev pub stored_system : Crowd T → System T
  stored_system s = record s.system { queue = stored s.joining s.system.queue }

  abbrev pub AllWon : (ℕ → Option ℕ) → Queue T → Type 0
  AllWon j q = (i : ℕ) → Won (j i) (q.consumers i)

  with_consumers :
      (q : Queue T) {c c' : ℕ → ConsumerSlot}
      → ((k : ℕ) → c k ≡ c' k)
      → record q { consumers = c } ≡ record q { consumers = c' }
  with_consumers q h = ap (λ c. record q { consumers = c }) (fun_ext h)

  pub stored-raise :
      (j : ℕ → Option ℕ) (q : Queue T) (i start : ℕ)
      → stored (update j i (some start)) (raise i q) ≡ enrolled i start (stored j q)
  stored-raise j q i start = with_consumers q (settled-update j q.consumers i (some start) _)

  pub stored-set_position :
      (j : ℕ → Option ℕ) (q : Queue T) (i v : ℕ)
      → j i ≡ none
      → stored j (set_position i v q) ≡ set_position i v (stored j q)
  stored-set_position j q i v e =
      with_consumers q (settled-keep j q.consumers i (record (q.consumers i) { sequence = v }) e)
      ∙ ap
          (λ o. record q {
            consumers =
                update (λ n. settled (j n) (q.consumers n)) i
                  (record (settled o (q.consumers i)) { sequence = v });
          })
          (sym e)

  pub stored-retire :
      (j : ℕ → Option ℕ) (q : Queue T) (i : ℕ)
      → j i ≡ none
      → stored j (retire i q) ≡ retire i (stored j q)
  stored-retire j q i e =
      with_consumers q (settled-keep j q.consumers i (record (q.consumers i) { active = false }) e)
      ∙ ap
          (λ o. record q {
            consumers =
                update (λ n. settled (j n) (q.consumers n)) i
                  (record (settled o (q.consumers i)) { active = false });
          })
          (sym e)

  -- The store of the start changes nothing here.
  pub stored-set_start :
      (j : ℕ → Option ℕ) (q : Queue T) (i start : ℕ)
      → AllWon j q
      → j i ≡ some start
      → stored j q ≡ stored (update j i none) (set_position i start q)
  stored-set_start j q i start won e = with_consumers q same
    where
      same :
          (k : ℕ)
          → settled (j k) (q.consumers k)
            ≡ settled
                (update j i none k)
                (update q.consumers i (record (q.consumers i) { sequence = start }) k)
      same k = elim (eq-cases i k) [
        | inl eq ↦
            let on : (q.consumers i).active ≡ true = (won i).active start e in
            subst
              (λ n.
                settled (j n) (q.consumers n)
                ≡ settled (update j i none n)
                    (update q.consumers i (record (q.consumers i) { sequence = start }) n))
              eq
              (ap (λ o. settled o (q.consumers i)) e
                ∙ ap (λ a. record { active = a; sequence = start }) (sym on)
                ∙ ground arith)
        | inr ne ↦ ground arith
      ]
