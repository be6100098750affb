-- ===== src/Interleave/Carry.antt =====
-- What Interleave.Inv says of one thread of include/Queue.h, over a step of another.
use lock_free_spmc_queue_dis.Common.{
  ℕ, ◌+◌, ◌-◌, ◌≤◌, ◌≡◌, refl, subst, sym, ◌∙◌, List, [], ◌∷◌, ◌++◌, false, length, arith,
  get_elem?-append_left, get_elem?-append_some,
}
use lock_free_spmc_queue_dis.Queue.{ConsumerSlot}
use lock_free_spmc_queue_dis.Queue.Consume.{position}
use lock_free_spmc_queue_dis.Interleave.{
  ProducerPc, resting, load_active, load_sequence, write_data, writing, store_sequence, ConsumerPc,
  outside, is_active, expecting, slot_ready, reading, copied, log_after,
}
use lock_free_spmc_queue_dis.Interleave.Inv.{published, Expects, Finds, Reader, Copied, Delivered}

Expects-congr :
    {c c' : ℕ → ConsumerSlot} (i seq : ℕ) → c' i ≡ c i → Expects c i seq → Expects c' i seq
Expects-congr i seq e x = record {
  active = ground (arith, e, x.active);
  own = ground (arith, e, x.own);
}

Finds-congr :
    {c c' : ℕ → ConsumerSlot} {done done' : ℕ} (i seq : ℕ)
    → c' i ≡ c i
    → done ≤ done'
    → Finds c done i seq
    → Finds c' done' i seq
Finds-congr i seq e le f = record {
  expects = Expects-congr i seq e f.expects;
  stamped = omega (arith, f.stamped);
}

module _ {ℓ} {T : Type ℓ} where
  -- Another thread's step leaves a consumer where it was.
  pub Reader-congr :
      (c c' : ℕ → ConsumerSlot) (done done' : ℕ) (i : ℕ) (p : ConsumerPc T)
      → c' i ≡ c i
      → done ≤ done'
      → Reader c done i p
      → Reader c' done' i p
  Reader-congr c c' done done' i outside e le r = tt
  Reader-congr c c' done done' i is_active e le r = record {
    active = ground (arith, e, r.active);
    own = refl;
  }
  Reader-congr c c' done done' i (expecting seq) e le r = Expects-congr i seq e r
  Reader-congr c c' done done' i (slot_ready seq) e le r = Finds-congr i seq e le r
  Reader-congr c c' done done' i (reading seq) e le r = Finds-congr i seq e le r
  Reader-congr c c' done done' i (copied seq out) e le r = Finds-congr i seq e le r

  -- A consumer that is not registered is outside `consume`.
  pub Reader-inactive :
      (c : ℕ → ConsumerSlot) (done i : ℕ) (p : ConsumerPc T)
      → (c i).active ≡ false
      → Reader c done i p
      → p ≡ outside
  Reader-inactive c done i outside e r = refl
  Reader-inactive c done i is_active e r = ground (arith, e, r.active)
  Reader-inactive c done i (expecting seq) e r = ground (arith, e, r.active)
  Reader-inactive c done i (slot_ready seq) e r = ground (arith, e, r.expects.active)
  Reader-inactive c done i (reading seq) e r = ground (arith, e, r.expects.active)
  Reader-inactive c done i (copied seq out) e r = ground (arith, e, r.expects.active)

  pub Copied-grow : (log more : List T) (p : ConsumerPc T) → Copied log p → Copied (log ++ more) p
  Copied-grow log more outside h = tt
  Copied-grow log more is_active h = tt
  Copied-grow log more (expecting seq) h = tt
  Copied-grow log more (slot_ready seq) h = tt
  Copied-grow log more (reading seq) h = tt
  Copied-grow log more (copied seq out) h = get_elem?-append_some log more (seq - 1) out h

  pub Delivered-grow :
      (log more got : List T) (start position : ℕ)
      → position ≤ length log + 1
      → Delivered log got start position
      → Delivered (log ++ more) got start position
  Delivered-grow log more got start position le d = record {
    begun = d.begun;
    count = d.count;
    same = λ k h.
        d.same k h
        ∙ sym (get_elem?-append_left log more (start - 1 + k) (omega (arith, d.count, d.begun)));
  }

  -- Whether a step claims a message or not, the log only grows.
  pub log_after_grows :
      (P : List T → Type ℓ) (p : ProducerPc T) (log : List T)
      → P log
      → ((item : T) → P (log ++ item ∷ []))
      → P (log_after p log)
  log_after_grows P resting log h g = h
  log_after_grows P (load_active item s i m) log h g = h
  log_after_grows P (load_sequence item s i m) log h g = h
  log_after_grows P (write_data item s) log h g = g item
  log_after_grows P (writing item s) log h g = h
  log_after_grows P (store_sequence item s) log h g = h

  pub published-le : (p : ProducerPc T) (n : ℕ) → published p n ≤ n
  published-le p n = ground arith

  pub Delivered-congr :
      (log : List T) {g g' : List T} {b b' p p' : ℕ}
      → g' ≡ g
      → b' ≡ b
      → p' ≡ p
      → Delivered log g b p
      → Delivered log g' b' p'
  Delivered-congr log {g' = g'} {b} {b'} {p} eg eb ep d =
      subst (Delivered log g' b') (sym ep)
        (subst (λ x. Delivered log g' x p) (sym eb) (subst (λ x. Delivered log x b p) (sym eg) d))
