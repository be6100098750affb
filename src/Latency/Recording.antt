-- ===== src/Latency/Recording.antt =====
-- What `record` of include/LatencyTracker.h keeps.
use lock_free_spmc_queue_dis.Common.{
  ℕ, suc, ◌-◌, ◌<◌, ◌≤◌, ◌≡◌, refl, List, [], ◌∷◌, ◌++◌, arith, length, take, le-cases, inl, inr,
  lt→ltb, sym, ap, ◌∙◌, length-append, take_nil,
}
use mathlib.Core.List.{append-nil, append_assoc}
use lock_free_spmc_queue_dis.Latency.{Tracker, record_sample}

module _ {ℓ} {Double : Type ℓ} where
  -- `record` for each value in turn.
  unfoldable pub record_all : List ℕ → Tracker Double → Tracker Double
  record_all [] t = t
  record_all (c ∷ cs) t = record_all cs (record_sample c t)

  with_samples : Tracker Double → List ℕ → Tracker Double
  with_samples t xs = record t { samples = xs }

  sample_dropped :
      (c : ℕ) (t : Tracker Double) → t.capacity ≤ length t.samples → record_sample c t ≡ t
  unfolding record_sample
  sample_dropped c t full = ground arith

  sample_kept :
      (c : ℕ) (t : Tracker Double)
      → length t.samples < t.capacity
      → record_sample c t ≡ with_samples t (t.samples ++ c ∷ [])
  unfolding record_sample with_samples
  sample_kept c t room = rw (lt→ltb (length t.samples) t.capacity room) refl

  -- After any sequence of `record` calls the tracker holds its samples followed by the first of the
  -- new ones, up to its capacity, and nothing else has changed.
  pub record_all_lem :
      (cs : List ℕ) (t : Tracker Double)
      → record_all cs t
        ≡ record t { samples = t.samples ++ take (t.capacity - length t.samples) cs }
  unfolding record_all with_samples
  record_all_lem [] t = ap (with_samples t) (
      sym (
        ap (λ r. t.samples ++ r) (take_nil (t.capacity - length t.samples)) ∙ append-nil t.samples))
  record_all_lem (c ∷ cs) t = elim (le-cases t.capacity (length t.samples)) [
    | inl full ↦
        let none_left : t.capacity - length t.samples ≡ 0 = omega arith in
        ap (record_all cs) (sample_dropped c t full)
        ∙ record_all_lem cs t
        ∙ ap (λ n. with_samples t (t.samples ++ take n cs)) none_left
        ∙ sym (ap (λ n. with_samples t (t.samples ++ take n (c ∷ cs))) none_left)
    | inr room ↦
        let left : ℕ = t.capacity - length (t.samples ++ c ∷ []) in
        let one_more : t.capacity - length t.samples ≡ suc left =
          omega (arith, length-append t.samples (c ∷ [])) in
        ap (record_all cs) (sample_kept c t room)
        ∙ record_all_lem cs (with_samples t (t.samples ++ c ∷ []))
        ∙ ap (with_samples t) (append_assoc t.samples (c ∷ []) (take left cs))
        ∙ sym (ap (λ n. with_samples t (t.samples ++ take n (c ∷ cs))) one_more)
  ]
