-- ===== src/Interleave/Enroll.antt =====
-- A registration of include/Queue.h against the invariant of Interleave.Inv.
use lock_free_spmc_queue_dis.Common.{
  ℕ, ◌+◌, ◌<◌, ◌≤◌, ◌≡◌, inl, inr, subst, List, [], arith, eq-cases,
}
use lock_free_spmc_queue_dis.Queue.{Queue, ring_size}
use lock_free_spmc_queue_dis.Queue.Inv.{Inv}
use lock_free_spmc_queue_dis.Queue.Consume.{position}
use lock_free_spmc_queue_dis.Queue.Register.{enrolled}
use lock_free_spmc_queue_dis.PubSub.{MayJoin}
use lock_free_spmc_queue_dis.Refine.{view}
use lock_free_spmc_queue_dis.Refine.Steps.{join_window}
use lock_free_spmc_queue_dis.Interleave.{
  ProducerPc, resting, load_active, load_sequence, write_data, writing, store_sequence,
}
use lock_free_spmc_queue_dis.Interleave.Inv.{InReach, Core, Scanned, Claims, Writer, Delivered}

-- How many consumers a running rescan has passed.
abbrev pub passed {ℓ} : {T : Type ℓ} → ProducerPc T → ℕ
passed (load_active _ _ i _) = i
passed (load_sequence _ _ i _) = i
passed _ = 0

module _ {ℓ} {T : Type ℓ} where
  -- With every claimed message stamped, the shared memory is that of a queue between calls.
  pub Core-Inv : {q : Queue T} {log : List T} → Core q log q.next → Inv q log
  Core-Inv core = record {
    counted = core.counted;
    small = core.small;
    held = core.held;
    stamped = core.stamped;
    readers = λ i h a.
        let r = core.readers i h a in
        record {
          positive = r.positive;
          reached = r.reached;
          retained = r.retained;
          guarded = r.guarded;
        };
    cache = core.cache;
  }

  pub MayJoin-InReach :
      {q : Queue T} {log : List T} (start : ℕ)
      → Core q log q.next
      → MayJoin (view q log) start
      → InReach q.next q.min_consumer_seq q.next start
  MayJoin-InReach start core may =
      let window = join_window (Core-Inv core) start may in
      record {
        positive = window.positive;
        reached = window.reached;
        retained = window.retained;
        guarded = window.guarded;
      }

  pub enrolled-Core :
      {q : Queue T} {log : List T} {done : ℕ} (i start : ℕ)
      → Core q log done
      → done ≤ q.next
      → InReach q.next q.min_consumer_seq done start
      → Core (enrolled i start q) log done
  enrolled-Core {q} {done = done} i start core le near = record {
    counted = core.counted;
    small = core.small;
    held = core.held;
    stamped = core.stamped;
    readers = λ j hj a. elim (eq-cases i j) [
      | inl same ↦
          let here : start ≡ position (enrolled i start q) j = ground arith in
          subst (InReach q.next q.min_consumer_seq done) here near
      | inr ne ↦ ground (arith, core.readers j hj)
    ];
    bounded = λ j hj. ground (arith, core.bounded j hj, near.reached);
    cache = core.cache;
  }

  enrolled-Scanned :
      {q : Queue T} {s k m : ℕ} (i start : ℕ)
      → (i < k → q.next + 1 ≤ start)
      → Scanned q s k m
      → Scanned (enrolled i start q) s k m
  enrolled-Scanned {q} i start behind w = record {
    number = w.number;
    late = w.late;
    below = λ j h hj a. elim (eq-cases i j) [
      | inl same ↦ inr (ground (arith, behind))
      | inr ne ↦ ground (arith, w.below j h hj)
    ];
    found = w.found;
  }

  enrolled-Claims :
      {q : Queue T} {log : List T} {item : T} {s : ℕ} (i start : ℕ)
      → Claims q log item s
      → Claims (enrolled i start q) log item s
  enrolled-Claims i start w = record { number = w.number; positive = w.positive; entry = w.entry }

  pub enrolled-Writer :
      (q : Queue T) (log : List T) (p : ProducerPc T) (i start : ℕ)
      → (i < passed p → q.next + 1 ≤ start)
      → Writer q log p
      → Writer (enrolled i start q) log p
  enrolled-Writer q log resting i start behind w = tt
  enrolled-Writer q log (load_active item s k m) i start behind w =
      enrolled-Scanned i start behind w
  enrolled-Writer q log (load_sequence item s k m) i start behind w =
      (enrolled-Scanned i start behind w.0, w.1)
  enrolled-Writer q log (write_data item s) i start behind w = enrolled-Claims i start w
  enrolled-Writer q log (writing item s) i start behind w = enrolled-Claims i start w
  enrolled-Writer q log (store_sequence item s) i start behind w =
      (enrolled-Claims i start w.0, w.1)

  pub enrolled-Delivered : {log : List T} (start : ℕ) → 1 ≤ start → Delivered log [] start start
  enrolled-Delivered start positive = record {
    begun = positive;
    count = omega arith;
    same = λ k h. absurd (omega arith);
  }

  -- Only a queue that is past its first lap is rescanned.
  pub passed_late :
      (q : Queue T) (log : List T) (p : ProducerPc T)
      → Writer q log p
      → 1 ≤ passed p
      → ring_size ≤ q.next + 1
  passed_late q log resting w h = absurd (omega arith)
  passed_late q log (load_active item s i m) w h = w.late
  passed_late q log (load_sequence item s i m) w h = w.0.late
  passed_late q log (write_data item s) w h = absurd (omega arith)
  passed_late q log (writing item s) w h = absurd (omega arith)
  passed_late q log (store_sequence item s) w h = absurd (omega arith)
