-- ===== src/Tests/Commands.antt =====
-- Command lines of src/main.cpp, and its modes on a small system.
use lock_free_spmc_queue_dis.Common.{
  ℕ, Bool, if◌then◌else◌, ◌==◌, ◌++◌, append_nil, subst, sym, ap, ◌≡◌, refl, inl, true, false, some,
  none, List, [], ◌∷◌, arith, pos, negsuc,
}
use lock_free_spmc_queue_dis.Queue.{
  fresh, register_consumer, claim, publish, write_slot, slot_index, consume, valid_id, read_slot,
}
use lock_free_spmc_queue_dis.Message.{Message, no_counts, Counts, on_message, count_kind}
use lock_free_spmc_queue_dis.WaitStrategy.{busy_spin, reset}
use lock_free_spmc_queue_dis.Latency.{record_sample}
use lock_free_spmc_queue_dis.SharedMemory.{Answers}
use lock_free_spmc_queue_dis.Consumer.{Shared, Turn, Local, run, run_loop, reached, handle, attach}
use lock_free_spmc_queue_dis.Consumer.Quiet.{still}
use lock_free_spmc_queue_dis.Consumer.Logging.{logging}
use lock_free_spmc_queue_dis.Consumer.InOrder.{Extends, TurnExtends, InOrder}
use lock_free_spmc_queue_dis.Consumer.Delivery.{run-InOrder}
use lock_free_spmc_queue_dis.Consumer.Exact.{Every}
use lock_free_spmc_queue_dis.Queue.Inv.{Inv, fresh-Inv}
use lock_free_spmc_queue_dis.Queue.Register.{enrolled, enrolled-Inv}
use lock_free_spmc_queue_dis.Queue.RoundTrip.{publish_appends}
use lock_free_spmc_queue_dis.Consumer.Supplied.{Finishes, run-Finishes}
use lock_free_spmc_queue_dis.Endpoint.{construct_consumer}
use lock_free_spmc_queue_dis.Endpoint.Release.{Attaches, construct_consumer-Attaches}
use lock_free_spmc_queue_dis.Main.{
  Bytes, AutoStart, interactive, flag_auto, parse_auto, produce, command, stoi, skip_spaces,
  take_sign, magnitude, read_digits, to_int, eq_bytes,
}
use lock_free_spmc_queue_dis.Main.Args.{arguments, command-arguments, Parsed, parse_auto-Parsed}
use lock_free_spmc_queue_dis.Main.Modes.{System, block_name, main}
use lock_free_spmc_queue_dis.Main.Modes.Leftover.{Leaves}
use lock_free_spmc_queue_dis.Main.Modes.Whole.{Stops, main-Leaves}
use lock_free_spmc_queue_dis.Tests.Program.{
  counter, blank, small_tracker, nothing_held, whole, tens,
}
use lock_free_spmc_queue_dis.Tests.Logging.{order}

abbrev sooner : AutoStart
sooner = record { auto_start = true; wait_seconds = negsuc 41 }

command-arguments_example : command (arguments (produce sooner)) ≡ produce sooner
command-arguments_example = command-arguments (produce sooner) (inl (refl, omega arith))

-- ` 12x`, which `std::stoi` reads as 12; and numbers on either side of what an `int` holds.
reads_prefix : stoi (b' ' ∷ b'1' ∷ b'2' ∷ b'x' ∷ []) ≡ some (pos 12)
unfolding stoi skip_spaces take_sign magnitude read_digits to_int
reads_prefix = refl

too_large : stoi (b'2' ∷ b'1' ∷ b'4' ∷ b'7' ∷ b'4' ∷ b'8' ∷ b'3' ∷ b'6' ∷ b'4' ∷ b'8' ∷ []) ≡ none
unfolding stoi skip_spaces take_sign magnitude read_digits to_int
too_large = refl

no_number : stoi flag_auto ≡ none
unfolding stoi skip_spaces take_sign magnitude read_digits to_int
no_number = refl

-- `--auto 7 --auto x`
abbrev twice : List Bytes
twice = flag_auto ∷ (b'7' ∷ []) ∷ flag_auto ∷ (b'x' ∷ []) ∷ []

waits_seven : parse_auto twice interactive ≡ record { auto_start = true; wait_seconds = pos 7 }
unfolding parse_auto eq_bytes stoi skip_spaces take_sign magnitude read_digits to_int
waits_seven = refl

parse_auto-Parsed_example : Parsed twice interactive (parse_auto twice interactive)
parse_auto-Parsed_example = parse_auto-Parsed twice interactive

abbrev all_answered : Answers
all_answered = record { shm_open = some 3; ftruncate = true; mmap = some 4096; eventfd = some 4 }

construct_consumer-Attaches_example :
    Attaches {Name = ℕ} nothing_held
      (fresh blank)
      (construct_consumer all_answered 8 0 (fresh blank))
construct_consumer-Attaches_example =
    construct_consumer-Attaches all_answered 8 0 nothing_held (fresh blank)

-- The producer publishes its only message.
abbrev pub send_once : Shared (Message ℕ) ℕ → Shared (Message ℕ) ℕ
send_once s = if s.queue.next == 0 then record s { queue = (publish order s.queue).1 } else s

-- It does so before the round.
abbrev pub sending : Turn (Message ℕ) ℕ
sending = record { before = send_once; waiting = λ s. s }

abbrev pub turns : List (Turn (Message ℕ) ℕ)
turns = sending ∷ still ∷ []

abbrev pub untouched : Shared (Message ℕ) ℕ
untouched = record { queue = fresh blank; shutdown = false; kernel = 0; clock = 50 }

abbrev pub system : System
system = record { event = some 9; answers = all_answered }

abbrev own : Local Counts ℕ
own = record { strategy = busy_spin; tracker = small_tracker; handled = no_counts; count = 0 }

pub stays-Extends : (i : ℕ) → Extends {T = Message ℕ} {K = ℕ} i (λ s. s)
stays-Extends i s log inv a = ([], subst (Inv s.queue) (sym (append_nil log)) inv, refl)

pub send_once-Extends : (i : ℕ) → Extends i send_once
send_once-Extends i s log inv a = by_number (s.queue.next == 0) refl
  where
    by_number :
        (first : Bool)
        → (s.queue.next == 0) ≡ first
        → (more : List (Message ℕ)) × Inv
            (if first then record s { queue = (publish order s.queue).1 } else s).queue
            (log ++ more)
          × ((if first then record s { queue = (publish order s.queue).1 } else s).queue.consumers i
              ≡ s.queue.consumers i)
    by_number true e =
        let (more, keeps, same) = publish_appends order inv (ground (arith, e)) in
        (more, keeps, ap (λ c. c i) same)
    by_number false e = stays-Extends i s log inv a

pub turns-Extends : (i : ℕ) → Every (TurnExtends i) turns
turns-Extends i = ((send_once-Extends i, stays-Extends i), ((stays-Extends i, stays-Extends i), tt))

record Ran : Type 0 where
  shared : Shared (Message ℕ) ℕ
  local : Local Counts ℕ
  returns :
      run counter logging
        (pos 0)
        1
        turns
        (record untouched { queue = enrolled 0 1 (fresh blank) })
        own
      ≡ some (shared, local)

abbrev one_run : Ran
unfolding run run_loop reached handle reset record_sample fresh publish write_slot slot_index
    consume valid_id read_slot on_message count_kind
one_run = record { shared = _; local = _; returns = refl }

run-InOrder_example :
    InOrder logging 0
      (enrolled 0 1 (fresh blank))
      []
      own.handled
      one_run.shared.queue
      one_run.local.handled
unfolding fresh
run-InOrder_example =
    run-InOrder logging 0 (omega arith) counter 1 turns
      (record untouched { queue = enrolled 0 1 (fresh blank) }) one_run.shared own one_run.local []
      (turns-Extends 0)
      (enrolled-Inv (fresh-Inv blank) 0 1 (record {
        positive = omega arith;
        reached = omega arith;
        retained = omega arith;
        guarded = inl (omega arith);
      }))
      refl one_run.returns

main-Leaves_example :
    (let r =
        main {Name = ℕ} counter system 8 0 whole 1 tens blank 1
          (λ o s. s)
          []
          turns
          ((b'c' ∷ []) ∷ block_name ∷ [])
          untouched in
      Stops r.2 (Leaves (some 9) nothing_held r.0))
main-Leaves_example =
    main-Leaves counter system 8 0 whole 1 tens blank 1 (λ o s. s) [] turns
      ((b'c' ∷ []) ∷ block_name ∷ []) untouched nothing_held

-- A message is waiting for consumer 0 before every round.
abbrev pub waiting_again : Turn (Message ℕ) ℕ
waiting_again = record {
  before = λ s. record s { queue = (publish order (attach (fresh blank)).1).1 };
  waiting = λ s. s;
}

run-Finishes_example :
    Finishes counter logging
      (pos 0)
      2
      (omega arith)
      (omega arith)
      (λ s. Unit)
      (run counter logging
        (pos 0)
        2
        (waiting_again ∷ waiting_again ∷ waiting_again ∷ [])
        untouched
        own)
unfolding fresh register_consumer claim publish write_slot slot_index consume valid_id read_slot
run-Finishes_example =
    run-Finishes counter logging (pos 0) 2 (omega arith) (omega arith) (λ s. Unit)
      (waiting_again ∷ waiting_again ∷ waiting_again ∷ []) untouched own
      ((λ s p. (order, refl, tt)), ((λ s p. (order, refl, tt)), ((λ s p. (order, refl, tt)), tt)))
      tt (omega arith)
