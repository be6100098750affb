-- ===== src/Lib.antt =====
-- A single-producer, multi-consumer broadcast queue over a ring of 1024 slots, and the program
-- around it.
--
-- Every consumer has a position of its own and receives every message. The producer numbers
-- messages from 1, writes message n to slot n modulo 1024 and stamps the slot with n + 1; a
-- consumer at position n takes the slot when its stamp is above n. The producer keeps the minimum
-- of the consumers' positions in a cache and scans all consumers only when the cache makes the
-- ring look full.
--
-- Files:
-- - Queue.antt, include/Queue.h: the state of `LockFreePubSubQueue` and its operations as
--   functions, each run to its end. `fresh`, `register_consumer`, `unregister_consumer`, `publish`,
--   `consume` and `current_sequence` have the names of the source; loops over the 64 consumer slots
--   are recursion on the rounds left (`claim`, `scan_min`). The children are about its parts:
--   Queue/Index (slots of numbers), Queue/Scan (the rescan), Queue/Claim and Queue/Register
--   (registration), Queue/Inv (the invariant), Queue/Consume, Queue/Append and Queue/Publish,
--   Queue/Backpressure, Queue/Drain (the drain loop of include/Consumer.h), Queue/RoundTrip (a
--   publish and the consume after it), Queue/Stall and Queue/LateJoin (what happens without a
--   consumer, and to one that starts too far behind).
-- - PubSub.antt: the abstract view, a log with a cursor for each consumer, as a step relation.
-- - Refine.antt: sequences of calls on the queue, against the traces of the abstract view
--   (Refine/View, Refine/Steps, Refine/Runs).
-- - Interleave.antt, include/Queue.h: `publish` and `consume` cut at each access to memory, as
--   step relations of one producer and 64 consumers; the invariant of the reachable states
--   (Interleave/Inv, Interleave/Invariant, with the steps in Interleave/Writer, Interleave/Rescan,
--   Interleave/Producer, Interleave/Reading, Interleave/Consumer, Interleave/Enroll,
--   Interleave/Carry and Interleave/Preserve), what follows from it (Interleave/Safety), the steps
--   that a call has left (Interleave/Progress), and the steps of one call without interruption
--   (Interleave/Solo). Interleave/Entry takes `register_consumer` apart as well, into its compare-
--   exchange and its store of the start, with the threads as they are once every start is stored
--   (Interleave/Entry/Stored, Interleave/Entry/Moves), the invariant and what follows
--   (Interleave/Entry/Invariant, Interleave/Entry/Safety).
-- - Message.antt, include/Message.h: the messages, and the counters of `LoggingConsumer` from
--   include/Consumer.h (Message/Tally).
-- - WaitStrategy.antt, include/WaitStrategy.h: the three strategies as one data type, with
--   `wait_for_data`, `notify_all` and `reset` of each class and the virtual functions that choose
--   among them; what they spend their calls on (WaitStrategy/Phases) and how notifications reach
--   them (WaitStrategy/Wakeups). The eventfd is a parameter.
-- - Latency.antt, include/LatencyTracker.h: `record` and `report`; sorting (Latency/Sorting), what
--   is kept (Latency/Recording) and what is printed (Latency/Percentiles). The arithmetic on double
--   is a parameter.
-- - Consumer.antt, include/Consumer.h: `run` over a list of turns, each saying what other threads
--   do before a round and while it waits; its rounds one by one (Consumer/Rounds), Consumer/Account
--   for any turns, Consumer/InOrder and Consumer/Delivery for turns that keep the queue in order,
--   Consumer/Quiet for the end of a run, Consumer/Exact for a run with a limit and no shutdown,
--   Consumer/Supplied for one whose producer keeps pace, Consumer/Logging for `LoggingConsumer`.
-- - Producer.antt, include/Producer.h and src/main.cpp: publishing with notification, shutdown,
--   and the loop of `run_producer_mode`: its counters (Producer/Counting), its messages
--   (Producer/Sequence), and its end while the consumers keep pace (Producer/Pace).
-- - Endpoint.antt, include/Producer.h and include/Consumer.h: the constructors and destructors
--   over the segment, with the registration of a consumer, and what they leave (Endpoint/Release).
-- - Main.antt, src/main.cpp: the arguments as `main` reads them, with `std::stoi`; decimal
--   notation (Main/Numbers), the wait that the options ask for (Main/Waits) and whole command lines
--   (Main/Args). Main/Modes has the modes themselves, as functions from the answers of the system to
--   the calls made, the state reached and the outcome: what is left open (Main/Modes/Leftover,
--   Main/Modes/Outcomes, Main/Modes/Whole) and which messages a consumer has counted
--   (Main/Modes/Delivery).
-- - Demo.antt, src/demo_single_process.cpp: `consumer_thread`, over turns in the same way, round
--   by round (Demo/Rounds), with what its counters tell (Demo/Results) and with the part of the log
--   that it reads (Demo/Parts, Demo/Delivery), and with its end while the producer keeps pace
--   (Demo/Supplied). Demo/Run is its `main`, with the consumer threads as the turns of the other
--   threads: its loop against that of src/main.cpp (Demo/Run/Publishing) and its exits
--   (Demo/Run/Ends).
-- - Calibration.antt, include/Utils.h: `calibrate_cycles_per_ns` over readings of the counter and
--   the clock (Calibration/Readings).
-- - SharedMemory.antt, include/SharedMemoryManager.h: constructor, destructor and move as lists of
--   system calls, and what those leave open (SharedMemory/Release). What `std::move` leaves in the
--   old manager's name is an argument.
-- - Common.antt: Boolean tests, 64-bit words, lists, and the mask of a number, over native
--   numbers.
-- - Tests.antt: runs on concrete inputs.
--
-- Numbers: `uint64_t` is a number with its wrap-around written out in `add64` and `sub64`. The
-- invariant bounds the count of messages by 2 ^ 63. A consumer identifier is an integer, and what
-- is out of range is handled as in the source. Fuel occurs in `drain`, where one call more than
-- there are unread messages is enough, and as the list of turns in `run`, in `consumer_thread` and
-- in the producer's loop, which return none when it ends; two turns more than there are unread
-- messages are enough for a `run` after shutdown, one turn more than the limit for a `run` that
-- has a message before every round, and as many turns as messages for a producer whose consumers
-- keep pace. `kTotalMessages`, which is 1,000,000, is an argument. The other threads of a turn may
-- do anything that the theorem at hand does not exclude; for `run`, `consumer_thread` and consumer
-- mode that includes other consumers that join, read and leave, as long as the invariant of the
-- queue holds after the turn and the slot of the consumer itself is as it was (Extends in
-- Consumer/InOrder.antt). A consumer that joins outside `MayJoin` can break the invariant, and a
-- turn in which it does is excluded.
--
-- Threads: accesses are interleaved one at a time in one order, the orders that release and
-- acquire allow beyond that are not modelled. A copy of a message is two steps, so that the slot
-- holds something arbitrary in between. In Interleave.antt a registration is one step and happens
-- while the producer is outside `publish`; in Interleave/Entry it is two, at any time, and in
-- between the slot is active with the position of whoever had it before. A consumer joins at the
-- next message, in the first lap, or level with or ahead of one that has joined (`MayJoin` in
-- PubSub.antt, `MayEnter` in Interleave/Entry.antt); in Interleave/Entry the position left in the
-- slot must not be ahead of the start, and no rescan may be past the slot if it is another
-- consumer that vouches for the start. A start outside this is the subject of Queue/LateJoin and
-- of a run in Tests/Entry.
--
-- Processes: the three modes of src/main.cpp work on one `Shared`, of which each sees its own
-- shutdown flag, as each has one in the source. An exception that leaves a mode ends the process;
-- whether the constructor's own cleanup runs then is up to the implementation of C++, and
-- Endpoint.antt takes it to run.
--
-- Not modelled: the instructions behind `rdtsc` and the pause of include/Utils.h, whose values are
-- inputs; the text that is printed; the creation of threads in src/demo_single_process.cpp; the
-- accessors of include/Producer.h and include/Consumer.h, which return fields; and the alignment
-- of the structures.
pub mod Common
pub mod Queue
pub mod PubSub
pub mod Refine
pub mod Interleave
pub mod SharedMemory
pub mod Message
pub mod WaitStrategy
pub mod Latency
pub mod Calibration
pub mod Consumer
pub mod Producer
pub mod Endpoint
pub mod Main
pub mod Demo
mod Tests
