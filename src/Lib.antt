-- ===== src/Lib.antt =====
-- swm-sched: the scheduling worker of Sky Port. The daemon (src/sched-exe, src/sched-lib) reads
-- requests, runs scheduling algorithms from plugins on worker threads, and answers with timetables;
-- the plugins (src/plugins, src/plugin-lib) hold the algorithms.
--
-- PluginLib, src/plugin-lib:
--   PluginLib.Entities    the records that the scheduler reads (generated in another repository), and
--                         `RhItem`, `SchedulingInfoInterface` of src/sched-lib/ifaces
--   PluginLib.ExtendedRh  extended_rh: `check_rh_and_extract_item`, `parse_node`, `parse_part`,
--                         `parse_cluster`, `init` and the getters; Domains has its theorem
--   PluginLib.Fcfs        fcfs_implementation. The definitions are in Errors, Requests
--                         (`does_node_fit_request`), Selection (steps 2 to 4 of
--                         `schedule_single_job`), Single (`init`, `schedule_single_job`) and Schedule
--                         (`schedule`, `align_jobs`). The proofs are in Choice and Placing (one job),
--                         Returns (exceptions), History and Shift (runs, and moving them), Plan, Adding
--                         and Aligning (the loop's state against the runs), Progress, Entering and
--                         Rounds (one round), Guarantee (the result) and Fresh (the object after
--                         `init`).
-- Plugins, src/plugins and src/plugin-lib/timetable_info: what the plugins give for a request, with the
--   result of PluginLib.Fcfs for a request from its start.
-- Alg, src/sched-lib/alg: LibBinding has the calls of a plugin's functions; Algorithm is an instance of
--   an algorithm, with the calls of the plugin in its life in Life and what counts as a timetable in
--   Timetable; AlgorithmFactory loads the plugins, with the loop over the files in Files and what
--   is loaded in Loading, and makes algorithms of them, in Known.
-- Chn.Chain, src/sched-lib/chn/chain: the states of the worker and the requests. Reach has the
--   interleavings as a relation, Safety their invariant, Requests what becomes of a request.
-- Chn.ChainController, src/sched-lib/chn/chain_controller: the queue of the functions that are delegated
--   to a chain's controller, and two of these functions. Reach has the interleavings, Queue what
--   becomes of the functions; Interruption is the one of `invoke_interrupt`, and Interrupting how it ends;
--   Exchange is the one of `invoke_exchange` on both sides, Keeping what a step of a side keeps,
--   Exchanging what they agree on, Timeouts how they end.
-- Ctrl.Processor, src/sched-lib/ctrl/processor: Choice has the algorithms of a request, Answers who answers
--   it.
-- Ctrl.Receiver, src/sched-lib/ctrl/receiver: the bytes of a request; Messages has how one is written. Loop
--   is the loop of the thread, and Requests has a sequence of requests for it.
-- Ctrl.Commands, src/sched-lib/ctrl/commands, and Ctrl.SchedulingInfo, src/sched-lib/ctrl/scheduling_info:
--   how a request for a schedule is read from its slices, and the entities that it gives. Terms has
--   what the code relies on of the library `ei`, Lists and Hierarchy the parts, Slices the whole,
--   Versions what is refused.
-- Ctrl.Responses, src/sched-lib/ctrl/responses: how an answer is written. Tokens has what the code relies
--   on of `ei`, ResultTerms the terms, Written what is written, WellFormed when that is a term.
-- Ctrl.Sender, src/sched-lib/ctrl/sender: the thread that writes the answers; Draining has what it has
--   written when it ends.
-- Auxl.MyQueue, src/sched-lib/auxl/my_queue.h: the queue between the threads. Fifo compares it with a
--   list.
-- Auxl.Metrics, src/sched-lib/auxl/metrics: the named values with their handlers; Registry has what a
--   sequence of calls keeps, Telling what an update does.
-- Auxl.TimeCounter, src/sched-lib/auxl/time_counter: the working and idling times of the threads. Records
--   has what the loops over the threads do, Periods the calls and an account of the threads that are on,
--   which Threads has lemmas on, Agreement and Accounts compare the two, and Idling bounds the idle time.
-- Auxl.CliArgsParser, src/sched-lib/auxl/cli_args_parser, and SchedExe.CliArgs, src/sched-exe/cli_args: the
--   command line. Names has the flags that a name is one of, Effects what a use of a flag does, and Uses
--   compares the parser with lists of flags that are used; Checks has what the program accepts.
--
-- A reference to a node (`NodeRef *`) is a number, and the field that the code writes through it is a
-- function on these numbers, so that writes through aliases are seen. The pointers to nodes,
-- partitions and clusters are addresses with the object. A pointer to a timetable is its index. The
-- error streams are lists of messages. `uint64_t` additions are taken modulo 2 ^ 64; the theorems on
-- `schedule` ask that twice the sum of the durations is below 2 ^ 64. `std::sort` is a stable insertion
-- sort, which gives one of the orders that it may leave; the order of an `std::unordered_map` is that
-- of insertion. `ei_buffer_to_str` of the Erlang interface is a parameter, and so are the answers of
-- `forced_to_interrupt`. In the chain an algorithm's answer is an event, and what is done under a lock is
-- one step. The processor's round takes which call of a controller throws while a request is processed.
-- The clock of the time counter is read in nanoseconds.
--
-- The loops of the model are structural, over a list of the code's vector or a count, with no fuel.
-- The recursion of `apply_rh_helper` on a hierarchy has fuel, its depth: as much as the depth of the
-- hierarchy that is read is enough. A loop of a thread that runs until a flag is set takes a list of
-- events or of the flag's readings; the sender's, once it is closed, has the count of its rounds as fuel,
-- and one more than there are responses is enough.
--
-- The functions of `ei` are fields of a record, `Ei` for reading and `EiX` for writing. The theorems
-- ask of them that a call reads or adds one piece of a sequence (`Reads`, `Writes`), the second with
-- enough memory. Positions in messages are left out.
--
-- Not modelled: null pointers where the callers do not pass them; memory management; the hardware scanner,
-- the log and the input and output of bytes.
pub mod Prelude
pub mod Alg
pub mod Auxl
pub mod Chn
pub mod Ctrl
pub mod PluginLib
pub mod Plugins
pub mod SchedExe
