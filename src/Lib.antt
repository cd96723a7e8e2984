-- ===== src/Lib.antt =====
-- A model of OTF-CPT, the on-the-fly critical path tool for MPI and OpenMP programs, and proofs
-- about it. Paths are those of the repository.
--
-- The program. A callback of the OpenMP runtime (src/ompt-critical.cpp) or a wrapper of an MPI
-- function (include/mpi-critical.h) tells the clock of its thread (`threadClock` of
-- include/criticalPath.h) which activity the thread enters or leaves; threads that synchronise hand
-- their clocks over through a `syncClock`, processes by messages (src/mpi-critical.cpp); and
-- src/critical-core.cpp starts and stops the tool and prints model factors at the end. The tool is
-- configured by a string of flags (src/parse_flags.cpp) and carries its own containers
-- (include/containers).
--
-- The files, and what they model:
--   Common            shared names, integers over the native numbers, lists, maps as functions
--   Clock             include/criticalPath.h. State: the activities and the four clocks. Metric: what
--                     TimeMetric and DependentMetric have in common, and the two. CpClocks, Thread,
--                     Sync, Message: `cpClocks`, `threadClock`, `syncClock`, and src/mpi-critical.cpp.
--                     Activity and Accounting: an independent account of the time that each clock
--                     counts. System: threads of a process that call in any order. Atomic: the loops
--                     on atomic variables
--   Containers        include/containers/Vector.h, down to constructed and raw cells. HashMap:
--                     include/containers/CompactHashMap.h, with its chains, beside a list of pairs
--   Flags             src/parse_flags.cpp and include/parse_flags.h. Values: the handlers. Parser: the
--                     parser. Setup: the table of include/parse_flags.inc, and the initialisation.
--                     Grammar: what a text of settings is, beside the parser
--   Requests          include/tracking.h and include/handle-data.h: request handles
--   Tool              World: the state of one process with its threads, tasks and pools. Action: a
--                     state monad with failure, and the calls on clocks. Measure: the start and the
--                     stop of the measurement, src/critical-core.cpp, and `finishMeasurement` for one
--                     process. Pop: its reduction over the processes, and the efficiencies
--   Mpi               include/mpi-critical.h. Rank: a process, and the log of its MPI calls. Blocking,
--                     Pending, Persistent, Probe: the classes around MPI functions, and the callbacks
--                     of requests. Traffic, Carries, Completes, Exchanged, Restarts, Probed: what a
--                     message brings along
--   Openmp            src/ompt-critical.cpp. Pool: `DataPool`. Objects: `New`, `Init`, `Reset`,
--                     `Delete`. Threads, Regions, Dependences, Create, Schedule, Locks: the callbacks
--                     by topic. Returns: rules by which a callback is followed, and what each keeps.
--                     Calls: any sequence of callbacks, up to the end of the measurement. Order: what
--                     threads hand over at dependences, at the end of a task and at barriers
--
-- How the code is read. `none` is a read of a null pointer or before the begin of a vector, a
-- mutex that is held, or fuel that ran out. A callback is one step: what runs under the locks of
-- the tool, or on thread-local data, is not split further, and neither are calls on a
-- synchronisation clock: they are locked in the build with `DependentMetric`, and not in that
-- with `TimeMetric`, where how they interleave is not followed, and the loops on atomic variables
-- are split in Clock/Atomic. A call of the parser that ends the program, or writes out of bounds,
-- has a result of its own. The functions of the C library are parameters, and so are the
-- constants of the MPI library and what it delivers. Between the two ends of a class around an
-- MPI function the tool is neither started nor stopped. An object is a number, and the clocks of
-- an object stand under that number. The times that `getTime()` returns are an arbitrary
-- sequence. Times are integers and their quotients fractions, so rounding of doubles is left out.
-- Counters are numbers without a bound.
--
-- Fuel. The loop of `freeTask` gets one round more than tasks were made: a round that goes on has
-- cleared the parent of a task, so the rounds do not run out. A chain of the hash map is followed for as
-- many items as the map has, a capacity is doubled as often as the size that is needed, and the parser
-- gets a round more than the text has bytes, of which each setting takes one at least.
--
-- What the OpenMP runtime is taken to guarantee is `Allowed` of Openmp/Calls.antt: it passes
-- pointers that the tool has stored, it calls back on threads that have begun, each of them once
-- and after the tool was initialised, on tasks with the team, the parent and the taskgroup that
-- the callback reads, a task that completes was made by another one, and a lock is acquired when
-- it is free.
--
-- Not modelled: the end of a thread, which deletes its pools, the printing of the results, the counters
-- of MPI calls, the wrappers of the MPI functions that complete requests, the offsets of the timers,
-- strings and streams, the Fortran wrappers, and the code under external.
pub mod Common
pub mod Clock
pub mod Containers
pub mod Flags
pub mod Requests
pub mod Tool
pub mod Mpi
pub mod Openmp
