-- ===== src/Lib.antt =====
-- A verification library for BroadcastService, which builds broadcast and agreement primitives on top of
-- UDP links.
--
-- The program. `io/transport` turns UDP into perfect links: packets and acknowledgements are stored in
-- byte buffers (`payload.hpp`), and resent until they are acknowledged. On the links stand the
-- primitives: `BestEffortBroadcast` sends a message to every process, `UniformReliableBroadcast` delivers
-- it once more than half of the network has it, `FIFOBroadcast` puts the deliveries of each process in
-- order, and `LatticeAgreement` decides, round by round, sets that contain one another. The applications
-- read the command line and the file of hosts, broadcast or propose, and log what is delivered or
-- decided. `concurrency` and `util` hold the containers and futures that they use, and a wheel of
-- timers calls the links to send again.
--
-- The files, and the code they model (paths from the repository's root):
--   Base: shared types, Boolean tests, lists and sets.
--   Util: include/util/set_operation.hpp (`SetOperation`); `Dict` and `HashSet` stand for
--     std::unordered_map and std::unordered_set; `RateLimit` is for the rate limiters of
--     include/primitives/uniform_reliable_broadcast.hpp and lattice_agreement.hpp; `IntrusiveList` is
--     for include/util/instrusive_list.hpp, with the memory that holds the pointers, and `Result` for
--     include/util/result.hpp.
--   Concurrency: include/concurrency/mrmw_map.hpp, mrmw_set.hpp, budget.hpp and task_queue.hpp;
--     `Futures` is for shared_state.hpp, rendezvous.hpp, promise.hpp, future.hpp and combine.hpp there,
--     with the two steps of each side of a shared state; `FiberSync` is for fiber_sync.hpp and
--     wait_group.hpp, `Queue` for queue.hpp, `ThreadPool` for src/runtime/thread_pool.cpp, and `Strand`
--     for include/runtime/strand_impl.hpp; the threads of the last two interleave at their atomic
--     operations.
--   Timers: include/io/timer.hpp, include/io/timer_service.hpp and src/io/timer_service.cpp
--     (`TimerService`), and the timers of include/io/transport/backoff_retry.hpp (`BackoffRetry`). The
--     ticks that have gone by are a parameter.
--   Hosts: include/parser.hpp (`Text`, `Parser`, `HostsFile`) and include/io/transport/hosts.hpp
--     (`HostsTable`). The files' lines and the addresses of names are parameters.
--   Applications: include/applications/fifo.hpp (`Message`, `Fifo`), perfect_links.hpp (`PerfectLinks`)
--     and lattice_agreement.hpp (`DecisionLog`, `Proposing`); `Batching` is the two loops over the rate
--     limiter, and `Waiting` the wait for the futures of a batch. The input's lines, the results of the
--     futures, and the messages that come between two proposals are parameters.
--   Transport: include/io/transport/payload.hpp (`Bytes`, `Packet`, `AckMessage`), backoff_retry.hpp
--     (`RetryPolicy`), fairloss_channel.hpp (`FairLossChannel`), reliable_channel.hpp
--     (`ReliableChannel`) and reliable_transport.hpp (`ReliableTransport`). What the socket answers and
--     the next timeout of a policy are parameters.
--   Primitives/BestEffortBroadcast, Primitives/UniformReliableBroadcast, Primitives/FifoBroadcast,
--   Primitives/LatticeAgreement: the header of that name in include/primitives. A class is a record, a
--     method is a function of the same name in snake_case from the state to the new state; a failed
--     assertion is `none`. Calls of the transport are recorded in `sent`, those of the callback in `log`
--     or `decided`.
--   Primitives/LatticeAgreement/Consensus: one round of lattice agreement at all processes, which run the
--     bodies of the handlers, `answer` and `react`, on their states; Proposer/Refinement and
--     Acceptor/Refinement relate the handlers to these bodies. The links deliver each message at most
--     once, in any order, or never.
--   Each component has a module `Tests` with runs at concrete inputs.
--
-- Bounds. Bytes are numbers, and a w-bit integer wraps with `% 2 ^ w`. The loops over the elements of a
-- vector recurse on it; `erase_segment` and `grow` run on fuel that is the number of their rounds, and
-- one for the last test. In Consensus a process that has used all numbers of proposals handles no
-- more answers, since a number that wraps could be mistaken for an earlier one.
--
-- In Applications the fuel of a loop is above the number of messages, of which a round handles
-- at least one; in DecisionLog it is above the size of the cache, from which a round erases.
--
-- Not modelled: threads, fibers and locks (each handler runs as one step, as the strands and locks of
-- the program make it; where the two sides of a future meet, among the calls of `All`, in a strand and in the
-- thread pool, steps interleave); sockets and the event loop, which are calls of the operating system or
-- whose calls are recorded;
-- logging and statistics, which are output; the configuration files of the applications and the start
-- of the process.
pub mod Base
pub mod Util
pub mod Concurrency
pub mod Timers
pub mod Hosts
pub mod Transport
pub mod Primitives
pub mod Applications
