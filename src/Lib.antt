-- ===== src/Lib.antt =====
-- The abt-st load balancer (https://github.com/lwanfuturewei/abtst): user loads run on execution
-- streams of Argobots, one stream per core, and a rebalancer moves loads between streams so that no
-- stream is much deeper than another. This library models the C sources of the repository and proves
-- what its operations keep and compute.
--
-- The parts of the program, and the files that model them:
--   include/list.h                       LinkedList: the links over a memory of nodes. LinkedList/Ring
--                                        says what a ring stands for, Add and Delete what insertion and
--                                        removal do to it.
--   include/load.h, src/load/load.c      Load (the load and its counters), Load/Init (making loads and
--                                        dealing them out), Load/Next (the search for a stream),
--                                        Load/Free; Load/RoundRobin, Order, Deal and Even are about
--                                        the dealing out.
--   include/abtst_stream.h,              Stream (queues, moving, combining, rebalancing two streams),
--   src/stream/stream.c                  Stream/Stat (depths), Stream/Lifecycle (making and ending);
--                                        Stream/Move, Combine, Choose, Rebalance, Balance and Shift
--                                        are the proofs about moving loads, Quiet about the rest;
--                                        Steps is an abstract view of the moves, Placed and Rehoused
--                                        what they keep, Noted about the statistics and Sizes about when
--                                        measuring does not overflow; Stream/Display models
--                                        the bars that are printed, with Shown about them.
--   include/env.h, src/arch/env.c        Env, Env/Sysfs (the files of /sys), Env/Update (statistics of
--                                        the NUMAs);
--                                        Env/Nodes, Lookup and Average are the proofs
--   include/mapping.h, include/hash.h,   Mapping, Mapping/Hash: from the key of a request to a load;
--   src/mapping                          Mapping/Table and Create (mappings and their functions),
--                                        Mapping/Served (from a key to a stream)
--   include/partition.h,                 Partition, Partition/Map (who owns a core), Partition/Room
--   src/partition/partition.c            and Stats (the statistics)
--   include/power.h, src/power/power.c   Power, Power/Estimate, Power/Defined
--   include/abt_st.h                     Global: the whole state
--   src/sched/sched.c                    Sched: making and freeing schedulers
--   src/sched/base.c                     Sched/Units (the calls of Argobots), Sched/Data (a scheduler's
--                                        data), Sched/Pass (the scheduler of a stream); Sched/Laws says
--                                        what is relied on, Step, Sending, Requeue, Swept, Steps, Ready and
--                                        Sweep are about a pass over the pool, Turns about the rounds;
--                                        Orderly, Bound, Delivery and Tour are about passes of many
--                                        streams, Relocated about those after loads were moved.
--   src/sched/sub.c                      Sched/Data, Sched/Batch (the scheduler of a load), with Drain
--                                        about a batch and Saved about the data
--   src/rebalance/rebalance.c            Rebalance/Sorting (the sorted lists), InPartition, InNuma and
--                                        BetweenNumas (levels 1 to 3), PowerSaving, Round (the thread);
--                                        Rebalance/Ready and InPartition/Containment are about level 1,
--                                        InNuma/Given and InNuma/Faults about level 2, Round/Kept and
--                                        Round/Rounds about rounds at the default level. Inside and
--                                        Across show every level to be moves of Stream/Steps, for
--                                        Placement and, on rounds at any level, for Round/Lasting;
--                                        Followed joins level 1 with the schedulers.
--   src/rebalance/reb_req.c              Rebalance/Requests, with the removal and addition of cores
--   include/spinlock.h                   Rebalance/Requests/Lock: the lock, and the threads that share
--                                        the queue of requests; Exclusion, Moves and Order are about these.
--   src/app                              App (start and end of the library), App/Submit (requests),
--                                        App/Main (main as a whole); App/Applied, Started and Serving
--                                        are about the start, App/Submitted, Totals and UnderWay
--                                        about the requests under way, App/Ended about the end
-- Common holds what they share; Examples computes on a small machine.
--
-- How the parts interact: the rebalancer renews the statistics of streams, partitions, NUMAs and
-- power from the store of streams and loads, sorts streams by depth, and calls the two operations
-- that move loads, which go through the queue of a stream. The scheduler of a stream sees a load's new
-- destination in `dest_rank`, sends the unit that runs the load to the pool of that stream, and sets
-- `curr_rank`, in which map_key_to_xstream finds the stream of a key.
--
-- How the C state is modelled:
--   - a stream is named by its index in the array of streams, a load by its address; the store holds
--     both. A queue is the list of the addresses in it, which is what the theorems on rings say that a
--     linked list stands for. An array is a function of its index;
--   - `int` is an unbounded integer, `uint32_t` and `uint64_t` are natural numbers modulo 2 ^ 32 and
--     2 ^ 64, with the conversions written out. A comparison with `1.5 *` in double precision is exact
--     on these ints, so it is `2 * a < 3 * b`;
--   - `none` as the result of an operation is behaviour that C leaves undefined: a division by zero,
--     an access through NULL or to an array that was freed, a write past the statistics of the
--     partitions, an int that overflows in a sum of sizes or in a product with the interval. The
--     statistics of NUMAs and of power and the array of streams are not bounds-checked;
--   - a partition number is a natural number, and where the code has -1 there is an option.
--
-- Parameters: Argobots is the record `Abt` of the calls that make and end things, of which nothing is
-- assumed but where `IsWorking` or `MakesStreams` says that none fails, and the record `Units` of those
-- that the run functions make. `IsQueue` says that a pool is a queue, `IsTame` that what a unit runs
-- leaves the streams, their pools and the ranks alone. `qsort` is a
-- function, of which `IsSort` says that it permutes its entries into ascending order. What sysconf,
-- /sys and rand() give is an argument, strtoul and sscanf are functions. A failing malloc or calloc is
-- modelled where a flag says so.
--
-- Fuel: the walk through a linked list has fuel, of which one more than the number of nodes is enough.
-- The thread's loop, which need not end, is watched for any number of rounds; what the schedulers do
-- meanwhile is a function that changes the store. The loops of the levels run over lists or count
-- down the rounds that are left.
--
-- A pass over a pool has fuel for its rounds, of which one more than the units in the pool is enough; a
-- batch of a load's scheduler needs 16 rounds in a pool and two over the pools. The scheduler's own loop
-- ends only when it is told to stop, so its rounds are counted too.
--
-- A submission in src/app/main.c is one step; the end of a request is two, as its thread frees the slot
-- before it reads the load there. The theorem on these is for any slots, of which the program has 1024.
--
-- Passes of several streams are taken one after another, in any order; each has the fuel that its pool
-- needs. The rounds of main's loop are counted, as the clock ends it.
--
-- An entry of the queue of requests has the address that malloc gave, which the loop over the queue saves.
-- The threads that share the queue are places in the code, by the thread's number; a step is one atomic
-- access of the lock, or what a thread does to the queue while it has the lock. Ghost lists record the
-- requests that were accepted, taken out and handled.
--
-- Not modelled: printing but for the bars of the streams (a round of the rebalancer is undefined where
-- printing these is), starting and joining threads, freeing of memory (sched_free, sub_sched_free,
-- abtst_free), the clock and the command line, and the utilities and tests.
-- A pass of a scheduler and an operation of the rebalancer are each taken without another thread in
-- their midst: the counters of a load, which the schedulers change at any time, are read as they are
-- when an operation starts.
pub mod Common
pub mod LinkedList
pub mod Env
pub mod Abt
pub mod Sched
pub mod Load
pub mod Stream
pub mod Mapping
pub mod Partition
pub mod Power
pub mod Global
pub mod Rebalance
pub mod Examples
pub mod App
