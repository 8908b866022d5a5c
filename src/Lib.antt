-- ===== src/Lib.antt =====
-- Nexus serves neural networks on a cluster of GPUs. The dispatcher gathers the queries of each
-- model into batches and hands every batch to a GPU so that all its queries meet their deadlines.
-- This library models the core of the dispatcher with several threads, src/nexus/dispatcher/rankmt/,
-- and the structures that it stands on, and proves what makes them correct.
--
-- How the parts interact. A model thread (model_thread.cpp) collects the queries of a model in the
-- order of their deadlines (query_context.h), lets the batch policy (batch_policy.cpp) choose the
-- batch, and posts a candidate, the window of time in which the batch can start, to the rank thread
-- (rank_thread.cpp). The rank thread keeps candidates and GPUs in two splay maps ranked by time
-- (common/value_ranked_splay_map.h) and grants a GPU to a model. The model thread then sends the
-- batch plan, and gives the GPU back with the time when it is free again.
--
-- Files and sources (paths below src/nexus/):
--   Splay, Splay/Tree, Splay/Map   common/value_ranked_splay_map.h. `plug`, `rotate_node` and
--     `splay_node` are RotateNode and SplayNode on a subtree and its frames, which stand for the
--     parent pointers; `upsert`, `remove`, `get_by_key`, `get_by_rank`, `rank`,
--     `count_less_equal` are the public operations, with the tree they leave. The other files of
--     Splay/ hold proofs: the order of entries (Order, Locate), sizes (Size, Cut), removal (Removal),
--     searches (Search), the list that a map stands for (Contents, Refinement), reads (Reads, Keys,
--     Values).
--   Query                          dispatcher/query_context.h
--   Profile                        what is used of ModelProfile (common/model_db.h)
--   BatchPolicy                    dispatcher/batch_policy.cpp: `drop_timeouts`, `expand` and
--     `sanity_check` are the three parts of GetBatchByExpandedWindow, `update` is Update
--   Rankmt                         dispatcher/rankmt/common.h, and the messages between threads
--   Rankmt/ModelThread             dispatcher/rankmt/model_thread.cpp: EnqueueQuery, UpdateCandidate,
--     OnDropTimer, DoGrantedGpuMessage, SendDroppedQueries, Poll
--   Rankmt/RankThread/State, /Handlers, /Control   dispatcher/rankmt/rank_thread.cpp, one function
--     for each member function
--     The other files of RankThread/ hold proofs: the plan pool (Plans), the pool of GPUs (GpuPool,
--     GpuChanges), grants (Grants), the two timers (GpuTimer, PlanTimer), Removal and Resumption.
--   Rankmt/Protocol                rank thread and model threads side by side: `act` is an event of one
--     thread, `run` a sequence of them in any order. `take_granted` and `enqueue_command` are parts of
--     ModelThread::Poll. Proofs: the token of each model (Turns), the events of model threads
--     (ModelSteps), of polls (Updates), timers (Timers) and additions (Additions), and runs (Safe).
--     `allowed` is what the threads around see to. The CHECKs are not guarded: an event that is not
--     allowed may end in a fault.
--   Rankmt/Handover                a GPU on its way from OnPlanTimer to DoGrantedGpuMessage
--   Rankmt/ModelThread/Control     its constructor, Stop and the Post* functions
--   Rankmt/ModelThread/TargetSize  its UpdateTargetBatchSize
--   Rankmt/Scheduler               dispatcher/rankmt/scheduler.cpp
--   RpsMeter                       common/rps_meter.cpp
--   BatchSize                      dispatcher/batch_size_estimator.cpp
--   ModelDef                       common/model_def.h, and SplitString of common/util.cpp
--   Ario/Memory                    ../ario/memory.cpp: Allocate and Free of blocks
--   Ario/Timers                    ../ario/timerfd.cpp: the heap of timers. Its children hold proofs: the
--     places of timers (Links), the order of the heap (Order), moves in it (Moves), its end (Back),
--     Removal, Operations, and calls in any order (Ready).
--   HashMap                        common/value_ranked_hash_map.h
--   BlockQueue                     common/block_queue.h
--   ModelProfile                   the class of that name in common/model_db.cpp, on any type with the
--     operations of doubles
--   Prelude                        tests, lists, and the results of code that can fail: a failed
--     CHECK, a LOG(FATAL), std::out_of_range and a null pointer are values of `Fault`
-- The Tests modules run the definitions on small data.
--
-- Numbers. A point in time is the number of nanoseconds since TimePoint::min(), and a duration is a
-- number of nanoseconds; TimePoint::max() is 2 ^ 64 - 1. Overflow of these 64-bit numbers is not
-- modelled. Subtraction stops at TimePoint::min(). Sizes are natural numbers.
--
-- Fuel. The searches of ModelProfile and BatchSize go through the batch sizes of the table; where the
-- code goes further, the look-up past the end aborts the process. The searches of BatchSize have one
-- round more than the table, and end by then. The first loop of OnGpuTimer
-- removes an entry of the plan pool in each round, so its fuel is the size of the pool and one. In the
-- heap of timers HeapUp has the index as fuel, HeapDown and the loop of PopReadyTimerItems the size of
-- the heap: the index falls, grows, or an element is removed in each round. `splay_node` and the walks
-- in a tree recurse on frames and subtrees.
--
-- Not modelled. Doubles are any type with the operations that the code uses, so rounding is left out.
-- What UpdateTargetBatchSize returns, a size or the abort of the process, is an argument of
-- `update_candidate`: Rankmt/ModelThread/TargetSize models that function on doubles, and the two are not
-- put together. Each reading of a model thread's clock and its profile are arguments. Logging, RDMA, the
-- executor's queue and the callbacks' registration are left out: for the dispatcher a timer is the
-- time that it is set to, and Ario/Timers has no clock and no timer descriptor of the system. Mutexes
-- are left out: each stretch between two locks is one step. A call on BlockQueue without a time limit
-- that waits has no result, and with a limit the call is the step with which it ends. Memory management of nodes is left out.
-- Stop and the removal of backends are not among the events of Rankmt/Protocol. Backends, frontends,
-- the files of the model database and the single-threaded schedulers are not part of the library.
pub mod Prelude
pub mod Splay
pub mod Profile
pub mod Query
pub mod BatchPolicy
pub mod Rankmt
pub mod HashMap
pub mod BlockQueue
pub mod ModelProfile
pub mod RpsMeter
pub mod BatchSize
pub mod Ario
pub mod ModelDef
