-- ===== src/Lib.antt =====
-- Verification of Izem, a library of locks, condition variables and concurrent queues in C.
--
-- Concurrent parts are modelled one access of shared memory at a time: a record of the shared memory,
-- a data type of the places where a thread can stand with its live local variables, and a relation
-- `Move` with one constructor for each access. `Interleave` runs any number of threads in any order.
-- Memory is sequentially consistent: the acquire and release orderings of the source are not
-- modelled apart. Fields and arguments described as counts that the code does not keep are history only,
-- and no move reads them to choose what it does.
--
-- Prelude: numbers, tests, families indexed by addresses or threads, 32-bit words.
-- Interleave: threads over shared memory.
-- Lock/Fifo: the abstract first-come-first-served lock that the ticket and MCS locks refine.
-- Lock/Ticket: src/lock/zm_ticket.c. Tickets are 32-bit words that wrap round.
-- Lock/Mcs: src/lock/zm_mcs.c. The node of thread `i` is at address `i + 1`; `malloc`ed contents
-- are arbitrary. Its Binding is how a thread comes by its node.
-- Lock/Mmcs: src/lock/zm_mmcs.c, over the nodes and fields of Lock/Mcs.
-- Lock/Hmpr: src/lock/zm_hmpr.c, one operation at a time, over Cond/Skip.
-- Lock/Hmcs: src/lock/zm_hmcs.c. Level is one node of the tree of queues, Whole the lock over a tree of
-- any depth, Tree one parent with its children, Hierarchy the shape that the constructor gives it,
-- Free what the destructor frees, with fuel above the depth of the tree, Destroy both together, with
-- fuel above the number of entries of the table.
-- SdList: src/include/list/zm_sdlist.h, src/list/zm_sdlist.c, over the heap of Heap. A handle is a
-- value that the operations return anew; loops run on fuel, and one round more than there are nodes
-- is enough.
-- Hazard: src/include/mem/zm_hzdptr.h, one operation at a time; the fuel of a loop is above the
-- lengths of the lists it walks.
-- Queue/Swp: src/queue/zm_swpqueue.c, with any number of producers and one consumer, who makes
-- the tests for emptiness; its Alone, one thread at a time, as a bucket for Queue/Mpb.
-- Queue/Ms: src/queue/zm_msqueue.c, any number of enqueuers and dequeuers, with its hazard pointers;
-- `retire` is taken by its promise to free a node only when no hazard pointer holds it.
-- Lock/Priority: src/lock/zm_tlp.c and src/lock/zm_mcsp.c, over class locks taken as exclusive.
-- Queue/Bucket, Queue/Mpb: src/queue/zm_mpbqueue.c, over an interface of its buckets; one consumer
-- and no producer in the middle of an enqueue.
-- Queue/Gl: src/queue/zm_glqueue.c, between the lock and the unlock of its mutex, over the heap of
-- Heap.
-- Cond: src/cond/zm_ccond.c and src/cond/zm_scount.c; the callers hold the user's lock.
-- Cond/Skip: src/cond/zm_wskip.c, one operation at a time; the walks of `wake` run on fuel, and two
-- rounds more than the nodes passed are enough.
-- Queue/Fa: src/queue/zm_faqueue.c, one operation at a time over a list of segments; its Shared, any
-- number of producers and one consumer, where no retired segment is used again. A thread goes
-- to the place `fault` when it accesses a cell of a segment that it may not use; the retirement of a
-- segment is taken as done by a thread that has a node in the list of hazard pointers.
-- Queue/Name: src/queue/zm_queue.c, with names as lists of bytes.
--
-- Not modelled, and left to do: scans of the hazard pointers, and the operations of wskip and hmpr,
-- while other threads move; mmcs with a NULL context past the choice of its node. Not modelled: the
-- discovery of the machine's topology by hwloc; memory orderings weaker than sequential
-- consistency; the dispatch macros.
pub mod Prelude
pub mod Interleave
pub mod Lock
pub mod Hazard
pub mod Heap
pub mod SdList
pub mod Queue
pub mod Cond
