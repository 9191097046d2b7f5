-- ===== src/Lib.antt =====
-- seakcutils: single-header C libraries of containers, arenas, strings, channels and a wait group.
--
-- Each component is a header of its own and has a module of its own:
-- - Deque: data_structures/deque.h. A ring buffer with running `int64_t` head and tail; leaving
--   `int64_t` is a fault. Deque.Spec is the bounded list that it implements.
-- - Stack: data_structures/stack.h. A buffer that is filled from its end; a pointer into it is an
--   offset, and a pointer to freed storage is a value of its own.
-- - Arena: arenas/arena.h. An array with a fixed, cyclic or growing capacity.
-- - StringArena: arenas/string_arena.h. Zero-terminated strings in one buffer.
-- - Strings: strings/mystrings.h. Bits and letter case of bytes.
-- - Channel and Mpmc: channels/channels.h and channels/mpmc.h. Channel has the slots and the two
--   machines of a send and a receive, Mpmc the channel and any number of them.
--   Mpmc.Published, Mpmc.Drain, Mpmc.Graceful and Mpmc.Lost follow its elements past the closing.
-- - Mpsc and Spmc: channels/mpsc.h and channels/spmc.h. The sender of Mpmc with one receiver that
--   does not wait, and the whole of Mpmc with one sender.
-- - ThreadPool: threadpool/threadpool.h. The threads of a pool, the calls that submit a job and the
--   shutdown, as steps over the system of Mpmc: a worker is the receiver of its number.
--   ThreadPool.Books has the jobs in each worker's hand, ThreadPool.Moves the steps of the channel,
--   ThreadPool.Handles the handles that are not closed yet.
-- - JobSystem: job_system/jobsystem.h. Jobs that follow one another, over the places of RegionArena
--   and a queue that is taken for the channel, as no theorem says that the channel amounts to it;
--   a receiver may give up an element of it once it is closed, as mpmc_recv does. JobSystem.Reset has
--   the reset of the arena beside the threads, JobSystem.Effects what their steps do to its counters,
--   JobSystem.Worker the threads in steps, JobSystem.Token the place of a chain among them,
--   JobSystem.Start the pool, JobSystem.Shutdown the shutdown beside the threads, and
--   JobSystem.Budget what is left to do after it.
-- - Spsc: channels/spsc.h. One sender and one receiver on a ring.
-- - RegionArena: arenas/r_arena.h. Regions of equal size with epochs, one call at a time;
--   RegionArena.Spec is the list with bounded room that it implements.
-- - LinkedList: data_structures/linkedlist.h. Nodes at addresses in a heap that the calls pass on;
--   LinkedList.Heap has the heap, a log of what was written at which address, and `malloc`.
-- - Yield: yield/yield.h. The contexts of cooperative tasks; the assembly of `yield` and
--   `remake_ctx` as functions on registers and the words of a stack.
-- - WaitGroup: wait_group/waitg.h. One atomic counter.
-- Base has what they share: lists over native numbers, machine words (`size_t` wraps at 2 ^ 64),
-- and `Run`, the result of code that may touch storage out of range, divide by zero or overflow a
-- signed integer. Window and Stored say which part of a buffer holds a given list.
--
-- An element is a value of any type, and stands for `elem_size` bytes; in a linked list, which
-- compares them, it is the list of its bytes. `malloc` and `realloc` are parameters, with what the
-- C library documents of them as hypotheses where they are needed.
-- A function of a channel is split at its shared accesses: each step makes one, and a run is a list
-- of the steps of all threads in the order in which they take effect. Weaker memory orders than
-- that are not modelled; the loops of a blocked send or receive are steps that stay where they are,
-- so no fuel is needed. Tickets are counted modulo 2 ^ 64, and the theorems bound the number of
-- steps where a wrap would matter.
--
-- Not modelled: functions that only print; alignment, padding and `cpu_relax`, which do not change a
-- result; the failure of a `malloc` for a handle of a channel; benchmarks.
pub mod Base
pub mod Window
pub mod Stored
pub mod Channel
pub mod Mpmc
pub mod Spsc
pub mod Mpsc
pub mod Spmc
pub mod Deque
pub mod Stack
pub mod LinkedList
pub mod Arena
pub mod Strings
pub mod StringArena
pub mod WaitGroup
pub mod RegionArena
pub mod Yield
pub mod ThreadPool
pub mod JobSystem
