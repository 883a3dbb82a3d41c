-- ===== src/Lib.antt =====
-- Verification library of cgo, a coroutine runtime for C++ in src/include/core and src/core.
--
-- A context runs tasks in partitions. Each partition has an allocator that owns its tasks, a run
-- queue, a heap of timers and an epoll handler; a worker thread runs one batch of each in turn. A
-- task that cannot go on waits in the condition of a semaphore, and `release` moves it back to the
-- run queue of its partition. A channel is a buffer with queues of waiting senders and receivers,
-- each waiting on a semaphore of its own, or on that of a select whose cases wait on many channels.
--
-- Files, and the code that they model:
--   Base            shared helpers: the library's names, booleans, updates of functions, lists
--   Linked          `BaseLinked` of src/include/core/coroutine.h on a heap of links; Chain, Queue,
--                   Remove and Uses relate it to the list of the nodes between two sentinels
--   Sched           tasks, run queues and contexts of src/include/core/schedule.h; Spinlock,
--                   Signal, Condition, Semaphore and Run translate src/core/schedule.cpp; Permits
--                   and Wakeup study the interleavings of tasks on one semaphore, Latch a lazy
--                   signal, Run/Accounts, Run/Final and Run/Held the life of a task, Places where each task is;
--                   Defer translates `DeferGuard`
--   Channel         messages of src/include/core/channel.h and src/core/channel.cpp; Transfer
--                   translates `TypeChannel` and `BaseChannel`, Ops the coroutines of `Channel`, Collect
--                   `collect`;
--                   Kept, Buffer, Invariant, Receiving, Drain and Sending carry the invariant of a
--                   channel, Linked says which messages wait, Simplex, Fifo and Offer the order of delivery, Stale what happens at a
--                   select that has fired
--   Select          `Select` of the same files; Dropped; Runs, Offered and Waiting for channels and
--                   selects together
--   Timed           `TimedContext` of src/include/core/timed.h and src/core/timed.cpp; Order,
--                   Announce, Loops and Expiry; Sleep adds `sleep` and `timeout`
--   Event           `Event` and `EventContext::Handler` of src/include/core/event.h and
--                   src/core/event.cpp; Contexts the handlers of a context; Registry and Uses;
--                   Flags the flags of epoll; Wakeups the `EventLazySignal`
--   Frame           `BaseFrame` and `FrameOperator` of src/include/core/coroutine.h and
--                   src/core/coroutine.cpp; Stack has the links of promises, Calls the calls as a
--                   plain list, Refine, Agree and Execute relate the two; Ends, Unwind, Caught, Destroy and
--                   Moving study the loop, exceptions, destruction and moves; Values has what coroutines
--                   return and yield
--   Context         `Context` of src/include/core/context.h and src/core/context.cpp: starting,
--                   stopping and the barriers; Worker is the loop of `_run`; Phases, Joining and
--                   Worker/Polls
--   Socket          `Socket` of src/include/core/event.h and src/core/socket.cpp over system calls;
--                   Decision is the race of event and timer, Transfer the transfers of bytes, Setup
--                   the other calls; Loops, Sending, Receiving and Liveness
-- Functions keep the names of the code without its leading underscores, and `mod` is `mod_event`.
-- A module named Tests applies the theorems at concrete states.
--
-- Conventions. Objects are addresses, and the state is a record of functions from addresses. What a
-- spinlock guards is one step (Sched/Spinlock has the lock itself), so a coroutine is cut where it
-- suspends, and threads interleave between steps. Queues of tasks and messages are lists, front
-- first, as Linked justifies. Counters of type `size_t` wrap at 2 ^ 64, event ids at 2 ^ 32. A
-- thrown exception is `none`, a flag or the status `raised`. Loops over a queue or over partitions
-- are structural. Others have fuel and give `none`, or the outcome `out_of_fuel`, when it runs out:
-- `_execute`, for the resumptions of one task, since the task's coroutine decides when it stops;
-- `_call_stack_execute`, where two rounds for each resumption until coroutines stop awaiting, and one
-- for each coroutine on the stack, are enough; `_call_stack_destroy`, with one round more than there
-- are coroutines; the loops of sockets, with a round for each byte and each call that would block;
-- and the loop of `_run`, with a round more than it takes until the context is finished.
--
-- Given from outside: the bodies of coroutines (the record `Bodies` for tasks, the environment `act`
-- for frames), what the destruction of a task's frames does (its destructors and guards), the readings of the clock, the answers of epoll and its flags, eventfds, the system
-- calls of sockets (the record `Os`), the callbacks that run while a socket waits, the order in which
-- workers go on, the addresses of new objects, and the order that `std::shuffle` gives to the cases
-- of a select. Not modelled: the locals of tasks, which no code here reads, and the move semantics
-- of values (a moved-from object keeps its value).
pub mod Base
pub mod Linked
pub mod Frame
pub mod Sched
pub mod Channel
pub mod Select
pub mod Timed
pub mod Context
pub mod Event
pub mod Socket
