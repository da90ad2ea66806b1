-- ===== src/Lib.antt =====
-- UringFiber: N:M coroutines over io_uring. This library models the program's parts and proves what they
-- do. Paths are from the repository's root.
--
-- The parts, from the bottom up:
--   LfQueue   thread_safe/lockfree_queue.hpp, the queue that all other parts share. `Packed` is the word
--             `counted_node_ptr`; `Node` the nodes with their two reference counts; `Machine.step` one
--             access of shared memory by `push` or `pop`, for a thread that stands at a `Pc`; `make` the
--             constructor. For calls that do not overlap, a queue at rest is a chain of nodes
--             (`Chain.AtRest`), and `Fifo` compares histories of calls with a list. `Threads` interleaves
--             the accesses of any number of threads, `Ownership` follows the objects, and `Loss` is a `push`
--             that is overtaken. `Safe` keeps the two reference counts: what a thread refers to (`role`), and
--             what the words and the counts say of it (`Safe.Sound`), so that `Safe.Faults` can tell which
--             nodes are there. `Destroy` is the destructor, when no thread uses the queue any more.
--   CoMutex   sync/co_mutex.hpp. `advance` is one access of the atomic word by `lock`, `unlock` or
--             `try_lock`; `System` interleaves any number of tasks in any order.
--   Channel   sync/co_chan.hpp. `Body` is what `Close`, `operator<<` and `operator>>` do under the lock of
--             `mtx_`, `Calls` adds the lock and the unlock. A parked task's `isError` and the receivers'
--             variables are kept in the channel's state.
--             `Handles` is `CoChan`: handles that can be copied, over a store of shared channels.
--   Engine    io_uring/io_uring_engine.cpp. `exec` is `Exec`, `wait_result` is `WaitResult`; the answers
--             of liburing are arguments.
--   Hook      hook/fd_desc.cpp and hook/hook.cpp. `Fds` is the table of descriptor records, `Calls` the
--             hooked calls that keep it, `Io` those that transfer data or wait, as the way they take: the C
--             library or io_uring. What the C library returns is an argument. `Whole` joins a hooked call
--             with the engine's request and completion, up to its return, and `Resumed` with the thread that
--             reads the completion. `Limit` is `FdLim` and the length of the table. `Shown` is what
--             each descriptor shows after a call.
--   Scheduler scheduler/scheduler.cpp. How functions pass from `IOSubmit` to `IOSubmitThread`:
--             `thread_step` is one access of that thread, `caller_step` one of a call of `IOSubmit` or
--             `Stop`, and a `run` interleaves any number of callers in any order. `IoWait` is
--             `IOWaitThread`, by rounds, with the `AddTask` of a list; `Starting` is `Start`.
--   Pool      processer/task_pool.hpp. `get` and `get_out` are the two `Get`s, `release` is `Release`, over
--             the heap of tasks and the list of the idle ones; `run_task` is `TaskFunc`, up to its `Yield`.
--             Calls on the pool do not overlap.
--   Balance   scheduler/scheduler.cpp and processer/processer.cpp, as far as tasks come to processors and move
--             between them: `add_task` is `Scheduler::AddTask`, `load_balance` is `LoadBalance`, and `steal`,
--             `add_tasks` and `add_func` are those of `Processer`. The operations of `float` are an interface.
--   Processer processer/processer.cpp: the coroutines of one processor. `yield`, `suspend_task` and
--             `finish_task` are `Yield`, `SuspendTask` and the end of `TaskFunc`; `swap_to` is a switch to a
--             context, which calls `AfterLastSche` first, wherever it was left. `Waiting` is the thread that
--             sleeps in `Wait`, and the calls that wake it: `start_step` and `wait_step` are one access of
--             `Start` and `Wait`, `adder_step` and `wake_step` one of `AddTask`, `Stop` and `WakeUp`. What
--             its coroutines do to the queue meanwhile is any sequence of the moves of `Yield`.
--   Context   context/stack.cpp and context/context.cpp: the memory of a stack, its page test, and the
--             constructor of a context. The answers of the system calls are arguments.
--   Prelude   shared names: tests on numbers, lists, integers.
--
-- How they meet: a hooked call parks its task and hands a request to `Exec`; the completion that
-- `WaitResult` reads names the task to resume. Channels take a `CoMutex`, which keeps its waiters in an
-- `LFQueue`; since no waiter ever enters it, the mutex is modelled over a list; so is the pool of idle
-- tasks. The scheduler's `ioQueue_` and the processor's `runnableQueue_` are lists too: one `push` or `pop`
-- of them is one step, and since `LFQueue` can lose what is pushed (`LfQueue.Loss`), a run may lose any of
-- their elements at any time (`lose`).
--
-- Numbers: addresses and counts are natural numbers with their wrap-around written out (48 and 16 bits in
-- a packed word, 30 and 2 in a node's counts, 31 in the mutex, 32 in `int`). Numbers of system headers are
-- those of Linux. Memory is sequentially consistent: the weaker orders that the queue asks for are not
-- modelled. An uninitialised variable is an argument, an access that is undefined has a result of its
-- own (`fault`, `undefined`, `dangling`, or `none`). No function takes fuel in place of a loop's own bound
-- but `alone`, whose number of accesses is the exact length of a call, and `pop_all`, for which any number
-- above that of the objects in the queue is enough.
--
-- Assumptions on the text of the program: `std::make_unique<Task>(p)` on a `Task*`, which does not compile
-- as it stands, is read as the transfer of `p`. A channel's calls do not overlap but where one is parked.
-- `Processer::Yield` reads a status through a pointer that is null by then: what that read gives is an
-- argument, a trap or any status, and the theorems about `Yield` hold for each of them.
-- Not modelled: the sleep between two balancings in `Start` of the scheduler; set-up and tear-down of the
-- ring, which are calls of liburing; ucontext; the experiments (iouring_cat.c, after a tutorial of
-- io_uring, and the programs test_*); and hook/malloc.cpp, which only forwards.
mod Prelude
pub mod CoMutex
pub mod Channel
pub mod Engine
pub mod Hook
pub mod LfQueue
pub mod Scheduler
pub mod Pool
pub mod Processer
pub mod Balance
pub mod Context
