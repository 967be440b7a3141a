-- ===== src/Lib.antt =====
-- libfibre: a user-level threading runtime. Its fibres, "freds" in the runtime's own code, run on worker
-- threads and block in user space. This library models the runtime's blocking synchronisation down to
-- the words it changes atomically.
--
-- The parts and how they meet:
--
-- A fred that blocks races with its wakers: each tries to put its address into the fred's `resumeInfo`,
-- and the winner calls `resume`. Fred models one fred's run state and that race (src/runtime/Fred.h,
-- src/runtime/Fred.cc): `resume`, `suspend`, `postSuspend`, `prepareResumeRace`, `raceResume`. The
-- primitives above see less of a fred, and all freds at once: Freds holds each fred's `resumeInfo`,
-- the queue it is blocked on, and the calls of `resume` so far.
--
-- src/runtime/BlockingSync.h stacks its primitives on class BlockingQueue, a list of fred addresses
-- under the lock of the primitive. BlockingQueue.Defs has `block`, cut at the suspension into
-- `block_enter` and `block_leave`, and `unblock`. Its clients, with one module for the operations, a
-- System of freds that call them, and modules for the proofs:
--   LockedSemaphore (P, tryP, wait, V, tryV, both values of Binary), LockedMutex (acquire, release, both
--   values of Fifo), LockedRwLock (class LockedRWLock: acquireRead, acquireWrite, release).
-- LockedBarrier has that barrier and the signals of class Condition.
-- SpinCondMutex is the default mutex of fibres, which spins on a word and sleeps in a ConditionalQueue, with
-- the recursion that class OwnerMutex adds. FastMutex is the other mutex, class SpinSemMutex over
-- FredBenaphore and LimitedSemaphore0; SimpleMutex is SimpleMutex0 over Benaphore and LimitedSemaphore0. In
-- both a fred that has to wait pushes itself to the lock-free queue of LimitedSemaphore, which a releasing
-- fred pops. FastBarrier is the barrier over such a queue. TimerQueue orders the freds that wait with a
-- timeout, and races for them with their wakers when the timer goes off.
-- SynchronizedFlag is the flag with which a fred joins another, with class Joinable's result.
--
-- Below them are the spin locks of src/runtime/SpinLocks.h, in SpinLocks.Ticket, SpinLocks.Owner (class
-- BinaryOwnerLock), SpinLocks.Binary, SpinLocks.Barrier and SpinLocks.Rw (class SpinLockRW), the benaphore of src/runtime/Benaphore.h, and
-- the singly linked Stack and Queue and the doubly linked Ring and List of src/runtime/Container.h, over
-- heaps of links. IdleManager is the class of src/runtime/Scheduler.h that matches ready freds with idle
-- processors, GoManager the class of that name in builds with TESTING_GO_IDLEMANAGER, with the processors' searches of
-- ready queues under their locks (TESTING_LOCKED_READYQUEUE), Scheduler the ring of
-- processors there, a Ring, and Time the class of src/runtime/Basics.h in which timeouts are given.
-- Processor is class ReadyQueue with the searches of class BaseProcessor (src/runtime/BaseProcessor.h,
-- src/runtime/BaseProcessor.cc): `resume` ends in `enqueueResume`, which counts the fred with the idle
-- manager and puts it in a ready queue, and a processor that the idle manager's counter lets through
-- searches its own queue and then the ring. Cluster is the pausing of all workers
-- (src/libfibre/Cluster.cc), which goes round that ring.
--
-- How the code is read:
--   * A function that runs under a lock is one step from the lock's acquisition to its release; where it
--     suspends it is cut, and what it does after the resumption is a step of its own. Code without a
--     lock is cut at each access to shared memory. Interleavings are all sequences of steps, in one
--     order that all threads agree on. Spinning and pausing are left out, as they change no state.
--   * A failed assertion (RASSERT) is `none`, or a constructor of its own; such a call has no step.
--     Those of LockedSemaphore::wait and LockedRWLock::release are left out, so that more calls have a step.
--   * Addresses are numbers, 0 is the null pointer. `size_t` wraps around at 2 ^ 64 where a counter could
--     get there. `ssize_t`, and the words of a time, are unbounded integers, since their overflow is
--     undefined in C++.
--   * A timeout may win its race at any moment; there is no clock. TimerQueue takes the time as an
--     argument of each check.
--   * Loops over a list or a count recurse on it. The loops that double a vector or go from key to key have
--     fuel, as many rounds as the index or the keys, which theorems show to be enough; only the search of a
--     hierarchical bitmap from a position on, the loop of `Spin` and the rounds of the processors' ring take
--     their fuel as an argument, the last two with the amount that suffices.
--
-- Platform has the arithmetic of src/runtime/Platform.h on words of 64 bits, alignment and bit searches, and
-- Bitmap the flat and hierarchical bitmaps of src/runtime/Bitmap.h over it. FibreSpecific is the class of
-- src/libfibre/Fibre.h that keeps fibre-local values, whose keys are such a bitmap.
--
-- Not modelled: the inside of the lock-free queues, which are read as sequences, and of MCSLock; the
-- semaphore of MCSTimeoutSemaphore.h and the queue of ConditionalNemesisQueue.h; the poll of a worker,
-- which `searchAll` takes as an argument; GoManager's searches over ready queues without a lock in `enqueue`;
-- and, as outside, stack switching in assembly, system calls,
-- statistics and debugging, start-up, and the wrappers of src/libfibre around operating-system locks.
pub mod Base
pub mod FibreSpecific
pub mod Fred
pub mod Freds
pub mod BlockingQueue
pub mod LockedSemaphore
pub mod LimitedSemaphore
pub mod LockedBarrier
pub mod LockedMutex
pub mod FastMutex
pub mod FastBarrier
pub mod SimpleMutex
pub mod LockedRwLock
pub mod Container
pub mod Cluster
pub mod Benaphore
pub mod Bitmap
pub mod SynchronizedFlag
pub mod IdleManager
pub mod GoManager
pub mod Platform
pub mod Processor
pub mod Scheduler
pub mod SpinCondMutex
pub mod SpinLocks
pub mod Time
pub mod TimerQueue
