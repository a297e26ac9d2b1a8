-- ===== src/Lib.antt =====
-- k.h: a small object library for C, with reference counting, containers and thread primitives.
--
-- Parts. Every object of the library begins with a control block, which counts its references
-- (src/kobject.c). Arrays (src/karray.c) keep objects in a buffer (src/kallocation.c); lists
-- (src/klist.c) keep them in entries linked both ways; maps (src/kmap.c) are an array of lists of
-- entries, over a hash and an equality that the caller brings, such as those of strings
-- (src/kstring.c, src/khash.c). A pool (src/kautorelease.c) is an array of objects to release later,
-- a mapping (src/kmapping.c) keeps an object alive, a path (src/kfile_path.c) is a list of strings,
-- a mutex (src/kmutex.c) is a semaphore (src/ksemaphore.c) with count 1, and a countdown latch
-- (src/kcountdown_latch.c) is a count under a condition variable (src/kcondition_variable.c). A worker
-- pool (src/kworker_pool.c) is threads (src/kthread.c) that take tasks off a list under a condition
-- variable, and a file (src/kfile_handle.c) is opened by a path and read through a mapping. Messages
-- (src/klogging.c) are formatted strings.
--
-- Files. World holds the state that operations share, and the results of a run; World/Returns is
-- total correctness: the run returns, with a result and a state as described. Base has the names
-- and lemmas that all use. Each part has a file with its name, which has a record for the C struct
-- and a definition for each function, by the function's name without the prefix: KList.add_object
-- is `KListAddObject`. Its children hold the lemmas and the theorems, by subject; KMap passes on the
-- types and the constructors of KMap/Alloc. Tests runs them.
--
-- State. A `World` has the control blocks and the list entries by address, and counts the requests
-- to the allocator, which may answer each as it likes. An object that one owner reads and writes,
-- such as an array or a map, is a value that its operations return changed; NULL is `none`. Inside a
-- map the bucket array, the bucket lists and the entries are values, since no pointer to them leaves
-- the map; keys and values are objects with counts in the world. A read of freed or missing memory
-- is a fault, a failed assertion an abort, and neither returns.
--
-- Threads. KWorkerPool and KCountdownLatch/Waiters are step relations: any number of threads, each at
-- a place in the code of the functions that they call (`KWorkerPoolWorkerMain`,
-- `KWorkerPoolPostTask` and `KWorkerPoolShutdown`, or the two of the latch), take steps in any
-- order. The children prove the invariants by induction on the steps, one subject each: in the pool
-- the lock, the tasks, the wake-ups, what follows a shutdown, progress, and the join. The pool's
-- list of tasks is there the sequence that KList keeps, and pthread's calls
-- succeed, except that a join may fail where two threads join one worker.
-- KWorkerPool/Calls has the same functions as calls of the other parts by one thread, for the
-- references that they take and give up. KSemaphore/Permits has threads that wait for a
-- semaphore and signal it, over what is documented of the system's. KMap/History runs
-- sequences of map operations against a function from keys to values, and KList/History and
-- KArray/History runs of theirs against a sequence of objects, for which KObject/Owned has what
-- happens to the reference counts.
--
-- Systems. A part that differs by system has the POSIX branches in its own file, and the others in a
-- child: KFileHandle/Windows, KThread/Windows, KConditionVariable/Windows, KSemaphore/Windows and
-- KSemaphore/Darwin. What is the same on all systems is shown once: KFileHandle/Uses is over any
-- system's branches, which KFileHandle/Closed and KFileHandle/Windows/Used fill in, and
-- KConditionVariable/Windows/Same compares Windows with the others.
--
-- Bounds and fuel. Pointers and `size_t` have 64 bits, reference counts 32. A loop over a list has
-- one round more than the list has entries, which is enough for each loop of a linked list.
-- An allocation of size 0 is
-- undefined, so an array of 2 ^ 28 objects takes no more, and a map stays below 2 ^ 27 entries.
-- `KMapSetValue` and `KMapRehashIfNecessary` call one another; the depth is 64, and each rehash
-- doubles the buckets, so a depth n is enough for less than 2 ^ n entries for each bucket.
-- A system call is repeated while it is interrupted, on fuel: one round more than the interruptions.
--
-- Parameters. `Env` has the allocator and the class's initialisers and deinitialisers. That
-- deinitialisers are leaves means that they return and change neither a count nor a list entry.
-- `Pthread` says which pthread calls succeed, `Semaphores` has the system's semaphores, `Files` its
-- calls for files, `Threads` those for threads, and `Console` those for messages. What `vsnprintf`
-- makes of a format is an argument. `KArrayNew` is assumed to return where a map rehashes: it reads
-- through NULL when the second of its two requests is refused.
--
-- Not modelled: ktime.c, which reads the clock and divides doubles, the headers' macros, and
-- `KFilePathAddComponent`, after which two paths share their strings. An atomic
-- operation on a count is one step; threads are interleaved in the worker pool, the latch and the
-- semaphore.
-- The double quotient of the load factor is compared with 1 by comparing the counts, which agrees
-- for counts below 2 ^ 53.
pub mod Base
pub mod World
pub mod KObject
pub mod KAllocation
pub mod KArray
pub mod KList
pub mod KMap
pub mod KHash
pub mod KConditionVariable
pub mod KCountdownLatch
pub mod KString
pub mod KMapping
pub mod KFilePath
pub mod KSemaphore
pub mod KMutex
pub mod KAutorelease
pub mod KWorkerPool
pub mod KFileHandle
pub mod KLogging
pub mod KThread
pub mod Tests
