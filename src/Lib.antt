-- ===== src/Lib.antt =====
-- The C implementation of ZeroIPC, and a part of the C++ implementation: data structures in a shared
-- memory segment, which several processes use at once.
--
-- A segment starts with a table of named regions (c/src/table.c, c/src/table_layout.h). Each data
-- structure is one region: its create function takes the region from the table, its open function finds
-- it there, and from then on the processes touch only the region, by atomic loads, stores and
-- compare-exchanges. The C files are independent of each other but for the table. The read-write lock
-- of C++ has two mutexes, each a semaphore of one permit. The table, the queue and the stack of C++
-- stand in the same bytes as those of C, so their models share the state of the C models; what differs
-- is how they find the bytes of an element (`offset` of C, `typed_offset` of C++).
--
--   Base     shared names: machine words with their wrap-around, arrays as functions of the index,
--            the Boolean tests, C's int32_t as an integer, sums over the threads, and the byte
--            offset of an element (Base/Offsets).
--   Table    table.c: zeroipc_table_add, _find, _remove and _count as functions on the header and
--            the raw array of entries; the invariant of the table (Table/Valid), and what the
--            operations do (Table/Add, Table/Lookup, Table/Remove, Table/Search). Table/Init is the
--            table that zeroipc_memory_create of memory.c writes.
--   Array    array.c: zeroipc_array_create, _open, _get and _set on the table, the array headers and
--            the bytes of the payloads.
--   Queue    queue.c: zeroipc_queue_push and _pop as a step function, one access to shared memory at a
--            time, with all locals of the C function in the place where the thread stands (Queue.step),
--            and zeroipc_queue_empty, _full and _size as functions of the two counters that they load
--            one after the other. Queue/System interleaves any number of threads; Queue/Tickets is the
--            invariant, Queue/Safety what follows from it; Queue/Alone is about a thread that has the
--            queue for itself, and Queue/Create about the capacity and the initial state that
--            zeroipc_queue_create gives a queue. Queue/Open has the checks of zeroipc_queue_open.
--   Stack    stack.c: zeroipc_stack_push, _pop and _top in the same way, with the bounded spins and
--            the undo of a reservation. Stack/Slots is the invariant of any interleaving, Stack/Lifo
--            is about a thread that has the stack for itself.
--   Latch    latch.c: zeroipc_latch_count_down, _wait, _try_wait and _wait_timeout.
--   Barrier  barrier.c: zeroipc_barrier_wait and _wait_timeout.
--   Ffi      ffi.c: the queue and stack functions on a raw header, beside those of queue.c (Ffi/Same)
--            and stack.c (Ffi/SameStack).
--   Segments memory.c: zeroipc_memory_create, _open and _close over the answers of the operating
--            system (`Answers`), with the calls that they make of it in their order (`Event`); the
--            open of the name tells whether a segment of the name existed.
--   Semaphore
--            cpp/include/zeroipc/semaphore.h: acquire, acquire_for, try_acquire and release access by
--            access. Semaphore/Permits is about any semaphore, Semaphore/Lock about one that is
--            a mutex (mutex.h).
--   Rwlock   cpp/include/zeroipc/rwlock.h: its locking methods access by access; an access to one of
--            its mutexes is a step of Semaphore. Rwlock/Views projects a place onto each mutex and
--            holds the invariant, Rwlock/After, Moves and Stores keep it, Rwlock/Safety draws from it.
--   Once     cpp/include/zeroipc/once.h: call and already_called access by access.
--   CppTable cpp/include/zeroipc/table.h: initialize, validate, allocate, find and add, and of
--            cpp/include/zeroipc/memory.h allocate, find, at and ptr_at. CppTable/Allocate compares
--            them with table.c, CppTable/Interop is about a table that two programs use with different
--            numbers of entries.
--   Structures
--            what the constructors of the next six headers, of map.h and of set.h do in a segment:
--            `construct` allocates the region and writes its header, `attach` finds and checks it
--            (Structures/Reopen).
--   CppQueue cpp/include/zeroipc/queue.h: push and pop access by access, beside queue.c
--            (CppQueue/Same), and the constructors (CppQueue/Create).
--   CppStack cpp/include/zeroipc/stack.h: push, pop and top access by access, beside stack.c
--            (CppStack/Same), and the constructors (CppStack/Create).
--   CppLatch cpp/include/zeroipc/latch.h: count_down, wait, try_wait and wait_for access by access,
--            beside latch.c (CppLatch/Same), and the constructors (CppLatch/Create).
--   CppBarrier
--            cpp/include/zeroipc/barrier.h: wait and wait_for access by access, beside barrier.c
--            (CppBarrier/Same), and the constructors (CppBarrier/Create).
--   Pool     cpp/include/zeroipc/pool.h: allocate and deallocate access by access, with the generation
--            in the head of the free list. Pool/System interleaves the threads, Pool/Chain, Owners,
--            Moves, Changes and Steps hold the invariant, Pool/Safety draws from it, Pool/Create has
--            the constructors.
--   Ring     cpp/include/zeroipc/ring.h: write, write_bulk, read and read_bulk access by access, for
--            one producer and one consumer (Ring/System). Ring/Cells, Stream, Copies, Writes and Reads
--            hold the invariant, Ring/Fifo draws from it, Ring/Create has the constructors.
--   Map      cpp/include/zeroipc/map.h and detail/hash.h: insert, find, erase, contains and clear as
--            calls one after another. Map/Valid is the invariant, Map/Scan and Sound are about the
--            loops, Map/Lookup, Changes and Calls about the functions, Map/Create about the
--            constructors.
--   Set      cpp/include/zeroipc/set.h: insert, contains, erase and clear, on the table of Map without
--            values, and the constructors (Set/Create).
--
-- An interleaving is a sequence of steps (`Step`, `Reach` in each System module): a thread enters a
-- call, makes one access, or leaves a call that has come to its return. A compare-exchange that may
-- fail spuriously does so at the choice of the step (`lost`), and whether the clock is past a timeout
-- is a choice too (`late`). Fields that the modules call not in the program only record what happened.
--
-- Bounds. A uint32_t counter is a number that each store reduces modulo 2 ^ 32, and an int32_t that C
-- computes with is an integer. queue.c, stack.c and ffi.c find an element at a product of 32 bits,
-- which wraps, and `offset` does so; the theorems about the contents of a queue or a stack are about
-- elements of at least one byte that have at most 2 ^ 32 bytes all together, so that no two share a
-- byte, and those about slots alone are about every element size. The concurrent theorems about the
-- queue are about fewer than 2 ^ 32 pushes, those about a queue at rest are about every number of them.
-- `run_alone` has fuel 6 for one call: with no other thread a call makes at most five accesses before
-- its return, and the theorems on calls of one thread state that the call returns. The loop that rounds
-- a capacity up has fuel too, 64 rounds where it ends. The count of a C++ semaphore wraps as an int32_t
-- does where release increments it; its waiting threads and the readers of a lock are integers, which
-- overflow only with 2 ^ 31 threads. The threads of a read-write lock are those below a number `n`. The
-- theorems about the pool are about fewer than 2 ^ 32 - 1 replacements of its head, so that no
-- generation comes twice, and those about the ring about fewer than 2 ^ 63 bytes in all. The scans of
-- the map and the set recurse on the probes that are left, and the wait for a slot on the observations
-- that are left, 10000 at first, as the loops count them.
--
-- Not modelled: the order of memory accesses that are weaker than sequentially consistent, the bytes of
-- an element (one memcpy is one access of one value, which stands at the offset of its first byte), the
-- names and pointers of the process-local handles, NULL handles of the queue, stack, latch and barrier
-- (answered before any access), sleeping and yielding, crashed processes (but for the slots that they
-- leave in a map or set), the layout that the create functions of queue.c and stack.c compute, what the
-- open functions of queue.c, stack.c, latch.c and barrier.c do in the table, the constructors and
-- guards of the C++ locks, what memory.h asks of the operating system, Pool::construct and
-- Pool::destroy, interleavings on a map or a set and their keys that are not unsigned integers, and the
-- other headers of cpp/include/zeroipc. The command line program cpp/tools/zeroipc.cpp is input and
-- output around the library.
pub mod Base
pub mod Table
pub mod CppTable
pub mod Structures
pub mod CppQueue
pub mod CppStack
pub mod Queue
pub mod Stack
pub mod Semaphore
pub mod Rwlock
pub mod Once
pub mod Pool
pub mod Ring
pub mod Map
pub mod Set
pub mod Segments
pub mod Array
pub mod Latch
pub mod CppLatch
pub mod Ffi
pub mod Barrier
pub mod CppBarrier
