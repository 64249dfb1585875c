-- ===== src/Lib.antt =====
-- Verified models of C programs in this repository: a shell with job control, and the lists,
-- strings, standard library, threads, bitmaps, page allocator, hash tables, open files and file
-- descriptors of a teaching kernel. Base holds what they share (numbers, tests, lists, signed
-- integers, maps). Threads stands on KernelList, and Palloc on Bitmap, Files on Inode and the
-- results of Bitmap, Syscalls on Files; the others are independent of one another.
--
-- Shell models CS230_projects/shelllab/tsh.c.
--   Shell/Jobs is the job table: struct job_t, nextjid and clearjob, initjobs, maxjid, addjob,
--   deletejob, fgpid, getjobpid, getjobjid, pid2jid, listjobs. The table is a list of MAXJOBS slots,
--   a pointer into it an index with the slot it points at. Stored pids and jids are natural numbers,
--   since addjob refuses pids below 1; arguments are integers. What is printed or sent by kill is a
--   trace. Shell/Jobs/Table has the counting and searching lemmas, Invariant the well-formed tables,
--   Add and Delete the two updates.
--   Shell/Signals has sigchld_handler, sigint_handler and sigtstp_handler as steps; what waitpid
--   reports is an argument. A handler is taken to run to its end: Signal leaves the other signals
--   unblocked, but a handler inside another is not modelled. Safety is about any sequence of them.
--   Shell/Control has waitfg, do_bgfg and builtin_cmd. waitfg polls once per sleep(1); a wait runs
--   over a schedule that lists the signals of each sleep, and ends as `waiting` when the schedule is
--   used up. atoi is the C library's and is a parameter, as is the content of the variable that
--   do_bgfg reads before it is set. Signals that come in between two statements of
--   do_bgfg, or between the test of waitfg's loop and the read behind it, are not modelled.
--   Shell/Parse is parseline, with a result `none` for an access outside an array; its loop has one
--   round of fuel more than the line has characters, which is enough.
--   Shell/Eval is the parent branch of eval; the pid that fork returns is an argument. main, the
--   child behind fork, Signal and the error printers are not modelled.
--
-- KernelList models CS330_projects/proj1/lib/kernel/list.c (proj2 has the same file): all its
--   functions but the accessors list_head and list_tail, on a heap that gives each element's prev and
--   next. The pointer to a list is never NULL. A failed ASSERT is `panic`, the dereference of NULL is
--   `fault`; loops run on fuel, and one round more than the list has elements is enough for those
--   that are proved. less, with its auxiliary data, is a parameter. KernelList.antt has the functions
--   without loops and KernelList/Walk those with loops; Links is the heap, Path and Shape say what a
--   list looks like, Insert, Remove and Ends are about the updates, Walk/Read and Walk/Order about
--   the loops. list_splice, list_reverse, list_unique and list_sort are definitions, most with test
--   runs.
--
-- CString models CS330_projects/proj1/lib/string.c: all its functions, on a memory of bytes by address;
--   pointer sums do not wrap, as all objects lie inside the address space. A loop that a null
--   terminator ends runs on fuel, and one round more than the string has characters is enough. Copy,
--   Compare and Text hold the theorems; the search functions and strtok_r are definitions,
--   some with test runs.
--
-- Stdlib models CS330_projects/proj1/lib/stdlib.c: atoi, the heap sort and binary_search; qsort and
--   bsearch, which only pass their comparison on, are left out. An array is its elements by number, a
--   string its characters before the terminator, and compare a parameter. The loops of heapify and
--   binary_search run on fuel, and one round more than the array has elements is enough. An int that
--   overflows is `none`. Sort is about what is rearranged, Heap and Sorted about the order,
--   Search about binary_search and Number about atoi.
--
-- Threads models CS330_projects/proj1/threads/thread.c and synch.c and devices/timer.c. A thread is
--   the number of its page, the state (Kernel) holds the threads, locks and semaphores by address and
--   the queues as sequences; Threads/Queues says that list_insert_ordered of KernelList does to a
--   linked list what insert_ordered does to such a sequence. Threads.antt has the state and the
--   scheduler, Sync the operations of synch.c, Timer timer_sleep, timer_interrupt and thread_tick,
--   Mlfqs the formulas of the feedback scheduler. Step has the threads as a step relation: each has a
--   list of what it still has to do inside the kernel (todo), in pieces, and a step is one piece of
--   the current thread, a new call, or a tick of the timer. The locks are cut at each change of a
--   semaphore or a holder; the donation of lock_acquire, the bookkeeping of waiting and sema_list,
--   thread_create up to allocate_tid and cond_wait up to lock_release are a piece each, so what the
--   timer could do inside them is left out. thread_yield and thread_block test that no interrupt
--   handler runs and that the thread is running; the other routines that handlers may not call are
--   modelled outside of them. Frame says what the operations leave alone; Exclusion is about locks
--   (Claims: who has one, Steps and Holder: how a routine changes one, Perform: each operation,
--   Reachable: every run), Order about the ready list and sema_up, Donation about priorities, Sleep
--   about the sleeping threads. The loop of the nested donation runs on fuel, and as much as threads
--   are on the chain is enough. Ints do not overflow, the semaphore inside a lock is used by the lock
--   alone, and the page of a new thread is an argument. Thread start-up, the idle loop, stack frames,
--   the freeing of dying threads and the busy waits are left out.
--
-- Bitmap models CS330_projects/proj1/lib/kernel/bitmap.c: the words of 32 bits are a function of their
--   index, and the masks work on numbers in binary. Loops run over the bits of a range. Base/Bits
--   has the digits of a word, Single the operations on one bit, Range those on a range, Scan the
--   search for a free range. Files of bitmaps are left out.
--
-- Palloc models CS330_projects/proj1/threads/palloc.c on top of Bitmap: the two pools, where each
--   bitmap lies, and the bytes of the memory outside the bitmaps. Init is about palloc_init, Blocks
--   about palloc_get_multiple and Free about palloc_free_multiple.
--
-- Hash models CS330_projects/proj1/lib/kernel/hash.c: the table has a sequence of elements in each
--   bucket; hash and less are parameters, and malloc's answer is an argument. Hash/Bytes has
--   hash_bytes, hash_string and hash_int, Chains is about one bucket, Table says what a table is,
--   Rehash is about rehash, Update has the operations against a finite set, and Visit hash_apply,
--   hash_clear and the iterators. The loop that looks for a power of 2 runs on fuel, and as many
--   rounds as the number is large are enough.
--
-- Inode models the data of a file in CS330_projects/proj2/filesys/inode.c: inode_read_at and
--   inode_write_at with byte_to_sector, on a disk that gives the bytes of each sector. Linear puts
--   the sectors in one row, Read and Write are about the two loops, RoundTrip about both. A round
--   moves at least one byte, so a round of fuel more than there are bytes is enough. Offsets do not
--   overflow.
--
-- Files models CS330_projects/proj2/filesys/file.c and the open inodes of inode.c, on top of Inode:
--   the blocks of struct inode and struct file in use, with their addresses, and the calls of
--   free_map_release as a trace. Store and Counts are about the blocks and the counts that an inode
--   keeps, Holders about those who hold it, Inodes, References and Opened about each operation,
--   Reachable about every sequence of calls and Denied about writes. malloc's answers are arguments.
--
-- Syscalls models the calls on files in CS330_projects/proj2/userprog/syscall.c, on top of Files:
--   SYS_OPEN behind dir_lookup, SYS_FILESIZE, SYS_READ, SYS_WRITE, SYS_SEEK, SYS_TELL, SYS_CLOSE and
--   the loop of SYS_EXIT over the descriptors. Each call is one step, since filesys_lock is held, and
--   starts behind the tests of the user's addresses. What is typed is an argument, and what is
--   printed a trace. Owned says what a process in order is, Calls and Open are about each call,
--   Session about sequences of calls.
--
-- Not modelled: the rest of the kernel (block allocator, directories and free map, processes), the
--   other course projects, the C++ and Python programs, drivers and tests.
mod Base
pub mod CString
pub mod KernelList
pub mod Shell
pub mod Stdlib
pub mod Threads
pub mod Bitmap
pub mod Palloc
pub mod Hash
pub mod Files
pub mod Inode
pub mod Syscalls
