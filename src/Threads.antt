-- ===== src/Threads.antt =====
-- The threads of the teaching kernel: the state that CS330_projects/proj1/threads/thread.c, synch.c and
-- devices/timer.c share, and the scheduler of thread.c. A `struct thread *` is the number of its page,
-- and a list is the sequence of its elements; KernelList says what the linked lists do. `ready`,
-- `waiting` and the like hold what the lists of the same name hold. An `int` is an integer that does
-- not overflow. Interrupts are off inside the routines that turn them off, so each is one step.
-- `intr_context` says whether an interrupt handler runs; sema_down, the locks, the condition variables and
-- thread_exit, which no handler may call, are modelled where it is false.
pub mod Sync
pub mod Timer
pub mod Step
pub mod Frame
pub mod Exclusion
pub mod Order
pub mod Donation
pub mod Sleep
pub mod Mlfqs
pub mod Queues
mod Tests
use cs_courses.Base.{
  ℕ, ◌+◌, Bool, true, false, not, Option, none, some, List, [], ◌∷◌, ℤ, ltb_ℤ, max_ℤ, ◌==◌,
  if◌then◌else◌, update,
}

-- enum thread_status
pub data Status : Type 0 where
  running ready blocked dying : Status

-- What a thread still has to do inside the routines of the kernel, in the pieces that run without
-- another thread in between. lock_acquire goes on with `lock_donate`, `lock_down` (its sema_down),
-- `lock_taken` (waiting and sema_list) and `lock_hold` (holder), lock_try_acquire with `lock_hold`,
-- and lock_release with `lock_free` (holder) and `lock_up` (its sema_up); `bump_tid` the middle of
-- allocate_tid, `thread_start` the end of thread_create.
pub data Op : Type 0 where
  sema_down sema_up : ℕ → Op
  lock_acquire lock_donate lock_down lock_taken lock_hold : ℕ → Op
  lock_release lock_free lock_up lock_try_acquire : ℕ → Op
  cond_wait : ℕ → ℕ → ℕ → Op
  cond_signal cond_broadcast : ℕ → ℕ → Op
  thread_create : ℕ → ℤ → Op
  bump_tid thread_start : ℕ → Op
  thread_yield thread_exit : Op
  thread_set_priority thread_set_nice timer_sleep : ℤ → Op

-- struct thread
pub record Thread : Type 0 where
  pub tid : ℕ
  pub status : Status
  pub priority : ℤ
  pub orig_priority : ℤ
  pub sema_list : List ℕ
  pub waiting : Option ℕ
  pub wakeup_time : ℕ
  pub nice : ℤ
  pub recent_cpu : ℤ

-- struct semaphore
pub record Semaphore : Type 0 where
  pub value : ℕ
  pub waiters : List ℕ
  pub priority : ℤ

-- struct lock
pub record Lock : Type 0 where
  pub holder : Option ℕ
  pub semaphore : Semaphore

-- The globals, and by address the objects that they lead to.
pub record Kernel : Type 0 where
  pub thread : ℕ → Thread
  pub sema : ℕ → Semaphore
  pub lock : ℕ → Lock
  pub cond : ℕ → List ℕ
  pub todo : ℕ → List Op
  pub ready_list : List ℕ
  pub wait_list : List ℕ
  pub init_wlist : Bool
  pub current : ℕ
  pub idle_thread : Option ℕ
  pub mlfqs : Bool
  pub next_tid : ℕ
  pub ticks : ℕ
  pub thread_ticks : ℕ
  pub idle_ticks : ℕ
  pub kernel_ticks : ℕ
  pub intr_context : Bool

-- A failed ASSERT is `panic`, the dereference of NULL is `fault`.
pub data Run (A : Type 0) : Type 0 where
  ok : A → Run A
  panic fault out_of_fuel : Run A

infixl 5 ◌>>=◌
abbrev pub ◌>>=◌ : {A B : Type 0} → Run A → (A → Run B) → Run B
ok a >>= rest = rest a
panic >>= rest = panic
fault >>= rest = fault
out_of_fuel >>= rest = out_of_fuel

-- list_insert_ordered
abbrev pub insert_ordered : (ℕ → ℕ → Bool) → ℕ → List ℕ → List ℕ
insert_ordered less e [] = e ∷ []
insert_ordered less e (x ∷ xs) = if less e x then e ∷ x ∷ xs else x ∷ insert_ordered less e xs

abbrev pub priority_of : Kernel → ℕ → ℤ
priority_of k t = let th = k.thread t in th.priority

abbrev pub status_of : Kernel → ℕ → Status
status_of k t = let th = k.thread t in th.status

-- cmp_prr
abbrev pub cmp_prr : Kernel → ℕ → ℕ → Bool
cmp_prr k x y = ltb_ℤ (priority_of k y) (priority_of k x)

-- cmp_prr2
abbrev pub cmp_prr2 : Kernel → ℕ → ℕ → Bool
cmp_prr2 k x y = not (cmp_prr k x y)

abbrev pub set_thread : ℕ → Thread → Kernel → Kernel
set_thread t th k = record k { thread = update k.thread t th }

abbrev pub set_status : ℕ → Status → Kernel → Kernel
set_status t st k = set_thread t (record (k.thread t) { status = st }) k

abbrev pub set_priority : ℕ → ℤ → Kernel → Kernel
set_priority t p k = set_thread t (record (k.thread t) { priority = p }) k

abbrev pub is_blocked : Status → Bool
is_blocked blocked = true
is_blocked _ = false

abbrev pub is_running : Status → Bool
is_running running = true
is_running _ = false

abbrev pub points_to : Option ℕ → ℕ → Bool
points_to none t = false
points_to (some u) t = u == t

abbrev pub insert_ready : ℕ → Kernel → Kernel
insert_ready t k = record k { ready_list = insert_ordered (cmp_prr k) t k.ready_list }

-- schedule_tail: the new thread runs, with a new time slice.
abbrev pub switch_to : ℕ → Kernel → Kernel
switch_to t k = set_status t running (record k { current = t; thread_ticks = 0 })

-- next_thread_to_run, and the switch of schedule to it
unfoldable pub run_next : Kernel → List ℕ → Run Kernel
run_next k [] = elim k.idle_thread [ none ↦ panic | some t ↦ ok (switch_to t k) ]
run_next k (t ∷ rest) = ok (switch_to t (record k { ready_list = rest }))

-- schedule
unfoldable pub schedule : Kernel → Run Kernel
unfolding run_next
schedule k =
    let curr = k.thread k.current in
    if is_running curr.status then panic else run_next k k.ready_list

-- thread_block
unfoldable pub thread_block : Kernel → Run Kernel
unfolding schedule
thread_block k =
    if k.intr_context
    then panic
    else if is_running (status_of k k.current)
    then schedule (set_status k.current blocked k)
    else panic

-- thread_unblock
unfoldable pub thread_unblock : ℕ → Kernel → Run Kernel
thread_unblock t k =
    let th = k.thread t in
    if is_blocked th.status then ok (set_status t ready (insert_ready t k)) else panic

-- thread_yield
unfoldable pub yield : Kernel → Run Kernel
unfolding schedule
yield k =
    if k.intr_context
    then panic
    else if is_running (status_of k k.current)
    then schedule (
        set_status k.current ready
          (if points_to k.idle_thread k.current then k else insert_ready k.current k))
    else panic

unfoldable pub yield_below : Kernel → List ℕ → Run Kernel
unfolding yield
yield_below k [] = ok k
yield_below k (t ∷ rest) =
    if ltb_ℤ (priority_of k k.current) (priority_of k t) then yield k else ok k

-- yield_if_nonmax
unfoldable pub yield_if_nonmax : Kernel → Run Kernel
unfolding yield_below
yield_if_nonmax k = yield_below k k.ready_list

-- The inner loop of get_max_priority, over the waiters of one lock.
unfoldable pub max_waiter : Kernel → ℤ → List ℕ → ℤ
max_waiter k prr [] = prr
max_waiter k prr (t ∷ ts) = max_waiter k (max_ℤ prr (priority_of k t)) ts

abbrev pub lock_waiters : Kernel → ℕ → List ℕ
lock_waiters k l = let lk = k.lock l in let s = lk.semaphore in s.waiters

unfoldable pub max_lock : Kernel → ℤ → List ℕ → ℤ
unfolding max_waiter
max_lock k prr [] = prr
max_lock k prr (l ∷ ls) = max_lock k (max_waiter k prr (lock_waiters k l)) ls

-- get_max_priority
unfoldable pub get_max_priority : Kernel → ℕ → ℤ
unfolding max_lock
get_max_priority k t = let th = k.thread t in max_lock k th.orig_priority th.sema_list
