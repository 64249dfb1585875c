-- ===== src/Threads/Tests.antt =====
-- Concrete runs of the threads of CS330_projects/proj1.
use cs_courses.Base.{
  ℕ, ◌*◌, ◌≡◌, refl, Bool, true, false, Option, none, some, List, [], ◌∷◌, ℤ, pos, ltb_ℤ, ◌==◌,
  if◌then◌else◌, arith,
}
use cs_courses.Threads.{
  running, blocked, lock_acquire, lock_donate, lock_down, lock_taken, lock_hold, Thread, Semaphore,
  Lock, Kernel, Run, ok, panic, fault, priority_of,
}
use cs_courses.Threads.Sync.{
  plain, in_lock, put_semaphore, then_do, set_waiting, end_acquire, set_holder, donate, try_acquire,
  release, up_at,
}
use cs_courses.Threads.Timer.{wake_loop}
use cs_courses.Threads.Step.{init_thread, perform, call, work, Reach, start, later}
use cs_courses.Threads.Frame.{value_of}
use cs_courses.Threads.Exclusion.{claims, IsExclusive}
use cs_courses.Threads.Exclusion.Reachable.{IsStart, Reach-IsExclusive}
use cs_courses.Threads.Donation.{last, next, Donated, donate-Donated}
use cs_courses.Threads.Sleep.{Woken, wake_loop-Woken}
use cs_courses.Threads.Mlfqs.{eval_recentcpu, cpu_of, eval_recentcpu-nice}

-- Thread 1 runs at 31, thread 2 is idle; 3 has priority 10, 4 has 5 and 5 has 20.
abbrev base_priority : ℕ → ℤ
base_priority t =
    if t == 1
    then pos 31
    else if t == 2
    then pos 0
    else if t == 3
    then pos 10
    else if t == 4
    then pos 5
    else pos 20

abbrev sample_thread : ℕ → Thread
sample_thread t = record (init_thread (base_priority t)) {
  tid = t;
  status = if t == 1 then running else blocked;
  wakeup_time = t * 2;
  nice = pos t;
  recent_cpu = pos 70000;
}

abbrev sema_of : ℕ → List ℕ → Semaphore
sema_of n ws = record { value = n; waiters = ws; priority = pos 0 }

abbrev free_lock : Lock
free_lock = record { holder = none; semaphore = sema_of 1 [] }

abbrev boot : Kernel
boot = record {
  thread = sample_thread;
  sema = λ s. sema_of 0 [];
  lock = λ l. free_lock;
  cond = λ c. [];
  todo = λ t. [];
  ready_list = [];
  wait_list = [];
  init_wlist = true;
  current = 1;
  idle_thread = some 2;
  mlfqs = false;
  next_tid = 6;
  ticks = 7;
  thread_ticks = 0;
  idle_ticks = 0;
  kernel_ticks = 0;
  intr_context = false;
}

boot-IsStart : IsStart boot
boot-IsStart = record { free = λ l. refl; unheld = λ l. refl; outside = λ t. refl }

-- Thread 1 acquires lock 5.
abbrev called : Kernel
called = then_do (lock_acquire 5 ∷ []) boot

abbrev donating : Kernel
donating = set_waiting 1 (some 5) (then_do (lock_donate 5 ∷ []) called)

abbrev asking : Kernel
asking = then_do (lock_down 5 ∷ []) donating

abbrev taking : Kernel
taking = then_do (lock_taken 5 ∷ []) (put_semaphore (in_lock 5) (sema_of 0 []) asking)

abbrev settling : Kernel
settling = end_acquire 5 (then_do (lock_hold 5 ∷ []) taking)

abbrev having : Kernel
having = set_holder 5 (some 1) (then_do [] settling)

having-Reach : Reach boot having
unfolding perform
having-Reach =
    later
      (later
        (later
          (later
            (later (later start (call (lock_acquire 5) refl refl))
              (work 3 (lock_acquire 5) [] refl refl))
            (work 3 (lock_donate 5) [] refl refl))
          (work 3 (lock_down 5) [] refl refl))
        (work 3 (lock_taken 5) [] refl refl))
      (work 3 (lock_hold 5) [] refl refl)

Reach-IsExclusive_example : IsExclusive (value_of having) (claims having)
Reach-IsExclusive_example = Reach-IsExclusive boot having boot-IsStart having-Reach

having-claims : claims having 5 1 ≡ true
having-claims = refl

-- Threads 4 and 3 wait for semaphore 7, and thread 5 is ready.
abbrev waiting_room : Kernel
waiting_room = record boot {
  sema = λ s. sema_of 0 (if s == 7 then 4 ∷ 3 ∷ [] else []);
  ready_list = 5 ∷ [];
}

abbrev ready_after : Run Kernel → List ℕ
ready_after (ok k) = k.ready_list
ready_after _ = 999 ∷ []

up_run : ready_after (up_at (plain 7) waiting_room) ≡ (5 ∷ 3 ∷ [])
unfolding up_at
up_run = refl

-- An interrupt handler that wakes a thread above the interrupted one fails the assertion of thread_yield.
interrupt_up_run :
    up_at (plain 7) (record waiting_room { current = 2; intr_context = true }) ≡ panic
unfolding up_at
interrupt_up_run = refl

-- Thread 3 holds lock 5 and waits for lock 6, which thread 4 holds.
abbrev held_by : Option ℕ → Option ℕ → Kernel
held_by first second = record boot {
  thread = λ t. record (sample_thread t) { waiting = if t == 3 then some 6 else none };
  lock = λ l. record {
    holder = if l == 5 then first else if l == 6 then second else none;
    semaphore = sema_of 0 [];
  };
}

donate-Donated_example :
    Donated
      (held_by (some 3) (some 4))
      (pos 31)
      (3 ∷ 4 ∷ [])
      (donate 2 5 (held_by (some 3) (some 4)))
donate-Donated_example =
    donate-Donated 2 (held_by (some 3) (some 4)) 5 3 (3 ∷ 4 ∷ [])
      (next {l' = 6} refl refl (last refl refl)) (omega arith) refl refl

-- The holder of lock 5 waits for lock 6, which nobody holds any more.
stale_wait_run : donate 1 5 (held_by (some 3) none) ≡ fault
unfolding donate
stale_wait_run = refl

-- Threads 3 and 4 sleep up to ticks 6 and 8; it is tick 7.
wake_loop-Woken_example : Woken (λ t. t * 2) (3 ∷ 4 ∷ []) boot (wake_loop (3 ∷ 4 ∷ []) boot)
wake_loop-Woken_example =
    wake_loop-Woken (λ t. t * 2) (3 ∷ 4 ∷ []) boot (refl, (refl, tt)) ((omega arith, tt), (tt, tt))
      ((refl, tt), (tt, tt)) (refl, (refl, tt))

abbrev sleeping : Kernel
sleeping = record boot { wait_list = 3 ∷ 4 ∷ [] }

eval_recentcpu-nice_example : cpu_of (eval_recentcpu (pos 16384) sleeping) 3 ≡ pos 3
eval_recentcpu-nice_example = eval_recentcpu-nice 16384 sleeping 3 refl

-- A thread of priority 20 is ready in front of thread 3, which holds the lock. The donation makes thread
-- 3 the highest, but leaves it behind in the ready list: thread 5 runs next.
abbrev inverted : Kernel
inverted = record (held_by (some 3) none) { thread = sample_thread; ready_list = 5 ∷ 3 ∷ [] }

abbrev front : Run Kernel → List ℕ
front (ok k) = if ltb_ℤ (priority_of k 5) (priority_of k 3) then k.ready_list else []
front _ = []

donation_leaves_order : front (donate 1 5 inverted) ≡ (5 ∷ 3 ∷ [])
unfolding donate
donation_leaves_order = refl

-- A lock taken by lock_try_acquire cannot be released.
abbrev released : Run (Kernel × Bool) → Run Kernel
released (ok (k, b)) = release 5 [] (set_holder 5 (some k.current) k)
released _ = fault

try_release_run : released (try_acquire 5 [] boot) ≡ panic
unfolding try_acquire release
try_release_run = refl
