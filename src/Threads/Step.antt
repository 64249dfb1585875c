-- ===== src/Threads/Step.antt =====
-- Threads that call the routines of the kernel, in any order: the operations of
-- CS330_projects/proj1/threads/thread.c and synch.c as steps. A step runs one piece (Op) of
-- a routine of the current thread, and the timer may come in between two pieces. What runs with interrupts off is one
-- piece, and the locks are cut at each change of a semaphore or a holder; but the donation of lock_acquire, the
-- bookkeeping of waiting and sema_list, thread_create up to allocate_tid and cond_wait up to lock_release, which run with
-- interrupts on, are a piece each, so the interleavings inside them are left out.
use cs_courses.Base.{
  ℕ, ◌+◌, ◌≡◌, Bool, true, false, none, some, List, [], ◌∷◌, ℤ, pos, ltb_ℤ, if◌then◌else◌,
}
use cs_courses.Threads.{
  blocked, dying, Op, sema_down, sema_up, lock_acquire, lock_donate, lock_down, lock_taken,
  lock_hold, lock_release, lock_free, lock_up, lock_try_acquire, cond_wait, cond_signal,
  cond_broadcast, thread_create, bump_tid, thread_start, thread_yield, thread_exit,
  thread_set_priority, thread_set_nice, timer_sleep, Thread, Kernel, Run, ok, panic, ◌>>=◌,
  set_thread, set_status, schedule, thread_unblock, yield, yield_if_nonmax,
}
use cs_courses.Threads.Sync.{
  plain, in_lock, then_do, down_at, up_at, start_acquire, give_priority, end_acquire, set_holder,
  try_acquire, release, start_wait, signal, broadcast,
}
use cs_courses.Threads.Timer.{sleep, timer_interrupt}

-- PRI_MAX; PRI_MIN is 0.
abbrev pub pri_max : ℕ
pri_max = 63

abbrev pub is_priority : ℤ → Bool
is_priority p = if ltb_ℤ p (pos 0) then false else if ltb_ℤ (pos pri_max) p then false else true

-- init_thread, in a page of zeros
abbrev pub init_thread : ℤ → Thread
init_thread p = record {
  tid = 0;
  status = blocked;
  priority = p;
  orig_priority = p;
  sema_list = [];
  waiting = none;
  wakeup_time = 0;
  nice = pos 0;
  recent_cpu = pos 0;
}

-- The lock of allocate_tid.
abbrev pub tid_lock : ℕ
tid_lock = 0

-- thread_create, up to allocate_tid, with the page that palloc_get_page returns
unfoldable pub create : ℕ → ℤ → List Op → Kernel → Run Kernel
create t p rest k =
    if is_priority p
    then ok (
        then_do (lock_acquire tid_lock ∷ bump_tid t ∷ lock_release tid_lock ∷ thread_start t ∷ rest)
          (set_thread t (init_thread p) k))
    else panic

-- thread_set_priority
unfoldable pub change_priority : ℤ → Kernel → Run Kernel
unfolding yield_if_nonmax
change_priority p k =
    let th = k.thread k.current in
    yield_if_nonmax (
      set_thread k.current
        (elim th.sema_list [
          | [] ↦ record th { orig_priority = p; priority = p }
          | _ ∷ _ ↦ record th { orig_priority = p }
        ])
        k)

-- The end of thread_create.
abbrev pub start_thread : ℕ → Kernel → Run Kernel
start_thread t k = thread_unblock t k >>= yield_if_nonmax

-- What allocate_tid does under its lock, for the thread on page `t`.
abbrev pub take_tid : ℕ → Kernel → Kernel
take_tid t k = record (set_thread t (record (k.thread t) { tid = k.next_tid }) k) {
  next_tid = k.next_tid + 1;
}

-- thread_exit
abbrev pub exit_thread : Kernel → Run Kernel
exit_thread k = schedule (set_status k.current dying k)

-- thread_set_nice
abbrev pub set_nice : ℤ → Kernel → Run Kernel
set_nice n k = yield_if_nonmax (set_thread k.current (record (k.thread k.current) { nice = n }) k)

module _ (fuel : ℕ) where
  -- The current thread does `op`, and has `rest` still to do.
  unfoldable pub perform : Op → List Op → Kernel → Run Kernel
  unfolding down_at up_at start_acquire give_priority try_acquire release start_wait signal
      broadcast create change_priority sleep yield schedule yield_if_nonmax thread_unblock
  perform (sema_down s) rest k = down_at (plain s) (sema_down s ∷ rest) rest k
  perform (sema_up s) rest k = up_at (plain s) (then_do rest k)
  perform (lock_acquire l) rest k = start_acquire l rest k
  perform (lock_donate l) rest k = give_priority fuel l (then_do (lock_down l ∷ rest) k)
  perform (lock_down l) rest k = down_at (in_lock l) (lock_down l ∷ rest) (lock_taken l ∷ rest) k
  perform (lock_taken l) rest k = ok (end_acquire l (then_do (lock_hold l ∷ rest) k))
  perform (lock_hold l) rest k = ok (set_holder l (some k.current) (then_do rest k))
  perform (lock_release l) rest k = release l rest k
  perform (lock_free l) rest k = ok (set_holder l none (then_do (lock_up l ∷ rest) k))
  perform (lock_up l) rest k = up_at (in_lock l) (then_do rest k)
  perform (lock_try_acquire l) rest k = try_acquire l rest k >>= (λ r. ok r.0)
  perform (cond_wait c l w) rest k = start_wait c l w rest k
  perform (cond_signal c l) rest k = signal c l (then_do rest k)
  perform (cond_broadcast c l) rest k = broadcast c l rest k (k.cond c)
  perform (thread_create t p) rest k = create t p rest k
  perform (bump_tid t) rest k = ok (then_do rest (take_tid t k))
  perform (thread_start t) rest k = start_thread t (then_do rest k)
  perform thread_yield rest k = yield (then_do rest k)
  perform thread_exit rest k = exit_thread (then_do [] k)
  perform (thread_set_priority p) rest k = change_priority p (then_do rest k)
  perform (thread_set_nice n) rest k = set_nice n (then_do rest k)
  perform (timer_sleep n) rest k = sleep n (then_do rest k)

-- What a thread may call by itself.
abbrev pub is_call : Op → Bool
is_call (lock_donate _) = false
is_call (lock_down _) = false
is_call (lock_taken _) = false
is_call (lock_hold _) = false
is_call (lock_free _) = false
is_call (lock_up _) = false
is_call (bump_tid _) = false
is_call (thread_start _) = false
is_call _ = true

pub data Step (k : Kernel) : Kernel → Type 0 where
  call : (op : Op) → is_call op ≡ true → k.todo k.current ≡ [] → Step k (then_do (op ∷ []) k)
  work :
      {k' : Kernel} (fuel : ℕ) (op : Op) (rest : List Op)
      → k.todo k.current ≡ op ∷ rest
      → perform fuel op rest k ≡ ok k'
      → Step k k'
  tick : {k' : Kernel} → timer_interrupt k ≡ ok k' → Step k k'

pub data Reach (k : Kernel) : Kernel → Type 0 where
  start : Reach k k
  later : {k' k'' : Kernel} → Reach k k' → Step k' k'' → Reach k k''
