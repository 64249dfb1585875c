-- ===== src/Threads/Sync.antt =====
-- Semaphores, locks and condition variables: CS330_projects/proj1/threads/synch.c. An operation that
-- can sleep is cut where it sleeps, and those of a lock, which run with interrupts on, between what they do
-- to its semaphore and to its holder: the part behind is what the thread still has to do.
use cs_courses.Base.{
  ℕ, zero, suc, ◌+◌, Bool, true, false, not, Option, none, some, List, [], ◌∷◌, ltb_ℤ, max_ℤ, ◌==◌,
  if◌then◌else◌, update,
}
use cs_courses.KernelList.Walk.Read.{best_of}
use cs_courses.Threads.{
  Op, sema_down, lock_acquire, lock_donate, lock_hold, lock_free, lock_release, cond_signal,
  cond_broadcast, Semaphore, Lock, Kernel, Run, ok, panic, fault, out_of_fuel, ◌>>=◌,
  insert_ordered, priority_of, cmp_prr2, set_thread, set_priority, points_to, thread_block,
  thread_unblock, yield_if_nonmax, get_max_priority,
}

-- sema_init, with the `priority` that the source leaves as it is
abbrev pub sema_init : Semaphore → ℕ → Semaphore
sema_init s value = record s { value = value; waiters = [] }

-- lock_init
abbrev pub lock_init : Lock → Lock
lock_init lk = record { holder = none; semaphore = sema_init lk.semaphore 1 }

abbrev pub then_do : List Op → Kernel → Kernel
then_do ops k = record k { todo = update k.todo k.current ops }

-- A semaphore by itself, or the one inside a lock.
pub data Place : Type 0 where
  plain in_lock : ℕ → Place

abbrev pub semaphore_at : Place → Kernel → Semaphore
semaphore_at (plain s) k = k.sema s
semaphore_at (in_lock l) k = let lk = k.lock l in lk.semaphore

abbrev pub put_semaphore : Place → Semaphore → Kernel → Kernel
put_semaphore (plain s) v k = record k { sema = update k.sema s v }
put_semaphore (in_lock l) v k = record k {
  lock = update k.lock l (record (k.lock l) { semaphore = v });
}

-- One round of sema_down, up to the test of the loop; `again` is what to do on waking up, which is
-- the test once more, and `after` what follows.
unfoldable pub down_at : Place → List Op → List Op → Kernel → Run Kernel
unfolding thread_block
down_at p again after k =
    let s = semaphore_at p k in
    elim s.value [
      | zero ↦ thread_block (
          then_do again (
            put_semaphore p (record s { waiters = insert_ordered (cmp_prr2 k) k.current s.waiters })
              k))
      | suc v ↦ ok (then_do after (put_semaphore p (record s { value = v }) k))
    ]

-- list_remove, of an element that is in the list
abbrev pub remove : ℕ → List ℕ → List ℕ
remove e [] = []
remove e (x ∷ xs) = if x == e then xs else x ∷ remove e xs

-- What sema_up does with a waiter: the one that list_max finds leaves the list, the current thread
-- gets the priority that is left to it, and the waiter becomes ready.
unfoldable pub wake : Place → Kernel → ℕ → List ℕ → Run Kernel
unfolding best_of get_max_priority thread_unblock
wake p k w ws =
    let e = best_of (cmp_prr2 k) w ws in
    let k' = put_semaphore p (record (semaphore_at p k) { waiters = remove e (w ∷ ws) }) k in
    let curr = k'.thread k'.current in
    thread_unblock e
      (set_priority k'.current (max_ℤ (get_max_priority k' k'.current) curr.orig_priority) k')

unfoldable pub wake_one : Place → Kernel → List ℕ → Run Kernel
unfolding wake
wake_one p k [] = ok k
wake_one p k (w ∷ ws) = wake p k w ws

abbrev pub count_up : Place → Kernel → Kernel
count_up p k = let s = semaphore_at p k in put_semaphore p (record s { value = s.value + 1 }) k

-- sema_up
unfoldable pub up_at : Place → Kernel → Run Kernel
unfolding wake_one yield_if_nonmax
up_at p k = do
  let s = semaphore_at p k
  k' ← wake_one p k s.waiters
  yield_if_nonmax (count_up p k')

-- sema_try_down
unfoldable pub try_down : Place → Kernel → Kernel × Bool
try_down p k =
    let s = semaphore_at p k in
    elim s.value [ zero ↦ (k, false) | suc v ↦ (put_semaphore p (record s { value = v }) k, true) ]

-- lock_held_by_current_thread
abbrev pub is_held : ℕ → Kernel → Bool
is_held l k = let lk = k.lock l in points_to lk.holder k.current

-- while ((lp = lp->holder->waiting)) lp->holder->priority = ...; it ends unless the threads wait for
-- one another in a circle.
unfoldable pub donate_loop : ℕ → ℕ → Kernel → Run Kernel
unfolding get_max_priority
donate_loop zero lp k = out_of_fuel
donate_loop (suc fuel) lp k =
    let lk = k.lock lp in
    elim lk.holder [
      | none ↦ fault
      | some h ↦
          let th = k.thread h in
          elim th.waiting [
            | none ↦ ok k
            | some lp' ↦
                let lk' = k.lock lp' in
                elim lk'.holder [
                  | none ↦ fault
                  | some h' ↦
                      donate_loop fuel lp' (
                        set_priority h' (max_ℤ (priority_of k k.current) (get_max_priority k h')) k)
                ]
          ]
    ]

-- The donation of lock_acquire.
unfoldable pub donate : ℕ → ℕ → Kernel → Run Kernel
unfolding donate_loop get_max_priority
donate fuel l k =
    let lk = k.lock l in
    elim lk.holder [
      | none ↦ ok k
      | some h ↦ elim (ltb_ℤ (priority_of k h) (priority_of k k.current)) [
        | false ↦ ok k
        | true ↦
            donate_loop fuel l
              (set_priority h (max_ℤ (priority_of k k.current) (get_max_priority k h)) k)
      ]
    ]

abbrev pub set_waiting : ℕ → Option ℕ → Kernel → Kernel
set_waiting t w k = set_thread t (record (k.thread t) { waiting = w }) k

-- lock_acquire, up to the donation
unfoldable pub start_acquire : ℕ → List Op → Kernel → Run Kernel
start_acquire l rest k =
    if is_held l k
    then panic
    else ok (set_waiting k.current (some l) (then_do (lock_donate l ∷ rest) k))

-- lock_acquire, from there to its sema_down; the loop of the nested donation is taken in one piece.
unfoldable pub give_priority : ℕ → ℕ → Kernel → Run Kernel
unfolding donate
give_priority fuel l k = if k.mlfqs then ok k else donate fuel l k

-- lock_acquire, behind its sema_down and up to the holder
abbrev pub end_acquire : ℕ → Kernel → Kernel
end_acquire l k =
    let th = k.thread k.current in
    set_thread k.current (record th { waiting = none; sema_list = l ∷ th.sema_list }) k

-- lock->holder = h
abbrev pub set_holder : ℕ → Option ℕ → Kernel → Kernel
set_holder l h k = record k { lock = update k.lock l (record (k.lock l) { holder = h }) }

-- lock_try_acquire, up to the holder, and its result
unfoldable pub try_acquire : ℕ → List Op → Kernel → Run (Kernel × Bool)
unfolding try_down
try_acquire l rest k =
    if is_held l k
    then panic
    else (let (k', success) = try_down (in_lock l) k in
        ok (then_do (if success then lock_hold l ∷ rest else rest) k', success))

abbrev pub mem : ℕ → List ℕ → Bool
mem e [] = false
mem e (x ∷ xs) = if x == e then true else mem e xs

-- lock_release, up to the holder. list_remove asserts that the lock's element has neighbours: an element that was in no
-- list has none. (One that has left a list keeps its old links; removing it again is `panic` here.)
unfoldable pub release : ℕ → List Op → Kernel → Run Kernel
release l rest k =
    let th = k.thread k.current in
    if not (is_held l k)
    then panic
    else if mem l th.sema_list
    then ok (
        set_thread k.current (record th { sema_list = remove l th.sema_list })
          (then_do (lock_free l ∷ rest) k))
    else panic

-- cmp_prr_condvar
abbrev pub cmp_prr_condvar : Kernel → ℕ → ℕ → Bool
cmp_prr_condvar k x y = let x_s = k.sema x in let y_s = k.sema y in ltb_ℤ y_s.priority x_s.priority

-- cond_wait, with `w` the semaphore on the stack of the thread that waits: what it does before it
-- releases the lock
unfoldable pub start_wait : ℕ → ℕ → ℕ → List Op → Kernel → Run Kernel
start_wait c l w rest k =
    if is_held l k
    then (do
      let s = record (sema_init (k.sema w) 0) { priority = priority_of k k.current }
      let k' = record k { sema = update k.sema w s }
      ok (
          then_do (lock_release l ∷ sema_down w ∷ lock_acquire l ∷ rest) (record k' {
            cond = update k'.cond c (insert_ordered (cmp_prr_condvar k') w (k'.cond c));
          })))
    else panic

unfoldable pub signal_first : ℕ → Kernel → List ℕ → Run Kernel
unfolding up_at
signal_first c k [] = ok k
signal_first c k (w ∷ ws) = up_at (plain w) (record k { cond = update k.cond c ws })

-- cond_signal
unfoldable pub signal : ℕ → ℕ → Kernel → Run Kernel
unfolding signal_first
signal c l k = if is_held l k then signal_first c k (k.cond c) else panic

-- One round of cond_broadcast.
unfoldable pub broadcast : ℕ → ℕ → List Op → Kernel → List ℕ → Run Kernel
broadcast c l rest k [] = ok (then_do rest k)
broadcast c l rest k (w ∷ ws) = ok (then_do (cond_signal c l ∷ cond_broadcast c l ∷ rest) k)
