-- ===== src/Threads/Order/Wake.antt =====
-- sema_up of CS330_projects/proj1/threads/synch.c wakes a waiter with the highest priority, and gives the
-- processor up when a ready thread is above the running one.
use cs_courses.Base.{
  ℕ, ◌≡◌, Bool, true, false, some, List, [], ◌∷◌, ◌==◌, if◌then◌else◌, All, arith,
}
use cs_courses.KernelList.Walk.Read.{best_of}
use cs_courses.Threads.{
  Status, ready, Thread, Kernel, ok, insert_ordered, priority_of, cmp_prr2, set_status, status_of,
  is_running, is_blocked,
}
use cs_courses.Threads.Sync.{Place, semaphore_at, put_semaphore, remove, mem, wake, up_at}
use cs_courses.Threads.Frame.Waking.{at-update}
use cs_courses.Threads.Order.{NotAbove, IsDescending, RunsHighest}

abbrev pub IsBlocked : Kernel → ℕ → Type 0
IsBlocked k t = let th = k.thread t in is_blocked th.status ≡ true

abbrev pub IsOther : Kernel → ℕ → Type 0
IsOther k t = (t == k.current) ≡ false

pub mem-insert :
    (less : ℕ → ℕ → Bool) (e : ℕ) (xs : List ℕ) → mem e (insert_ordered less e xs) ≡ true
mem-insert less e [] = ground arith
mem-insert less e (x ∷ xs) = ground (arith, mem-insert less e xs)

pub status-set_status :
    (t : ℕ) (st : Status) (k : Kernel) (u : ℕ)
    → status_of (set_status t st k) u ≡ (if u == t then st else status_of k u)
status-set_status t st k u =
    at-update (λ (th : Thread). th.status) k.thread t (record (k.thread t) { status = st }) u

-- What sema_up has done once it returns: a waiter of highest priority is ready in place of waiting, and
-- no ready thread is above the running one.
abbrev pub Woke : Place → Kernel → ℕ → List ℕ → Type 0
Woke p k w ws =
    (e : ℕ) × (k1 : Kernel) × (k' : Kernel) × (mem e (w ∷ ws) ≡ true)
    × All (NotAbove (priority_of k) e) (w ∷ ws)
    × (wake p k w ws ≡ ok k1)
    × (mem e k1.ready_list ≡ true)
    × (status_of k1 e ≡ ready)
    × (let s = semaphore_at p k1 in s.waiters ≡ remove e (w ∷ ws))
    × (up_at p k ≡ ok k')
    × RunsHighest k'

module _ (k : Kernel) (i w : ℕ) (ws : List ℕ) (idle : k.idle_thread ≡ some i)
    (d : IsDescending (priority_of k) k.ready_list) (others : All (IsOther k) k.ready_list)
    (asleep : All (IsBlocked k) (w ∷ ws)) (outside : k.intr_context ≡ false)
    (runs : is_running (status_of k k.current) ≡ true) where
  best : ℕ
  best = best_of (cmp_prr2 k) w ws

  -- The kernel once the chosen waiter has left the list.
  without : Place → Kernel
  unfolding best
  without p = put_semaphore p (record (semaphore_at p k) { waiters = remove best (w ∷ ws) }) k
