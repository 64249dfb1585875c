-- ===== src/Threads/Exclusion/Perform.antt =====
-- Each operation of CS330_projects/proj1/threads/thread.c and synch.c keeps the locks exclusive, as a step of a thread.
use cs_courses.Base.{
  ℕ, zero, suc, ◌≡◌, refl, sym, ap, ◌∙◌, ◌||◌, ◌==◌, ==→eq, Bool, true, false, List, [], ◌∷◌, ℤ,
  if◌then◌else◌, Bool-cases, inl, inr,
}
use cs_courses.Threads.{
  dying, Op, sema_down, sema_up, lock_acquire, lock_donate, lock_down, lock_taken, lock_hold,
  lock_release, lock_free, lock_up, lock_try_acquire, cond_wait, cond_signal, cond_broadcast,
  thread_create, bump_tid, thread_start, thread_yield, thread_exit, thread_set_priority,
  thread_set_nice, timer_sleep, Thread, Kernel, Run, ok, panic, ◌>>=◌, insert_ordered, cmp_prr2,
  set_thread, set_status, schedule, thread_unblock, yield_if_nonmax, thread_block, points_to,
}
use cs_courses.Threads.Sync.{
  plain, in_lock, semaphore_at, put_semaphore, then_do, down_at, up_at, start_acquire,
  give_priority, end_acquire, try_acquire, try_down, release, start_wait, broadcast, count_up,
  is_held, mem,
}
use cs_courses.Threads.Step.{perform, create, change_priority, is_priority, tid_lock}
use cs_courses.Threads.Frame.{
  holder_of, Same-refl, Same-of, Frames, Frames-trans, Frames-bind, Frames-if, schedule-Frames,
  thread_block-Frames, thread_unblock-Frames, yield-Frames, yield_if_nonmax-Frames, sleep-Frames,
}
use cs_courses.Threads.Frame.Waking.{
  put-Same, up_at-Frames, up_plain-Frames, signal-Frames, start_acquire-Frames,
  give_priority-Frames,
}
use cs_courses.Threads.Exclusion.{is_taken, none_taken, Inv}
use cs_courses.Threads.Exclusion.Claims.{
  Inv-Same, Inv-Frames, takes-false, takes_now-false, tail_ok_of,
}
use cs_courses.Threads.Exclusion.Holder.{hold-Inv, free-Inv, give-Inv}
use cs_courses.Threads.Exclusion.Steps.{rest-none_taken, quiet-Inv, shift-Inv, take-Inv}

Inv-ok : (k k' : Kernel) → Inv k → ok k ≡ ok k' → Inv k'
Inv-ok k k' inv e = Inv-Frames k k' (ok k) inv (Same-refl k) e

absurd_run : {k' k'' : Kernel} → panic ≡ ok k' → Inv k''
absurd_run e = cc

module _ (k k' : Kernel) (inv : Inv k) (op : Op) (rest : List Op)
    (here : k.todo k.current ≡ op ∷ rest) (plain_op : is_taken op ≡ false) where
  none_left : none_taken rest ≡ true
  none_left = rest-none_taken k inv op rest here

  popped-Inv : Inv (then_do rest k)
  popped-Inv =
      quiet-Inv k inv op rest here rest plain_op (λ l. takes-false l rest none_left)
        (tail_ok_of rest none_left)

  again-Inv : (x : Op) → is_taken x ≡ false → Inv (then_do (x ∷ rest) k)
  again-Inv x h =
      quiet-Inv k inv op rest here (x ∷ rest) plain_op (λ l. takes-false l (x ∷ []) (rw h refl))
        none_left

  -- An operation that only moves threads about.
  moves-Inv : (r : Run Kernel) → Frames (then_do rest k) r → r ≡ ok k' → Inv k'
  moves-Inv r frames e = Inv-Frames (then_do rest k) k' r popped-Inv frames e

  down-Inv :
      (s : ℕ) → op ≡ sema_down s → down_at (plain s) (sema_down s ∷ rest) rest k ≡ ok k' → Inv k'
  unfolding down_at
  down-Inv s is =
      let v = k.sema s in
      let slept = record v { waiters = insert_ordered (cmp_prr2 k) k.current v.waiters } in
      let asleep = then_do (sema_down s ∷ rest) (put_semaphore (plain s) slept k) in
      elim v.value
        as (λ n.
          (elim n [
            | zero ↦ thread_block asleep
            | suc m ↦ ok (then_do rest (put_semaphore (plain s) (record v { value = m }) k))
          ])
            ≡ ok k'
          → Inv k') [
            | zero ↦ (λ e.
                Inv-Frames asleep k' (thread_block asleep)
                  (Inv-Same (then_do (sema_down s ∷ rest) k) asleep (again-Inv (sema_down s) refl)
                    (Same-of refl refl))
                  (thread_block-Frames asleep) e)
            | suc m ↦ (λ e.
                let woken = then_do rest (put_semaphore (plain s) (record v { value = m }) k) in
                Inv-ok woken k' (Inv-Same (then_do rest k) woken popped-Inv (Same-of refl refl)) e)
          ]

  lock_down-Inv :
      (l : ℕ) → down_at (in_lock l) (lock_down l ∷ rest) (lock_taken l ∷ rest) k ≡ ok k' → Inv k'
  unfolding down_at
  lock_down-Inv l e =
      let v = semaphore_at (in_lock l) k in
      let slept = record v { waiters = insert_ordered (cmp_prr2 k) k.current v.waiters } in
      let queued = put_semaphore (in_lock l) slept k in
      let asleep = then_do (lock_down l ∷ rest) queued in
      (elim v.value
          as (λ n.
            v.value ≡ n
            → (elim n [
              | zero ↦ thread_block asleep
              | suc m ↦ ok (
                  then_do (lock_taken l ∷ rest)
                    (put_semaphore (in_lock l) (record v { value = m }) k))
            ])
              ≡ ok k'
            → Inv k') [
              | zero ↦ (λ eq e'.
                  Inv-Frames asleep k' (thread_block asleep)
                    (quiet-Inv queued (Inv-Same k queued inv (put-Same (in_lock l) slept k refl)) op
                      rest here (lock_down l ∷ rest) plain_op (λ m. refl) none_left)
                    (thread_block-Frames asleep) e')
              | suc m ↦ (λ eq e'.
                  Inv-ok _ k'
                    (take-Inv k inv op rest here (lock_taken l) l m (λ m. refl) (λ m. refl) plain_op
                      eq)
                    e')
            ])
        refl e

  release-Inv : (l : ℕ) → release l rest k ≡ ok k' → Inv k'
  unfolding release
  release-Inv l e =
      let th = k.thread k.current in
      elim (Bool-cases (is_held l k)) [
        | inr off ↦ absurd_run (rw off at e)
        | inl on ↦ elim (Bool-cases (mem l th.sema_list)) [
          | inr out ↦ absurd_run (rw (on, out) at e)
          | inl listed ↦
              Inv-Frames (then_do (lock_free l ∷ rest) k) k' _
                (shift-Inv k inv op rest here (lock_free l ∷ rest)
                  (λ m.
                    owned m on
                    ∙ ap (λ b. points_to (holder_of k m) k.current || b)
                        (sym (takes_now-false m op plain_op)))
                  (λ m. refl) none_left)
                (Same-of refl refl) (rw (on, listed) at e)
        ]
      ]
    where
      owned :
          (m : ℕ)
          → is_held l k ≡ true
          → (points_to (holder_of k m) k.current || (l == m))
            ≡ (points_to (holder_of k m) k.current || false)
      owned m on = elim (Bool-cases (l == m)) [
        | inl same ↦
            let at_m : points_to (holder_of k m) k.current ≡ true =
              ap (λ j. points_to (holder_of k j) k.current) (sym (==→eq l m same)) ∙ on in
            rw at_m refl
        | inr off ↦ rw off refl
      ]

  try_acquire-Inv : (l : ℕ) → (try_acquire l rest k >>= (λ r. ok r.0)) ≡ ok k' → Inv k'
  unfolding try_acquire try_down
  try_acquire-Inv l e =
      let v = semaphore_at (in_lock l) k in
      elim (Bool-cases (is_held l k)) [
        | inl on ↦ absurd_run (rw on at e)
        | inr off ↦
            (elim v.value
                as (λ n.
                  v.value ≡ n
                  → ok (
                      goes_on (elim n [
                        | zero ↦ (k, false)
                        | suc m ↦ (put_semaphore (in_lock l) (record v { value = m }) k, true)
                      ]))
                    ≡ ok k'
                  → Inv k') [
                    | zero ↦ (λ eq e'. Inv-ok _ k' popped-Inv e')
                    | suc m ↦ (λ eq e'.
                        Inv-ok _ k'
                          (take-Inv k inv op rest here (lock_hold l) l m (λ m. refl) (λ m. refl)
                            plain_op eq)
                          e')
                  ])
              refl (rw off at e)
      ]
    where
      goes_on : Kernel × Bool → Kernel
      goes_on (k1, success) = then_do (if success then lock_hold l ∷ rest else rest) k1

  wait-Inv : (c l w : ℕ) → start_wait c l w rest k ≡ ok k' → Inv k'
  unfolding start_wait
  wait-Inv c l w e = elim (Bool-cases (is_held l k)) [
    | inr off ↦ absurd_run (rw off at e)
    | inl on ↦
        Inv-Frames (then_do (lock_release l ∷ sema_down w ∷ lock_acquire l ∷ rest) k) k' _
          (quiet-Inv k inv op rest here (lock_release l ∷ sema_down w ∷ lock_acquire l ∷ rest)
            plain_op (λ m. refl) none_left)
          (Same-of refl refl) (rw on at e)
  ]

  broadcast-Inv : (c l : ℕ) (ws : List ℕ) → broadcast c l rest k ws ≡ ok k' → Inv k'
  unfolding broadcast
  broadcast-Inv c l [] e = Inv-ok (then_do rest k) k' popped-Inv e
  broadcast-Inv c l (w ∷ ws) e =
      let ops = cond_signal c l ∷ cond_broadcast c l ∷ rest in
      Inv-ok (then_do ops k) k' (quiet-Inv k inv op rest here ops plain_op (λ m. refl) none_left) e

  create-Inv : (t : ℕ) (p : ℤ) → create t p rest k ≡ ok k' → Inv k'
  unfolding create
  create-Inv t p e =
      let ops =
        lock_acquire tid_lock ∷ bump_tid t ∷ lock_release tid_lock ∷ thread_start t ∷ rest in
      Inv-Frames (then_do ops k) k' (create t p rest k)
        (quiet-Inv k inv op rest here ops plain_op (λ m. refl) none_left)
        (Frames-if (then_do ops k) (is_priority p) _ panic (Same-of refl refl) tt) e

change_priority-Frames : (p : ℤ) (k : Kernel) → Frames k (change_priority p k)
unfolding change_priority
change_priority-Frames p k =
    let th = k.thread k.current in
    let th' : Thread = elim th.sema_list [
      | [] ↦ record th { orig_priority = p; priority = p }
      | _ ∷ _ ↦ record th { orig_priority = p }
    ] in
    let k' = set_thread k.current th' k in
    Frames-trans k k' (yield_if_nonmax k') (Same-of refl refl) (yield_if_nonmax-Frames k')

pub perform-Inv :
    (fuel : ℕ) (op : Op) (rest : List Op) (k k' : Kernel)
    → Inv k
    → k.todo k.current ≡ op ∷ rest
    → perform fuel op rest k ≡ ok k'
    → Inv k'
unfolding perform
perform-Inv f (sema_down s) rest k k' inv here e =
    down-Inv k k' inv (sema_down s) rest here refl s refl e
perform-Inv f (sema_up s) rest k k' inv here e =
    moves-Inv k k' inv (sema_up s) rest here refl _ (up_plain-Frames s (then_do rest k)) e
perform-Inv f (lock_acquire l) rest k k' inv here e =
    Inv-Frames (then_do (lock_donate l ∷ rest) k) k' (start_acquire l rest k)
      (again-Inv k k' inv (lock_acquire l) rest here refl (lock_donate l) refl)
      (start_acquire-Frames l rest k) e
perform-Inv f (lock_donate l) rest k k' inv here e =
    let k1 = then_do (lock_down l ∷ rest) k in
    Inv-Frames k1 k' (give_priority f l k1)
      (again-Inv k k' inv (lock_donate l) rest here refl (lock_down l) refl)
      (give_priority-Frames f l k1) e
perform-Inv f (lock_down l) rest k k' inv here e =
    lock_down-Inv k k' inv (lock_down l) rest here refl l e
perform-Inv f (lock_taken l) rest k k' inv here e =
    let k1 = then_do (lock_hold l ∷ rest) k in
    Inv-ok (end_acquire l k1) k'
      (Inv-Same k1 (end_acquire l k1)
        (shift-Inv k inv (lock_taken l) rest here (lock_hold l ∷ rest) (λ m. refl) (λ m. refl)
          (rest-none_taken k inv (lock_taken l) rest here))
        (Same-of refl refl))
      e
perform-Inv f (lock_hold l) rest k k' inv here e =
    Inv-ok _ k' (hold-Inv k inv (lock_hold l) rest here l refl) e
perform-Inv f (lock_free l) rest k k' inv here e =
    Inv-ok _ k' (free-Inv k inv (lock_free l) rest here l refl) e
perform-Inv f (lock_up l) rest k k' inv here e =
    let k1 = then_do rest k in
    Inv-Frames (count_up (in_lock l) k1) k' (up_at (in_lock l) k1)
      (give-Inv k inv (lock_up l) rest here l refl) (up_at-Frames (in_lock l) k1) e
perform-Inv f (lock_release l) rest k k' inv here e =
    release-Inv k k' inv (lock_release l) rest here refl l e
perform-Inv f (lock_try_acquire l) rest k k' inv here e =
    try_acquire-Inv k k' inv (lock_try_acquire l) rest here refl l e
perform-Inv f (cond_wait c l w) rest k k' inv here e =
    wait-Inv k k' inv (cond_wait c l w) rest here refl c l w e
perform-Inv f (cond_signal c l) rest k k' inv here e =
    moves-Inv k k' inv (cond_signal c l) rest here refl _ (signal-Frames c l (then_do rest k)) e
perform-Inv f (cond_broadcast c l) rest k k' inv here e =
    broadcast-Inv k k' inv (cond_broadcast c l) rest here refl c l (k.cond c) e
perform-Inv f (thread_create t p) rest k k' inv here e =
    create-Inv k k' inv (thread_create t p) rest here refl t p e
perform-Inv f (bump_tid t) rest k k' inv here e =
    moves-Inv k k' inv (bump_tid t) rest here refl _ (Same-of refl refl) e
perform-Inv f (thread_start t) rest k k' inv here e =
    let k1 = then_do rest k in
    moves-Inv k k' inv (thread_start t) rest here refl _
      (Frames-bind k1 (thread_unblock t k1) yield_if_nonmax (thread_unblock-Frames t k1)
        yield_if_nonmax-Frames)
      e
perform-Inv f thread_yield rest k k' inv here e =
    moves-Inv k k' inv thread_yield rest here refl _ (yield-Frames (then_do rest k)) e
perform-Inv f thread_exit rest k k' inv here e =
    let k1 = set_status k.current dying (then_do [] k) in
    Inv-Frames (then_do [] k) k' (schedule k1)
      (quiet-Inv k inv thread_exit rest here [] refl (λ l. refl) refl)
      (Frames-trans (then_do [] k) k1 (schedule k1) (Same-of refl refl) (schedule-Frames k1)) e
perform-Inv f (thread_set_priority p) rest k k' inv here e =
    moves-Inv k k' inv (thread_set_priority p) rest here refl _
      (change_priority-Frames p (then_do rest k)) e
perform-Inv f (thread_set_nice n) rest k k' inv here e =
    let k1 = set_thread k.current (record (k.thread k.current) { nice = n }) (then_do rest k) in
    moves-Inv k k' inv (thread_set_nice n) rest here refl _
      (Frames-trans (then_do rest k) k1 (yield_if_nonmax k1) (Same-of refl refl)
        (yield_if_nonmax-Frames k1))
      e
perform-Inv f (timer_sleep n) rest k k' inv here e =
    moves-Inv k k' inv (timer_sleep n) rest here refl _ (sleep-Frames n (then_do rest k)) e
