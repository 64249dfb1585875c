-- ===== src/Threads/Sleep.antt =====
-- The sleeping threads of CS330_projects/proj1/devices/timer.c: timer_sleep keeps their list by the time of
-- waking up, and the timer interrupt wakes those that are due.
use cs_courses.Base.{
  ℕ, ◌≤◌, ◌≡◌, refl, sym, ap, ◌∙◌, Bool, true, false, List, [], ◌∷◌, leb, ◌==◌, ==→eq,
  if◌then◌else◌, Bool-cases, inl, inr, All, All-mono, arith,
}
use cs_courses.Threads.{
  Status, ready, Thread, Kernel, Run, ok, insert_ordered, cmp_prr, set_status, insert_ready,
  is_blocked, status_of, thread_unblock,
}
use cs_courses.Threads.Sync.{mem}
use cs_courses.Threads.Timer.{wakeup_of, wake_loop}
use cs_courses.Threads.Frame.Waking.{at-update}
use cs_courses.Threads.Order.Wake.{IsBlocked, status-set_status}

-- No thread is to wake up before one in front of it.
abbrev pub IsByTime : (ℕ → ℕ) → List ℕ → Type 0
IsByTime time [] = Unit
IsByTime time (t ∷ ts) = All (λ u. time t ≤ time u) ts × IsByTime time ts

abbrev pub IsDistinct : List ℕ → Type 0
IsDistinct [] = Unit
IsDistinct (t ∷ ts) = All (λ u. (u == t) ≡ false) ts × IsDistinct ts

-- The threads that are not due yet.
abbrev pub still_asleep : (ℕ → ℕ) → ℕ → List ℕ → List ℕ
still_asleep time now [] = []
still_asleep time now (t ∷ ts) =
    if leb (time t) now then still_asleep time now ts else t ∷ still_asleep time now ts

still_asleep-All :
    (time : ℕ → ℕ) (now : ℕ) (ts : List ℕ)
    → All (λ u. leb (time u) now ≡ false) ts
    → still_asleep time now ts ≡ ts
still_asleep-All time now [] a = refl
still_asleep-All time now (t ∷ ts) a = rw a.0 (ap (λ us. t ∷ us) (still_asleep-All time now ts a.1))

All-both :
    {P Q R : ℕ → Type 0} (ts : List ℕ)
    → ((u : ℕ) → P u → Q u → R u)
    → All P ts
    → All Q ts
    → All R ts
All-both [] f a b = tt
All-both (t ∷ ts) f a b = (f t a.0 b.0, All-both ts f a.1 b.1)

module _ (k : Kernel) (t : ℕ) (st : Status) where
  wakeup-set_status : (u : ℕ) → wakeup_of (set_status t st k) u ≡ wakeup_of k u
  wakeup-set_status u =
      at-update (λ (th : Thread). th.wakeup_time) k.thread t (record (k.thread t) { status = st }) u
      ∙ elim (Bool-cases (u == t)) [
        | inl on ↦ rw on (ap (wakeup_of k) (sym (==→eq u t on)))
        | inr off ↦ rw off refl
      ]

  IsBlocked-set_status :
      (u : ℕ) → (u == t) ≡ false → IsBlocked k u → IsBlocked (set_status t st k) u
  IsBlocked-set_status u off b =
      at-update (λ (th : Thread). is_blocked th.status) k.thread t
        (record (k.thread t) { status = st }) u
      ∙ rw off b

mem-insert_any :
    (less : ℕ → ℕ → Bool) (e u : ℕ) (xs : List ℕ)
    → mem u (insert_ordered less e xs) ≡ (if e == u then true else mem u xs)
mem-insert_any less e u [] = refl
mem-insert_any less e u (x ∷ xs) = elim (Bool-cases (less e x)) [
  | inl stop ↦ rw stop refl
  | inr on ↦ rw on (ground (arith, mem-insert_any less e u xs))
]

-- The threads whose time has come.
abbrev pub due_threads : (ℕ → ℕ) → ℕ → List ℕ → List ℕ
due_threads time now [] = []
due_threads time now (t ∷ ts) =
    if leb (time t) now then t ∷ due_threads time now ts else due_threads time now ts

due_threads-All :
    (time : ℕ → ℕ) (now : ℕ) (ts : List ℕ)
    → All (λ u. leb (time u) now ≡ false) ts
    → due_threads time now ts ≡ []
due_threads-All time now [] a = refl
due_threads-All time now (t ∷ ts) a = rw a.0 (due_threads-All time now ts a.1)

-- What the loop of timer_interrupt leaves: the threads that are not due stay asleep; those that are due, and
-- no others, have joined the ready list and become THREAD_READY.
abbrev pub Woken : (ℕ → ℕ) → List ℕ → Kernel → Run Kernel → Type 0
Woken time ts k r =
    (k' : Kernel) × (r ≡ ok k')
    × (k'.wait_list ≡ still_asleep time k.ticks ts)
    × ((u : ℕ)
        → mem u k'.ready_list
          ≡ (if mem u (due_threads time k.ticks ts) then true else mem u k.ready_list))
    × ((u : ℕ)
        → status_of k' u ≡ (if mem u (due_threads time k.ticks ts) then ready else status_of k u))

-- One more thread that is due, in front of the others.
joined :
    (t u : ℕ) (ds xs : List ℕ) (b : Bool)
    → b ≡ (if mem u ds then true else if t == u then true else mem u xs)
    → b ≡ (if mem u (t ∷ ds) then true else mem u xs)
joined t u ds xs b e = ground (arith, e)

became :
    (t u : ℕ) (ds : List ℕ) (st old : Status)
    → st ≡ (if mem u ds then ready else if u == t then ready else old)
    → st ≡ (if mem u (t ∷ ds) then ready else old)
became t u ds st old e = elim (Bool-cases (u == t)) [
  | inl on ↦
      let back : (t == u) ≡ true = ground (arith, on) in
      rw back (
        e
        ∙ rw on (elim (mem u ds) as (λ b. (if b then ready else ready) ≡ ready) [
          | true ↦ refl
          | false ↦ refl
        ]))
  | inr off ↦ let away : (t == u) ≡ false = ground (arith, off) in rw away (e ∙ rw off refl)
]

-- The loop of timer_interrupt over blocked threads in the order of their times, no thread twice, ends:
-- exactly the threads whose time has not come stay in the list, exactly the others join the ready list and
-- become THREAD_READY, and every other thread keeps its status.
pub wake_loop-Woken :
    (time : ℕ → ℕ) (ts : List ℕ) (k : Kernel)
    → All (λ t. wakeup_of k t ≡ time t) ts
    → IsByTime time ts
    → IsDistinct ts
    → All (IsBlocked k) ts
    → Woken time ts k (wake_loop ts k)
unfolding wake_loop thread_unblock
wake_loop-Woken time [] k times order once asleep =
    (record k { wait_list = [] }, refl, refl, (λ u. refl), (λ u. refl))
wake_loop-Woken time (t ∷ ts) k times order once asleep = elim (Bool-cases (leb (time t) k.ticks)) [
  | inr late ↦
      let all_late : All (λ u. leb (time u) k.ticks ≡ false) (t ∷ ts) =
        (late, All-mono _ _ ts (λ u le. ground (arith, le, late)) order.0) in
      let none_due = due_threads-All time k.ticks (t ∷ ts) all_late in
      (
        record k { wait_list = t ∷ ts },
        rw (wake_loop, times.0, late) refl,
        sym (still_asleep-All time k.ticks (t ∷ ts) all_late),
        (λ u. sym (ap (λ ds. if mem u ds then true else mem u k.ready_list) none_due)),
        (λ u. sym (ap (λ ds. if mem u ds then ready else status_of k u) none_due)),
      )
  | inl due ↦
      let k1 = record k { wait_list = ts } in
      let k2 = insert_ready t k1 in
      let k3 = set_status t ready k2 in
      let ds = due_threads time k.ticks ts in
      let (k', run, left, here, statuses) =
        wake_loop-Woken time ts k3
          (All-mono _ _ ts (λ u e. wakeup-set_status k2 t ready u ∙ e) times.1) order.1 once.1
          (All-both ts (λ u off b. IsBlocked-set_status k2 t ready u off b) once.0 asleep.1) in
      let whole : due_threads time k.ticks (t ∷ ts) ≡ t ∷ ds = rw due refl in
      (
        k',
        rw (wake_loop, times.0, due, thread_unblock, asleep.0) run,
        left ∙ sym (rw due refl),
        (λ u.
            joined t u ds k.ready_list (mem u k'.ready_list) (
              here u
              ∙ ap (λ b. if mem u ds then true else b)
                  (mem-insert_any (cmp_prr k1) t u k.ready_list))
            ∙ sym (ap (λ es. if mem u es then true else mem u k.ready_list) whole)),
        (λ u.
            became t u ds (status_of k' u) (status_of k u) (
              statuses u
              ∙ ap (λ st. if mem u ds then ready else st) (status-set_status t ready k2 u))
            ∙ sym (ap (λ es. if mem u es then ready else status_of k u) whole)),
      )
]
