-- ===== src/Threads/Order/Pick.antt =====
-- After the scheduler of CS330_projects/proj1/threads/thread.c has run, no ready thread is above the running
-- one.
use mathlib.Core.Path.{subst}
use cs_courses.Base.{
  ℕ, ◌≡◌, refl, sym, ap, Bool, true, false, none, some, List, [], ◌∷◌, ltb_ℤ, ==_refl,
  if◌then◌else◌, Bool-cases, inl, inr, All,
}
use cs_courses.Threads.{
  Status, running, ready, blocked, Kernel, Run, ok, panic, priority_of, set_status, insert_ready,
  switch_to, is_running, status_of, points_to, run_next, schedule, thread_block, yield, yield_below,
  yield_if_nonmax,
}
use cs_courses.Threads.Order.{
  NotAbove, IsDescending, MayYield, RunsHighest, insert-IsDescending, All-same, IsDescending-same,
  All-each, All-trans, priority_of-set_status,
}

-- The scheduler comes to an end.
abbrev pub Picks : Run Kernel → Type 0
Picks r = (k' : Kernel) × (r ≡ ok k') × RunsHighest k'

run_next-Picks :
    (k : Kernel) (i : ℕ) (ts : List ℕ)
    → k.idle_thread ≡ some i
    → k.ready_list ≡ ts
    → IsDescending (priority_of k) ts
    → Picks (run_next k ts)
unfolding run_next
run_next-Picks k i [] idle e d =
    let k' = switch_to i k in
    (
      k',
      ap (λ o. elim o [ none ↦ panic | some t ↦ ok (switch_to t k) ]) idle,
      record { descending = rw e tt; highest = rw e tt },
    )
run_next-Picks k i (t ∷ ts) idle e d =
    let k1 = record k { ready_list = ts; current = t; thread_ticks = 0 } in
    let same = priority_of-set_status t running k1 in
    (
      set_status t running k1,
      refl,
      record {
        descending = IsDescending-same (priority_of k) _ ts (All-each ts same) d.1;
        highest = All-same (priority_of k) _ t ts (same t) (All-each ts same) d.0;
      },
    )

pub schedule-Picks :
    (k : Kernel) (i : ℕ)
    → k.idle_thread ≡ some i
    → (let curr = k.thread k.current in is_running curr.status ≡ false)
    → IsDescending (priority_of k) k.ready_list
    → Picks (schedule k)
unfolding schedule
schedule-Picks k i idle stopped d =
    rw (schedule, stopped) (run_next-Picks k i k.ready_list idle refl d)

status-set :
    (t : ℕ) (st : Status) (k : Kernel) → (let th = (set_status t st k).thread t in th.status) ≡ st
status-set t st k = rw (==_refl t) refl

-- The two assertions in front of the scheduler hold.
allowed :
    (k : Kernel) (r : Run Kernel)
    → MayYield k
    → Picks r
    → Picks
        (if k.intr_context then panic else if is_running (status_of k k.current) then r else panic)
allowed k r may picks =
    step k.intr_context (is_running (status_of k k.current)) may.outside may.runs
  where
    step : (b c : Bool) → b ≡ false → c ≡ true → Picks (if b then panic else if c then r else panic)
    step true c e f = cc
    step false false e f = cc
    step false true e f = picks

-- thread_block, from a ready list in order, ends with the highest thread running.
pub thread_block-Picks :
    (k : Kernel) (i : ℕ)
    → k.idle_thread ≡ some i
    → MayYield k
    → IsDescending (priority_of k) k.ready_list
    → Picks (thread_block k)
unfolding thread_block
thread_block-Picks k i idle may d =
    let k' = set_status k.current blocked k in
    allowed k (schedule k') may (
      schedule-Picks k' i idle (ap is_running (status-set k.current blocked k)) (
        IsDescending-same (priority_of k) _ k.ready_list
          (All-each k.ready_list (priority_of-set_status k.current blocked k)) d))

back-Picks :
    (k : Kernel) (i : ℕ)
    → k.idle_thread ≡ some i
    → IsDescending (priority_of k) k.ready_list
    → Picks (schedule (set_status k.current ready k))
back-Picks k i idle d =
    schedule-Picks (set_status k.current ready k) i idle
      (ap is_running (status-set k.current ready k))
      (IsDescending-same (priority_of k) _ k.ready_list
        (All-each k.ready_list (priority_of-set_status k.current ready k)) d)

pub yield-Picks :
    (k : Kernel) (i : ℕ)
    → k.idle_thread ≡ some i
    → MayYield k
    → IsDescending (priority_of k) k.ready_list
    → Picks (yield k)
unfolding yield
yield-Picks k i idle may d =
    let k' =
      set_status k.current ready
        (if points_to k.idle_thread k.current then k else insert_ready k.current k) in
    allowed k (schedule k') may
      (elim (points_to k.idle_thread k.current)
        as (λ b.
          Picks
            (schedule (set_status k.current ready (if b then k else insert_ready k.current k)))) [
              | true ↦ back-Picks k i idle d
              | false ↦
                  back-Picks (insert_ready k.current k) i idle
                    (insert-IsDescending (priority_of k) k.current k.ready_list d)
            ])

yield_below-Picks :
    (k : Kernel) (i : ℕ) (ts : List ℕ)
    → k.idle_thread ≡ some i
    → MayYield k
    → k.ready_list ≡ ts
    → IsDescending (priority_of k) ts
    → Picks (yield_below k ts)
unfolding yield_below
yield_below-Picks k i [] idle may e d =
    (k, refl, record { descending = rw e tt; highest = rw e tt })
yield_below-Picks k i (t ∷ ts) idle may e d =
    let whole : IsDescending (priority_of k) k.ready_list =
      subst (IsDescending (priority_of k)) (sym e) d in
    elim (Bool-cases (ltb_ℤ (priority_of k k.current) (priority_of k t))) [
      | inl below ↦ rw (yield_below, below) (yield-Picks k i idle may whole)
      | inr top ↦
          rw (yield_below, top)
            (
              k,
              refl,
              record {
                descending = whole;
                highest =
                    subst (All (NotAbove (priority_of k) k.current)) (sym e)
                      (top, All-trans (priority_of k) k.current t ts top d.0);
              },
            )
    ]

pub yield_if_nonmax-Picks :
    (k : Kernel) (i : ℕ)
    → k.idle_thread ≡ some i
    → MayYield k
    → IsDescending (priority_of k) k.ready_list
    → Picks (yield_if_nonmax k)
unfolding yield_if_nonmax
yield_if_nonmax-Picks k i idle may d = yield_below-Picks k i k.ready_list idle may refl d
