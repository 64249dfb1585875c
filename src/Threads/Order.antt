-- ===== src/Threads/Order.antt =====
-- The order of the ready list, which CS330_projects/proj1/threads/thread.c keeps by priority, and the thread
-- that the scheduler picks from it.
pub mod Pick
pub mod Wake
use cs_courses.Base.{
  ℕ, zero, suc, ◌+◌, ◌≡◌, refl, sym, ap, ◌∙◌, Bool, true, false, not, ◌||◌, Option, none, some,
  List, [], ◌∷◌, ℤ, ltb_ℤ, max_ℤ, ◌==◌, ==→eq, ==_refl, if◌then◌else◌, update, Bool-cases, inl, inr,
  All, arith,
}
use cs_courses.Threads.{
  Status, running, ready, blocked, Thread, Kernel, Run, ok, panic, fault, out_of_fuel, ◌>>=◌,
  insert_ordered, priority_of, cmp_prr, set_status, set_priority, insert_ready, switch_to,
  is_running, status_of, is_blocked, points_to, run_next, schedule, thread_block, thread_unblock,
  yield, yield_below, yield_if_nonmax,
}
use cs_courses.Threads.Frame.Waking.{at-update}

-- y does not come before x.
abbrev pub NotAbove : (ℕ → ℤ) → ℕ → ℕ → Type 0
NotAbove priority x y = ltb_ℤ (priority x) (priority y) ≡ false

-- The list descends in priority.
abbrev pub IsDescending : (ℕ → ℤ) → List ℕ → Type 0
IsDescending priority [] = Unit
IsDescending priority (x ∷ xs) = All (NotAbove priority x) xs × IsDescending priority xs

-- The ready list descends, and no thread in it is above the one that runs.
pub record RunsHighest (k : Kernel) : Type 0 where
  pub descending : IsDescending (priority_of k) k.ready_list
  pub highest : All (NotAbove (priority_of k) k.current) k.ready_list

module _ (priority : ℕ → ℤ) where
  pub NotAbove-trans :
      (x y z : ℕ) → NotAbove priority x y → NotAbove priority y z → NotAbove priority x z
  NotAbove-trans x y z p q = ground (arith, p, q)

  pub All-trans :
      (x y : ℕ) (zs : List ℕ)
      → NotAbove priority x y
      → All (NotAbove priority y) zs
      → All (NotAbove priority x) zs
  All-trans x y [] p a = tt
  All-trans x y (z ∷ zs) p a = (NotAbove-trans x y z p a.0, All-trans x y zs p a.1)

  abbrev pub before : ℕ → ℕ → Bool
  before x y = ltb_ℤ (priority y) (priority x)

  All-insert :
      (x e : ℕ) (xs : List ℕ)
      → NotAbove priority x e
      → All (NotAbove priority x) xs
      → All (NotAbove priority x) (insert_ordered before e xs)
  All-insert x e [] p a = (p, tt)
  All-insert x e (y ∷ ys) p a = elim (Bool-cases (before e y)) [
    | inl stop ↦ rw stop (p, a)
    | inr on ↦ rw on (a.0, All-insert x e ys p a.1)
  ]

  pub insert-IsDescending :
      (e : ℕ) (xs : List ℕ)
      → IsDescending priority xs
      → IsDescending priority (insert_ordered before e xs)
  insert-IsDescending e [] d = (tt, tt)
  insert-IsDescending e (y ∷ ys) d = elim (Bool-cases (before e y)) [
    | inl stop ↦ rw stop ((ground (arith, stop), All-trans e y ys (ground (arith, stop)) d.0), d)
    | inr on ↦ rw on (All-insert y e ys on d.0, insert-IsDescending e ys d.1)
  ]

  module _ (other : ℕ → ℤ) where
    pub All-same :
        (x : ℕ) (ys : List ℕ)
        → other x ≡ priority x
        → All (λ y. other y ≡ priority y) ys
        → All (NotAbove priority x) ys
        → All (NotAbove other x) ys
    All-same x [] e s a = tt
    All-same x (y ∷ ys) e s a = (rw (e, s.0) a.0, All-same x ys e s.1 a.1)

    -- Only the priorities of its threads matter to a list.
    pub IsDescending-same :
        (xs : List ℕ)
        → All (λ y. other y ≡ priority y) xs
        → IsDescending priority xs
        → IsDescending other xs
    IsDescending-same [] s d = tt
    IsDescending-same (x ∷ xs) s d = (All-same x xs s.0 s.1 d.0, IsDescending-same xs s.1 d.1)

pub All-each : {P : ℕ → Type 0} (xs : List ℕ) → ((x : ℕ) → P x) → All P xs
All-each [] f = tt
All-each (x ∷ xs) f = (f x, All-each xs f)

-- The current thread may call the scheduler.
pub record MayYield (k : Kernel) : Type 0 where
  pub outside : k.intr_context ≡ false
  pub runs : is_running (status_of k k.current) ≡ true

-- A change of a status leaves the priorities as they are.
pub priority_of-set_status :
    (t : ℕ) (st : Status) (k : Kernel) (u : ℕ) → priority_of (set_status t st k) u ≡ priority_of k u
priority_of-set_status t st k u =
    at-update (λ (th : Thread). th.priority) k.thread t (record (k.thread t) { status = st }) u
    ∙ elim (Bool-cases (u == t)) [
      | inl on ↦ rw on (ap (priority_of k) (sym (==→eq u t on)))
      | inr off ↦ rw off refl
    ]
