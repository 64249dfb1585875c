-- ===== src/Threads/Frame/Waking.antt =====
-- What semaphores and donations leave alone: waking a waiter changes no value and no holder, and
-- sema_up adds one to the value of its semaphore.
use cs_courses.Base.{
  ℕ, zero, suc, ◌+◌, ◌≡◌, refl, sym, ap, ◌∙◌, true, false, Option, none, some, List, [], ◌∷◌, ltb_ℤ,
  max_ℤ, ◌==◌, ==→eq, if◌then◌else◌, update, Bool-cases, inl, inr,
}
use cs_courses.KernelList.Walk.Read.{best_of}
use cs_courses.Threads.{
  Op, lock_donate, Semaphore, Lock, Kernel, Run, ok, panic, fault, out_of_fuel, ◌>>=◌, priority_of,
  cmp_prr2, set_priority, thread_unblock, yield_if_nonmax, get_max_priority,
}
use cs_courses.Threads.Sync.{
  Place, plain, in_lock, semaphore_at, put_semaphore, remove, wake, wake_one, count_up, up_at,
  donate_loop, donate, signal_first, signal, is_held, start_acquire, give_priority, then_do,
}
use cs_courses.Threads.Frame.{
  Same, Same-of, Frames, Frames-trans, Frames-if, thread_unblock-Frames, yield_if_nonmax-Frames,
}

abbrev pub value_in : (ℕ → Lock) → ℕ → ℕ
value_in f m = let lk = f m in let s = lk.semaphore in s.value

abbrev pub holder_in : (ℕ → Lock) → ℕ → Option ℕ
holder_in f m = let lk = f m in lk.holder

pub at-update {ℓ κ} :
    {A : Type ℓ} {B : Type κ} (g : A → B) (f : ℕ → A) (l : ℕ) (a : A) (m : ℕ)
    → g (update f l a m) ≡ (if m == l then g a else g (f m))
at-update g f l a m =
    elim (m == l) as (λ b. g (if b then a else f m) ≡ (if b then g a else g (f m))) [
      | true ↦ refl
      | false ↦ refl
    ]

module _ (f : ℕ → Lock) (l : ℕ) (lk : Lock) (m : ℕ) where
  pub value-update :
      value_in (update f l lk) m
      ≡ (if m == l then (let s = lk.semaphore in s.value) else value_in f m)
  value-update = at-update (λ (x : Lock). let s = x.semaphore in s.value) f l lk m

  pub holder-update : holder_in (update f l lk) m ≡ (if m == l then lk.holder else holder_in f m)
  holder-update = at-update (λ (x : Lock). x.holder) f l lk m

pub if_self {ℓ} : {A : Type ℓ} (f : ℕ → A) (l m : ℕ) → (if m == l then f l else f m) ≡ f m
if_self f l m = elim (Bool-cases (m == l)) [
  | inl on ↦ rw on (ap f (sym (==→eq m l on)))
  | inr off ↦ rw off refl
]

pub put-Same :
    (p : Place) (v : Semaphore) (k : Kernel)
    → (let s = semaphore_at p k in v.value ≡ s.value)
    → Same k (put_semaphore p v k)
put-Same (plain s) v k h = Same-of refl refl
put-Same (in_lock l) v k h =
    let lk = record (k.lock l) { semaphore = v } in
    record {
      value = λ m. value-update k.lock l lk m ∙ rw h (if_self (value_in k.lock) l m);
      holder = λ m. holder-update k.lock l lk m ∙ if_self (holder_in k.lock) l m;
      todo = λ t. refl;
    }

wake-Frames : (p : Place) (k : Kernel) (w : ℕ) (ws : List ℕ) → Frames k (wake p k w ws)
unfolding wake
wake-Frames p k w ws =
    let e = best_of (cmp_prr2 k) w ws in
    let s = semaphore_at p k in
    let s' = record s { waiters = remove e (w ∷ ws) } in
    let k' = put_semaphore p s' k in
    let curr = k'.thread k'.current in
    let k'' =
      set_priority k'.current (max_ℤ (get_max_priority k' k'.current) curr.orig_priority) k' in
    Frames-trans k k' (thread_unblock e k'') (put-Same p s' k refl)
      (Frames-trans k' k'' (thread_unblock e k'') (Same-of refl refl) (thread_unblock-Frames e k''))

wake_one-Frames : (p : Place) (k : Kernel) (ws : List ℕ) → Frames k (wake_one p k ws)
unfolding wake_one
wake_one-Frames p k [] = Same-of refl refl
wake_one-Frames p k (w ∷ ws) = wake-Frames p k w ws

-- sema_up adds one to its semaphore's value and changes no other, nor a holder or a todo list.
count_up-Same : (p : Place) (k k' : Kernel) → Same k k' → Same (count_up p k) (count_up p k')
count_up-Same (plain s) k k' same = record {
  value = same.value;
  holder = same.holder;
  todo = same.todo;
}
count_up-Same (in_lock l) k k' same =
    let s = semaphore_at (in_lock l) k in
    let s' = semaphore_at (in_lock l) k' in
    let lk = record (k.lock l) { semaphore = record s { value = s.value + 1 } } in
    let lk' = record (k'.lock l) { semaphore = record s' { value = s'.value + 1 } } in
    record {
      value = λ m.
          value-update k'.lock l lk' m
          ∙ rw (same.value l, same.value m) (sym (value-update k.lock l lk m));
      holder = λ m.
          holder-update k'.lock l lk' m
          ∙ rw (same.holder l, same.holder m) (sym (holder-update k.lock l lk m));
      todo = same.todo;
    }

pub up_at-Frames : (p : Place) (k : Kernel) → Frames (count_up p k) (up_at p k)
unfolding up_at
up_at-Frames p k =
    let s = semaphore_at p k in up_done (wake_one p k s.waiters) (wake_one-Frames p k s.waiters)
  where
    up_done :
        (r : Run Kernel)
        → Frames k r
        → Frames (count_up p k) (r >>= (λ k'. yield_if_nonmax (count_up p k')))
    up_done (ok k') same =
        Frames-trans (count_up p k) (count_up p k') (yield_if_nonmax (count_up p k'))
          (count_up-Same p k k' same) (yield_if_nonmax-Frames (count_up p k'))
    up_done panic same = tt
    up_done fault same = tt
    up_done out_of_fuel same = tt

pub Frames-Option :
    {A : Type 0} (k : Kernel) (o : Option A) (r : Run Kernel) (f : A → Run Kernel)
    → Frames k r
    → ((a : A) → Frames k (f a))
    → Frames k (elim o [ none ↦ r | some a ↦ f a ])
Frames-Option k none r f p q = p
Frames-Option k (some a) r f p q = q a

donate_loop-Frames : (fuel lp : ℕ) (k : Kernel) → Frames k (donate_loop fuel lp k)
unfolding donate_loop
donate_loop-Frames zero lp k = tt
donate_loop-Frames (suc fuel) lp k =
    let lk = k.lock lp in
    Frames-Option k lk.holder fault _ tt (λ h.
      let th = k.thread h in
      Frames-Option k th.waiting (ok k) _ (Same-of refl refl) (λ lp'.
        let lk' = k.lock lp' in
        Frames-Option k lk'.holder fault _ tt (λ h'.
          let k' = set_priority h' (max_ℤ (priority_of k k.current) (get_max_priority k h')) k in
          Frames-trans k k' (donate_loop fuel lp' k') (Same-of refl refl)
            (donate_loop-Frames fuel lp' k'))))

pub donate-Frames : (fuel l : ℕ) (k : Kernel) → Frames k (donate fuel l k)
unfolding donate
donate-Frames fuel l k =
    let lk = k.lock l in
    Frames-Option k lk.holder (ok k) _ (Same-of refl refl) (λ h.
      let k' = set_priority h (max_ℤ (priority_of k k.current) (get_max_priority k h)) k in
      elim (ltb_ℤ (priority_of k h) (priority_of k k.current))
        as (λ b. Frames k (elim b [ false ↦ ok k | true ↦ donate_loop fuel l k' ])) [
          | false ↦ Same-of refl refl
          | true ↦
              Frames-trans k k' (donate_loop fuel l k') (Same-of refl refl)
                (donate_loop-Frames fuel l k')
        ])

pub up_plain-Frames : (s : ℕ) (k : Kernel) → Frames k (up_at (plain s) k)
up_plain-Frames s k =
    let k' = count_up (plain s) k in
    Frames-trans k k' (up_at (plain s) k) (Same-of refl refl) (up_at-Frames (plain s) k)

pub signal-Frames : (c l : ℕ) (k : Kernel) → Frames k (signal c l k)
unfolding signal signal_first
signal-Frames c l k =
    Frames-if k (is_held l k) (signal_first c k (k.cond c)) panic (first (k.cond c)) tt
  where
    first : (ws : List ℕ) → Frames k (signal_first c k ws)
    first [] = Same-of refl refl
    first (w ∷ ws) =
        let k' = record k { cond = update k.cond c ws } in
        Frames-trans k k' (up_at (plain w) k') (Same-of refl refl) (up_plain-Frames w k')

pub start_acquire-Frames :
    (l : ℕ) (rest : List Op) (k : Kernel)
    → Frames (then_do (lock_donate l ∷ rest) k) (start_acquire l rest k)
unfolding start_acquire
start_acquire-Frames l rest k =
    Frames-if (then_do (lock_donate l ∷ rest) k) (is_held l k) panic _ tt (Same-of refl refl)

pub give_priority-Frames : (fuel l : ℕ) (k : Kernel) → Frames k (give_priority fuel l k)
unfolding give_priority
give_priority-Frames fuel l k =
    Frames-if k k.mlfqs (ok k) (donate fuel l k) (Same-of refl refl) (donate-Frames fuel l k)
