-- ===== src/Threads/Frame.antt =====
-- What the scheduler leaves alone: no switch, wake-up or change of a priority touches the value or
-- the holder of a lock, or what a thread still has to do.
pub mod Waking
use cs_courses.Base.{
  ℕ, zero, suc, ◌+◌, ◌≡◌, refl, ap, ◌∙◌, Bool, true, false, Option, none, some, List, [], ◌∷◌, ℤ,
  pos, negsuc, ltb_ℤ, leb, if◌then◌else◌, Bool-cases, inl, inr, Option-cases,
}
use cs_courses.Threads.{
  Status, blocked, ready, Op, Thread, Semaphore, Lock, Kernel, Run, ok, panic, fault, out_of_fuel,
  ◌>>=◌, set_status, is_running, is_blocked, points_to, priority_of, run_next, schedule, is_running,
  status_of, thread_block, thread_unblock, yield, yield_below, yield_if_nonmax, switch_to,
  insert_ready, set_thread, insert_ordered,
}
use cs_courses.Threads.Timer.{
  wakeup_of, cmp_wtime, sleep, sleep_for, wake_loop, thread_tick, end_tick, timer_interrupt,
}

abbrev pub value_of : Kernel → ℕ → ℕ
value_of k l = let lk = k.lock l in let s = lk.semaphore in s.value

abbrev pub holder_of : Kernel → ℕ → Option ℕ
holder_of k l = let lk = k.lock l in lk.holder

pub record Same (k k' : Kernel) : Type 0 where
  pub value : (l : ℕ) → value_of k' l ≡ value_of k l
  pub holder : (l : ℕ) → holder_of k' l ≡ holder_of k l
  pub todo : (t : ℕ) → k'.todo t ≡ k.todo t

pub Same-refl : (k : Kernel) → Same k k
Same-refl k = record { value = λ l. refl; holder = λ l. refl; todo = λ t. refl }

pub Same-of : {k k' : Kernel} → k'.lock ≡ k.lock → k'.todo ≡ k.todo → Same k k'
Same-of e f = record {
  value = λ l. ap (λ (m : ℕ → Lock). let lk = m l in let s = lk.semaphore in s.value) e;
  holder = λ l. ap (λ (m : ℕ → Lock). let lk = m l in lk.holder) e;
  todo = λ t. ap (λ (m : ℕ → List Op). m t) f;
}

pub Same-trans : {k k' k'' : Kernel} → Same k k' → Same k' k'' → Same k k''
Same-trans p q = record {
  value = λ l. q.value l ∙ p.value l;
  holder = λ l. q.holder l ∙ p.holder l;
  todo = λ t. q.todo t ∙ p.todo t;
}

-- Where a run returns, it has left these alone.
abbrev pub Frames : Kernel → Run Kernel → Type 0
Frames k (ok k') = Same k k'
Frames k _ = Unit

pub Frames-trans : (k k' : Kernel) (r : Run Kernel) → Same k k' → Frames k' r → Frames k r
Frames-trans k k' (ok k'') p q = Same-trans p q
Frames-trans k k' panic p q = tt
Frames-trans k k' fault p q = tt
Frames-trans k k' out_of_fuel p q = tt

pub Frames-bind :
    (k : Kernel) (r : Run Kernel) (f : Kernel → Run Kernel)
    → Frames k r
    → ((k' : Kernel) → Frames k' (f k'))
    → Frames k (r >>= f)
Frames-bind k (ok k') f p q = Frames-trans k k' (f k') p (q k')
Frames-bind k panic f p q = tt
Frames-bind k fault f p q = tt
Frames-bind k out_of_fuel f p q = tt

pub Frames-Same : (k k' : Kernel) (r : Run Kernel) → r ≡ ok k' → Frames k r → Same k k'
Frames-Same k k' r e p = rw e at p

run_next-Frames : (k : Kernel) (ts : List ℕ) → Frames k (run_next k ts)
unfolding run_next
run_next-Frames k [] =
    elim k.idle_thread as (λ o. Frames k (elim o [ none ↦ panic | some t ↦ ok (switch_to t k) ])) [
      | none ↦ tt
      | some t ↦ Same-of refl refl
    ]
run_next-Frames k (t ∷ ts) = Same-of refl refl

-- A branch of a test keeps the frame where both sides do.
pub Frames-if :
    (k : Kernel) (b : Bool) (r s : Run Kernel)
    → Frames k r
    → Frames k s
    → Frames k (if b then r else s)
Frames-if k true r s p q = p
Frames-if k false r s p q = q

pub schedule-Frames : (k : Kernel) → Frames k (schedule k)
unfolding schedule
schedule-Frames k = Frames-if k _ panic _ tt (run_next-Frames k k.ready_list)

pub thread_block-Frames : (k : Kernel) → Frames k (thread_block k)
unfolding thread_block
thread_block-Frames k = Frames-if k k.intr_context panic _ tt (
    Frames-if k (is_running (status_of k k.current)) _ panic
      (Frames-trans k _ (schedule (set_status k.current blocked k)) (Same-of refl refl)
        (schedule-Frames (set_status k.current blocked k)))
      tt)

pub thread_unblock-Frames : (t : ℕ) (k : Kernel) → Frames k (thread_unblock t k)
unfolding thread_unblock
thread_unblock-Frames t k = Frames-if k _ (ok _) panic (Same-of refl refl) tt

-- The kernel that thread_yield leaves to the scheduler.
abbrev put_back : Kernel → Bool → Kernel
put_back k is_idle = set_status k.current ready (if is_idle then k else insert_ready k.current k)

put_back-Same : (k : Kernel) (is_idle : Bool) → Same k (put_back k is_idle)
put_back-Same k true = Same-of refl refl
put_back-Same k false = Same-of refl refl

pub yield-Frames : (k : Kernel) → Frames k (yield k)
unfolding yield
yield-Frames k =
    let k' = put_back k (points_to k.idle_thread k.current) in
    Frames-if k k.intr_context panic _ tt (
      Frames-if k (is_running (status_of k k.current)) (schedule k') panic
        (Frames-trans k k' (schedule k') (put_back-Same k (points_to k.idle_thread k.current))
          (schedule-Frames k'))
        tt)

yield_below-Frames : (k : Kernel) (ts : List ℕ) → Frames k (yield_below k ts)
unfolding yield_below
yield_below-Frames k [] = Same-of refl refl
yield_below-Frames k (t ∷ ts) = Frames-if k _ (yield k) (ok k) (yield-Frames k) (Same-of refl refl)

pub yield_if_nonmax-Frames : (k : Kernel) → Frames k (yield_if_nonmax k)
unfolding yield_if_nonmax
yield_if_nonmax-Frames k = yield_below-Frames k k.ready_list

wake_loop-Frames : (ts : List ℕ) (k : Kernel) → Frames k (wake_loop ts k)
unfolding wake_loop
wake_loop-Frames [] k = Same-of refl refl
wake_loop-Frames (t ∷ ts) k =
    let k' = record k { wait_list = ts } in
    elim (Bool-cases (leb (wakeup_of k t) k.ticks)) [
      | inl due ↦
          rw (wake_loop, due)
            (Frames-bind k (thread_unblock t k') (wake_loop ts)
              (Frames-trans k k' (thread_unblock t k') (Same-of refl refl)
                (thread_unblock-Frames t k'))
              (wake_loop-Frames ts))
      | inr late ↦ rw (wake_loop, late) (Same-of refl refl)
    ]

end_tick-Frames : (k : Kernel) → Frames k (end_tick k)
unfolding end_tick thread_tick
end_tick-Frames k =
    let k' = (thread_tick k).0 in
    Frames-if k (thread_tick k).1 (yield k') (ok k')
      (Frames-trans k k' (yield k') (Same-of refl refl) (yield-Frames k')) (Same-of refl refl)

pub timer_interrupt-Frames : (k : Kernel) → Frames k (timer_interrupt k)
unfolding timer_interrupt
timer_interrupt-Frames k =
    let k' = record k { ticks = k.ticks + 1 } in
    Frames-bind k (if k'.init_wlist then wake_loop k'.wait_list k' else ok k') end_tick
      (Frames-if k _ (wake_loop k'.wait_list k') (ok k')
        (Frames-trans k k' (wake_loop k'.wait_list k') (Same-of refl refl)
          (wake_loop-Frames k'.wait_list k'))
        (Same-of refl refl))
      end_tick-Frames

pub sleep-Frames : (n : ℤ) (k : Kernel) → Frames k (sleep n k)
unfolding sleep
sleep-Frames (negsuc n) k = Same-of refl refl
sleep-Frames (pos zero) k = Same-of refl refl
sleep-Frames (pos (suc n)) k =
    let th = k.thread k.current in
    let k' = set_thread k.current (record th { wakeup_time = k.ticks + suc n }) k in
    let k'' = record k' { wait_list = insert_ordered (cmp_wtime k') k.current k.wait_list } in
    Frames-trans k k'' (thread_block k'') (Same-of refl refl) (thread_block-Frames k'')
