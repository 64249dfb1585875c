-- ===== src/Threads/Timer.antt =====
-- Sleeping threads: CS330_projects/proj1/devices/timer.c, and thread_tick of threads/thread.c. A tick
-- is an int64_t that does not overflow; timer_sleep is called with an integer.
use cs_courses.Base.{
  ℕ, zero, suc, ◌+◌, Bool, true, false, List, [], ◌∷◌, ℤ, pos, negsuc, ltb, leb, ltb_ℤ, ◌==◌,
  if◌then◌else◌,
}
use cs_courses.Threads.{
  Kernel, Run, ok, ◌>>=◌, insert_ordered, priority_of, set_thread, points_to, thread_block,
  thread_unblock, yield,
}

abbrev pub wakeup_of : Kernel → ℕ → ℕ
wakeup_of k t = let th = k.thread t in th.wakeup_time

-- cmp_wtime
abbrev pub cmp_wtime : Kernel → ℕ → ℕ → Bool
cmp_wtime k x y =
    if ltb (wakeup_of k x) (wakeup_of k y)
    then true
    else if wakeup_of k x == wakeup_of k y
    then ltb_ℤ (priority_of k y) (priority_of k x)
    else false

-- timer_sleep, for a positive number of ticks
unfoldable pub sleep_for : ℕ → Kernel → Run Kernel
unfolding thread_block
sleep_for n k = do
  let th = k.thread k.current
  let k' = set_thread k.current (record th { wakeup_time = k.ticks + n }) k
  thread_block (record k' { wait_list = insert_ordered (cmp_wtime k') k.current k.wait_list })

-- timer_sleep
unfoldable pub sleep : ℤ → Kernel → Run Kernel
unfolding sleep_for
sleep (negsuc n) k = ok k
sleep (pos zero) k = ok k
sleep (pos (suc n)) k = sleep_for (suc n) k

-- The loop of timer_interrupt, over the list of sleeping threads.
unfoldable pub wake_loop : List ℕ → Kernel → Run Kernel
unfolding thread_unblock
wake_loop [] k = ok (record k { wait_list = [] })
wake_loop (t ∷ rest) k = elim (leb (wakeup_of k t) k.ticks) [
  | true ↦ thread_unblock t (record k { wait_list = rest }) >>= wake_loop rest
  | false ↦ ok (record k { wait_list = t ∷ rest })
]

-- TIME_SLICE
abbrev pub time_slice : ℕ
time_slice = 4

-- thread_tick, and whether the interrupted thread has to yield
unfoldable pub thread_tick : Kernel → Kernel × Bool
thread_tick k =
    let idle = points_to k.idle_thread k.current in
    (
      record k {
        idle_ticks = if idle then k.idle_ticks + 1 else k.idle_ticks;
        kernel_ticks = if idle then k.kernel_ticks else k.kernel_ticks + 1;
        thread_ticks = k.thread_ticks + 1;
      },
      leb time_slice (k.thread_ticks + 1),
    )

unfoldable pub end_tick : Kernel → Run Kernel
unfolding thread_tick yield
end_tick k = let (k', late) = thread_tick k in if late then yield k' else ok k'

-- timer_interrupt, with the yield that intr_handler makes before it returns
unfoldable pub timer_interrupt : Kernel → Run Kernel
unfolding wake_loop end_tick
timer_interrupt k = do
  let k' = record k { ticks = k.ticks + 1 }
  k'' ← if k'.init_wlist then wake_loop k'.wait_list k' else ok k'
  end_tick k''
