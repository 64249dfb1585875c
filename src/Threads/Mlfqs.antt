-- ===== src/Threads/Mlfqs.antt =====
-- The formulas of the feedback scheduler in CS330_projects/proj1/threads/thread.c, in fixed point with 14
-- binary digits. An int64_t or int that overflows is not modelled; load_avg is an argument.
use cs_courses.Base.{
  ℕ, ◌+◌, ◌*◌, ◌/◌, ◌<◌, ◌≡◌, refl, sym, ap, ◌∙◌, true, ◌||◌, List, [], ◌∷◌, ℤ, pos, ◌+ℤ◌, ◌-ℤ◌,
  ◌*ℤ◌, ◌/ℤ◌, ◌==◌, ==→eq, if◌then◌else◌, length, Bool-cases, inl, inr, arith,
}
use cs_courses.Threads.{Thread, Kernel, set_thread, points_to}
use cs_courses.Threads.Sync.{mem}
use cs_courses.Threads.Frame.Waking.{at-update}

-- 1 << 14
abbrev pub unit : ℤ
unit = pos 16384

-- load_frac of eval_recentcpu
unfoldable pub load_frac : ℤ → ℤ
load_frac load_avg = pos 2 *ℤ load_avg /ℤ (pos 2 *ℤ load_avg +ℤ unit)

-- The body of the loops of eval_recentcpu.
unfoldable pub new_cpu : ℤ → Thread → ℤ
new_cpu frac th = frac *ℤ th.recent_cpu /ℤ unit +ℤ th.nice

unfoldable pub cpu_loop : ℤ → List ℕ → Kernel → Kernel
unfolding new_cpu
cpu_loop frac [] k = k
cpu_loop frac (t ∷ ts) k =
    let th = k.thread t in
    cpu_loop frac ts (set_thread t (record th { recent_cpu = new_cpu frac th }) k)

-- eval_recentcpu
unfoldable pub eval_recentcpu : ℤ → Kernel → Kernel
unfolding cpu_loop load_frac
eval_recentcpu load_avg k =
    if k.init_wlist
    then cpu_loop (load_frac load_avg) k.ready_list (cpu_loop (load_frac load_avg) k.wait_list k)
    else k

-- The body of the loops of eval_priority; PRI_MAX is 63.
unfoldable pub new_priority : Thread → ℤ
new_priority th = pos 63 -ℤ th.recent_cpu /ℤ pos 4 /ℤ unit -ℤ th.nice *ℤ pos 2

unfoldable pub priority_loop : List ℕ → Kernel → Kernel
unfolding new_priority
priority_loop [] k = k
priority_loop (t ∷ ts) k =
    let th = k.thread t in
    priority_loop ts (set_thread t (record th { priority = new_priority th }) k)

-- eval_priority
unfoldable pub eval_priority : Kernel → Kernel
unfolding priority_loop
eval_priority k =
    if k.init_wlist then priority_loop k.wait_list (priority_loop k.ready_list k) else k

-- eval_loadavg
unfoldable pub eval_loadavg : ℤ → Kernel → ℤ
eval_loadavg load_avg k =
    let running = if points_to k.idle_thread k.current then 0 else 1 in
    pos 59 *ℤ load_avg /ℤ pos 60 +ℤ pos (running + length k.ready_list) *ℤ unit /ℤ pos 60

-- thread_get_load_avg and thread_get_recent_cpu
unfoldable pub get_load_avg : ℤ → ℤ
get_load_avg load_avg = load_avg *ℤ pos 100 /ℤ unit

unfoldable pub get_recent_cpu : Kernel → ℤ
get_recent_cpu k = let th = k.thread k.current in th.recent_cpu *ℤ pos 100 /ℤ unit

-- A product with a positive factor that is not zero, and a quotient of numbers, have no sign.
small : (a b : ℕ) → a < b → a / b ≡ 0
small a b h = grind arith

mul-pos : (a b : ℕ) → pos a *ℤ pos b ≡ pos (a * b)
unfolding ◌*ℤ◌
mul-pos a b = grind arith

div-pos : (a b : ℕ) → pos a /ℤ pos b ≡ pos (a / b)
unfolding ◌/ℤ◌
div-pos a b = ap (λ n. pos (n / (b + 0))) (omega arith) ∙ ap (λ n. pos (a / n)) (omega arith)

add-pos : (a b : ℕ) → pos a +ℤ pos b ≡ pos (a + b)
unfolding ◌+ℤ◌
add-pos a b = ground arith

zero-mul : (a : ℤ) → pos 0 *ℤ a ≡ pos 0
unfolding ◌*ℤ◌
zero-mul a = ground arith

zero-add : (a : ℤ) → pos 0 +ℤ a ≡ a
unfolding ◌+ℤ◌
zero-add a = ground arith

eval_loadavg-pos : (n : ℕ) (k : Kernel) → (m : ℕ) × (eval_loadavg (pos n) k ≡ pos m)
unfolding eval_loadavg
eval_loadavg-pos n k =
    let running = if points_to k.idle_thread k.current then 0 else 1 in
    let busy = (running + length k.ready_list) * 16384 in
    (
      59 * n / 60 + busy / 60,
      rw (mul-pos, mul-pos, div-pos, div-pos) (add-pos (59 * n / 60) (busy / 60)),
    )

load_frac-zero : (n : ℕ) → load_frac (pos n) ≡ pos 0
unfolding load_frac
load_frac-zero n =
    rw (mul-pos 2 n, add-pos (2 * n) 16384, div-pos (2 * n) (2 * n + 16384))
      (ap pos (small (2 * n) (2 * n + 16384) (omega arith)))

new_cpu-nice : (th : Thread) → new_cpu (pos 0) th ≡ th.nice
unfolding new_cpu
new_cpu-nice th = rw (zero-mul th.recent_cpu, div-pos 0 16384) (zero-add th.nice)

abbrev pub cpu_of : Kernel → ℕ → ℤ
cpu_of k t = let th = k.thread t in th.recent_cpu

abbrev pub nice_of : Kernel → ℕ → ℤ
nice_of k t = let th = k.thread t in th.nice

module _ (k : Kernel) (u : ℕ) (c : ℤ) (t : ℕ) where
  nice-set : nice_of (set_thread u (record (k.thread u) { recent_cpu = c }) k) t ≡ nice_of k t
  nice-set =
      at-update (λ (th : Thread). th.nice) k.thread u (record (k.thread u) { recent_cpu = c }) t
      ∙ elim (Bool-cases (t == u)) [
        | inl on ↦ rw on (ap (nice_of k) (sym (==→eq t u on)))
        | inr off ↦ rw off refl
      ]

  cpu-set :
      cpu_of (set_thread u (record (k.thread u) { recent_cpu = c }) k) t
      ≡ (if t == u then c else cpu_of k t)
  cpu-set =
      at-update (λ (th : Thread). th.recent_cpu) k.thread u (record (k.thread u) { recent_cpu = c })
        t

cpu_loop-nice :
    (ts : List ℕ) (k : Kernel) (t : ℕ)
    → (cpu_of (cpu_loop (pos 0) ts k) t ≡ (if mem t ts then nice_of k t else cpu_of k t))
      × (nice_of (cpu_loop (pos 0) ts k) t ≡ nice_of k t)
unfolding cpu_loop
cpu_loop-nice [] k t = (refl, refl)
cpu_loop-nice (u ∷ us) k t =
    let th = k.thread u in
    let c = new_cpu (pos 0) th in
    let k1 = set_thread u (record th { recent_cpu = c }) k in
    let (cpu, nice) = cpu_loop-nice us k1 t in
    (
      ground (
        arith,
        cpu,
        nice-set k u c t,
        cpu-set k u c t,
        new_cpu-nice th,
        λ (e : (t == u) ≡ true). ap (nice_of k) (==→eq t u e),
      ),
      nice ∙ nice-set k u c t,
    )

-- Once the list of sleeping threads has been initialised (init_wlist), and for a load average that is not
-- negative, eval_recentcpu sets the recent_cpu of every sleeping or ready
-- thread to its nice value, whatever it was, and leaves that of the others alone: the fraction of the
-- load average is computed as a quotient of integers, which is 0.
pub eval_recentcpu-nice :
    (n : ℕ) (k : Kernel) (t : ℕ)
    → k.init_wlist ≡ true
    → cpu_of (eval_recentcpu (pos n) k) t
      ≡ (if mem t k.wait_list || mem t k.ready_list then nice_of k t else cpu_of k t)
unfolding eval_recentcpu
eval_recentcpu-nice n k t on =
    let k1 = cpu_loop (pos 0) k.wait_list k in
    let (cpu, nice) = cpu_loop-nice k.wait_list k t in
    let (cpu', _) = cpu_loop-nice k.ready_list k1 t in
    rw (eval_recentcpu, on, load_frac-zero n) (ground (arith, cpu, nice, cpu'))
