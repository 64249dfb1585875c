-- ===== src/Shell/Jobs/Invariant.antt =====
-- The well-formed job tables of CS230_projects/shelllab/tsh.c, and what keeps them well-formed.
use cs_courses.Base.{
  ℕ, suc, ◌+◌, ◌≤◌, ◌<◌, ◌≡◌, refl, ◌⊎◌, inl, some, List, arith, ◌==◌, length, get_elem?, All,
}
use cs_courses.Shell.Jobs.{
  Job, JobState, Shell, max_jobs, clear_job, init_jobs, set_job, pid_is, fg_is, fill_slot, bump_jid,
}
use cs_courses.Shell.Jobs.Table.{one_if, count, count-set_job, length-set_job, All-set_job}

-- A slot is cleared, or holds a job with a process id and a job id.
abbrev pub IsSlot : Job → Type 0
IsSlot j = (j ≡ clear_job) ⊎ ((0 < j.pid) × (0 < j.jid))

-- The table has its fixed size, no process stands in two slots, and at most one job is in the
-- foreground.
pub record IsTable (js : List Job) (next : ℕ) : Type 0 where
  pub size : length js ≡ max_jobs
  pub slots : All IsSlot js
  pub pids : (n : ℕ) → count (pid_is (suc n)) js ≤ 1
  pub one_fg : count fg_is js ≤ 1
  pub next_pos : 0 < next

abbrev pub IsShell : Shell → Type 0
IsShell s = IsTable s.jobs s.nextjid

pub bump_jid-pos : (n : ℕ) → 0 < bump_jid n
unfolding bump_jid
bump_jid-pos n = ground arith

pub init-IsTable : IsTable init_jobs 1
unfolding init_jobs count
init-IsTable = record {
  size = refl;
  slots = ground arith;
  pids = λ n. ground arith;
  one_fg = omega arith;
  next_pos = omega arith;
}

pub fill_slot-jobs :
    (s : Shell) (i n : ℕ) (state : JobState) (cmdline : List ℕ)
    → ((fill_slot s i n state cmdline).jobs
        ≡ set_job s.jobs i (record { pid = n; jid = s.nextjid; state = state; cmdline = cmdline }))
      × ((fill_slot s i n state cmdline).nextjid ≡ bump_jid s.nextjid)
unfolding fill_slot
fill_slot-jobs s i n state cmdline = ground arith

module _ (js : List Job) (next : ℕ) (ok : IsTable js next) (i : ℕ) (j : Job)
    (at : get_elem? js i ≡ some j) where
  -- A job with a process of its own goes into any slot.
  pub set_job-IsTable :
      (k : Job) (m : ℕ)
      → IsSlot k
      → count (pid_is k.pid) js ≤ one_if (j.pid == k.pid)
      → one_if (fg_is k) + count fg_is js ≤ 1 + one_if (fg_is j)
      → 0 < m
      → IsTable (set_job js i k) m
  set_job-IsTable k m slot fresh one p = record {
    size = omega (arith, length-set_job js i k, ok.size);
    slots = All-set_job IsSlot js i k ok.slots slot;
    pids = λ n. own n;
    one_fg = omega (arith, count-set_job fg_is js i j k at);
    next_pos = p;
  }
    where
      own : (n : ℕ) → count (pid_is (suc n)) (set_job js i k) ≤ 1
      own n = ground (arith, count-set_job (pid_is (suc n)) js i j k at, ok.pids n)

  pub clear-IsTable : (m : ℕ) → 0 < m → IsTable (set_job js i clear_job) m
  clear-IsTable m p = record {
    size = omega (arith, length-set_job js i clear_job, ok.size);
    slots = All-set_job IsSlot js i clear_job ok.slots (inl refl);
    pids = λ n. ground (arith, count-set_job (pid_is (suc n)) js i j clear_job at, ok.pids n);
    one_fg = ground (arith, count-set_job fg_is js i j clear_job at, ok.one_fg);
    next_pos = p;
  }
