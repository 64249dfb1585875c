-- ===== src/Shell/Jobs.antt =====
-- The job list of CS230_projects/shelllab/tsh.c: `struct job_t`, the table `jobs`, `nextjid` and
-- the helper routines. A `pid_t` or `int` argument is an integer; the stored `pid` and `jid` are
-- never negative, since `addjob` refuses a pid below 1 and `nextjid` starts at 1. A pointer into the
-- table is an index, given together with the slot that it points at. What the program prints or
-- sends is a trace, newest event first.
pub mod Table
pub mod Invariant
pub mod Add
pub mod Delete
use cs_courses.Base.{
  ℕ, zero, suc, ◌+◌, ◌-◌, Bool, true, false, Option, none, some, List, [], ◌∷◌, ℤ, pos, negsuc, ltb,
  ◌==◌, if◌then◌else◌, length, replicate,
}
use mathlib.Core.Option

pub data JobState : Type 0 where
  undef fg bg st : JobState

pub record Job : Type 0 where
  pub pid : ℕ
  pub jid : ℕ
  pub state : JobState
  pub cmdline : List ℕ

abbrev pub max_jobs : ℕ
max_jobs = 16

-- The signals that the shell itself sends or reports.
pub data Signal : Type 0 where
  sigint sigtstp sigcont : Signal

pub data Event : Type 0 where
  job_added : ℕ → ℕ → List ℕ → Event
  too_many_jobs : Event
  job_line : ℕ → ℤ → List ℕ → Event
  job_listed : ℕ → Job → Event
  job_stopped : ℕ → ℕ → ℕ → Event
  job_terminated : ℕ → ℕ → ℕ → Event
  requires_argument : List ℕ → Event
  bad_argument : List ℕ → Event
  no_such_job : ℤ → Event
  no_such_process : ℤ → Event
  killed : ℕ → Signal → Event

pub record Shell : Type 0 where
  pub jobs : List Job
  pub nextjid : ℕ
  pub verbose : Bool
  pub out : List Event

abbrev pub emit : Event → Shell → Shell
emit e s = record s { out = e ∷ s.out }

abbrev pub is_fg : JobState → Bool
is_fg fg = true
is_fg _ = false

-- The search loops `for (i = 0; i < MAXJOBS; i++) if (...) return ...`.
unfoldable pub find_job : (Job → Bool) → List Job → Option (ℕ × Job)
find_job p [] = none
find_job p (j ∷ js) = if p j then some (0, j) else Option.map (λ (i, k). (i + 1, k)) (find_job p js)

-- A write through a pointer into the table.
unfoldable pub set_job : List Job → ℕ → Job → List Job
set_job [] i k = []
set_job (j ∷ js) zero k = k ∷ js
set_job (j ∷ js) (suc i) k = j ∷ set_job js i k

abbrev pub pid_is : ℕ → Job → Bool
pid_is n j = j.pid == n

abbrev pub jid_is : ℕ → Job → Bool
jid_is n j = j.jid == n

abbrev pub fg_is : Job → Bool
fg_is j = is_fg j.state

-- clearjob
abbrev pub clear_job : Job
clear_job = record { pid = 0; jid = 0; state = undef; cmdline = [] }

-- initjobs
unfoldable pub init_jobs : List Job
init_jobs = replicate max_jobs clear_job

-- maxjid
unfoldable pub max_jid_from : ℕ → List Job → ℕ
max_jid_from m [] = m
max_jid_from m (j ∷ js) = max_jid_from (if ltb m j.jid then j.jid else m) js

unfoldable pub max_jid : List Job → ℕ
max_jid js = max_jid_from 0 js

-- nextjid++, and back to 1 behind MAXJOBS
unfoldable pub bump_jid : ℕ → ℕ
bump_jid n = if ltb max_jobs (n + 1) then 1 else n + 1

-- The body of the loop of addjob, at the free slot `i`.
unfoldable pub fill_slot : Shell → ℕ → ℕ → JobState → List ℕ → Shell
unfolding set_job bump_jid
fill_slot s i n state cmdline =
    let s' = record s {
      jobs =
          set_job s.jobs i (record { pid = n; jid = s.nextjid; state = state; cmdline = cmdline });
      nextjid = bump_jid s.nextjid;
    } in
    if s.verbose then emit (job_added s.nextjid n cmdline) s' else s'

unfoldable pub add_pid : Shell → ℕ → JobState → List ℕ → Shell × Bool
unfolding find_job fill_slot
add_pid s n state cmdline = elim (find_job (pid_is 0) s.jobs) [
  | none ↦ (emit too_many_jobs s, false)
  | some (i, _) ↦ (fill_slot s i n state cmdline, true)
]

-- addjob
unfoldable pub add_job : Shell → ℤ → JobState → List ℕ → Shell × Bool
unfolding add_pid
add_job s (negsuc n) state cmdline = (s, false)
add_job s (pos zero) state cmdline = (s, false)
add_job s (pos (suc n)) state cmdline = add_pid s (suc n) state cmdline

unfoldable pub delete_pid : Shell → ℕ → Shell × Bool
unfolding find_job set_job max_jid max_jid_from
delete_pid s n = elim (find_job (pid_is n) s.jobs) [
  | none ↦ (s, false)
  | some (i, _) ↦
      let js = set_job s.jobs i clear_job in
      (record s { jobs = js; nextjid = max_jid js + 1 }, true)
]

-- deletejob
unfoldable pub delete_job : Shell → ℤ → Shell × Bool
unfolding delete_pid
delete_job s (negsuc n) = (s, false)
delete_job s (pos zero) = (s, false)
delete_job s (pos (suc n)) = delete_pid s (suc n)

-- fgpid
unfoldable pub fg_pid : List Job → ℕ
unfolding find_job
fg_pid js = elim (find_job fg_is js) [ none ↦ 0 | some (_, j) ↦ j.pid ]

-- getjobpid
unfoldable pub get_job_pid : List Job → ℤ → Option (ℕ × Job)
unfolding find_job
get_job_pid js (negsuc n) = none
get_job_pid js (pos zero) = none
get_job_pid js (pos (suc n)) = find_job (pid_is (suc n)) js

-- getjobjid
unfoldable pub get_job_jid : List Job → ℤ → Option (ℕ × Job)
unfolding find_job
get_job_jid js (negsuc n) = none
get_job_jid js (pos zero) = none
get_job_jid js (pos (suc n)) = find_job (jid_is (suc n)) js

-- pid2jid
unfoldable pub pid_to_jid : List Job → ℤ → ℕ
unfolding get_job_pid
pid_to_jid js p = elim (get_job_pid js p) [ none ↦ 0 | some (_, j) ↦ j.jid ]

-- listjobs, as the lines that it prints
unfoldable pub list_jobs : ℕ → List Job → List (ℕ × Job)
list_jobs i [] = []
list_jobs i (j ∷ js) = if j.pid == 0 then list_jobs (i + 1) js else (i, j) ∷ list_jobs (i + 1) js
