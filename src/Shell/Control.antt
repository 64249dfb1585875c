-- ===== src/Shell/Control.antt =====
-- The commands that control jobs in CS230_projects/shelllab/tsh.c: waitfg, do_bgfg and builtin_cmd.
-- A wait runs over a schedule, the list of rounds of `sleep(1)` with the signals that each lets in.
-- Signals come in during these sleeps only: one between the test of waitfg's loop and the read of the state behind
-- it, or between two statements of do_bgfg, is not modelled.
-- `atoi` is the C library's and `junk` is what an uninitialised `int` holds.
pub mod Wait
pub mod Listing
pub mod Resume
use cs_courses.Base.{
  ℕ, zero, suc, ◌+◌, Bool, true, false, ◌||◌, not, Option, none, some, List, [], ◌∷◌, ℤ, pos,
  negsuc, ◌==◌, if◌then◌else◌,
}
use cs_courses.Shell.Jobs.{
  Job, JobState, undef, fg, bg, st, Signal, sigcont, Shell, job_line, job_listed, requires_argument,
  bad_argument, no_such_job, no_such_process, killed, emit, is_fg, get_job_pid, get_job_jid,
}
use cs_courses.Shell.Signals.{Incoming, deliver_all, set_state}

abbrev pub Schedule : Type 0
Schedule = List (List Incoming)

-- How a command ends: back at the prompt with the rest of the schedule, by exit(0), by the
-- dereference of a null pointer, or not yet, when the schedule is used up.
pub data Outcome : Type 0 where
  back : Shell → Schedule → Outcome
  quits : Shell → Outcome
  crashed : Outcome
  waiting : Shell → Outcome

-- The loop's condition in waitfg: the process is in the table, in the foreground.
unfoldable pub in_foreground : List Job → ℤ → Bool
unfolding get_job_pid
in_foreground js pid = elim (get_job_pid js pid) [ none ↦ false | some (_, j) ↦ is_fg j.state ]

-- waitfg
unfoldable pub wait_fg : ℤ → Schedule → Shell → Outcome
unfolding in_foreground
wait_fg pid [] s = if in_foreground s.jobs pid then waiting s else back s []
wait_fg pid (round ∷ rest) s = elim (in_foreground s.jobs pid) [
  | false ↦ back s (round ∷ rest)
  | true ↦ elim (deliver_all round s) [ none ↦ crashed | some s' ↦ wait_fg pid rest s' ]
]

-- strcmp(a, b) == 0
unfoldable pub str_eq : List ℕ → List ℕ → Bool
str_eq [] [] = true
str_eq [] (y ∷ ys) = false
str_eq (x ∷ xs) [] = false
str_eq (x ∷ xs) (y ∷ ys) = if x == y then str_eq xs ys else false

abbrev pub cmd_bg : List ℕ
cmd_bg = b'b' ∷ b'g' ∷ []

abbrev pub cmd_fg : List ℕ
cmd_fg = b'f' ∷ b'g' ∷ []

abbrev pub cmd_quit : List ℕ
cmd_quit = b'q' ∷ b'u' ∷ b'i' ∷ b't' ∷ []

abbrev pub cmd_jobs : List ℕ
cmd_jobs = b'j' ∷ b'o' ∷ b'b' ∷ b's' ∷ []

abbrev pub is_zero : ℤ → Bool
is_zero (pos n) = n == 0
is_zero (negsuc n) = false

-- kill(-pid, SIGCONT), and the job's new state.
unfoldable pub resume : ℕ → Job → JobState → Shell → Shell
unfolding set_state
resume i j x s = set_state (emit (killed j.pid sigcont) s) i j x

abbrev pub is_percent : List ℕ → Bool
is_percent [] = false
is_percent (c ∷ cs) = c == b'%'

abbrev pub behind_first : List ℕ → List ℕ
behind_first [] = []
behind_first (c ∷ cs) = cs

abbrev pub is_shown : JobState → Bool
is_shown undef = false
is_shown _ = true

-- The loop of the built-in command `jobs`: it stops at the first cleared slot.
unfoldable pub show_jobs : ℕ → List Job → Shell → Shell
show_jobs idx [] s = s
show_jobs idx (j ∷ js) s = elim (j.pid == 0) [
  | true ↦ s
  | false ↦ show_jobs (idx + 1) js (if is_shown j.state then emit (job_listed (idx + 1) j) s else s)
]

module _ (atoi : List ℕ → ℤ) where
  -- bg %jobid
  unfoldable pub bg_jid : List ℕ → Shell → Shell
  unfolding get_job_jid resume
  bg_jid digits s =
      let jid = atoi digits in
      if is_zero jid then emit (bad_argument cmd_bg) s else elim (get_job_jid s.jobs jid) [
        | none ↦ emit (no_such_job jid) s
        | some (i, j) ↦ emit (job_line j.jid (pos j.pid) j.cmdline) (resume i j bg s)
      ]

  -- bg pid
  unfoldable pub bg_pid : List ℕ → Shell → Shell
  unfolding get_job_pid resume
  bg_pid arg s =
      let pid = atoi arg in
      if is_zero pid then emit (bad_argument cmd_bg) s else elim (get_job_pid s.jobs pid) [
        | none ↦ emit (no_such_process pid) s
        | some (i, j) ↦ emit (job_line j.jid (pos j.pid) j.cmdline) (resume i j bg s)
      ]

  -- fg %jobid
  unfoldable pub fg_jid : List ℕ → Schedule → Shell → Outcome
  unfolding get_job_jid resume wait_fg
  fg_jid digits rounds s =
      let jid = atoi digits in
      if is_zero jid
      then back (emit (bad_argument cmd_fg) s) rounds
      else elim (get_job_jid s.jobs jid) [
        | none ↦ back (emit (no_such_job jid) s) rounds
        | some (i, j) ↦ wait_fg (pos j.pid) rounds (resume i j fg s)
      ]

module _ (atoi : List ℕ → ℤ) (junk : ℤ) where
  -- fg pid: the search is for `jid`, which nothing has set on this path.
  unfoldable pub fg_pid_cmd : List ℕ → Schedule → Shell → Outcome
  unfolding get_job_pid resume wait_fg
  fg_pid_cmd arg rounds s =
      let pid = atoi arg in
      if is_zero pid
      then back (emit (bad_argument cmd_fg) s) rounds
      else elim (get_job_pid s.jobs junk) [
        | none ↦ back (emit (no_such_process pid) s) rounds
        | some (i, j) ↦ wait_fg pid rounds (resume i j fg s)
      ]

  -- do_bgfg, with argv[0] and what follows it
  unfoldable pub do_bgfg : List ℕ → List (List ℕ) → Schedule → Shell → Outcome
  unfolding str_eq bg_jid bg_pid fg_jid fg_pid_cmd
  do_bgfg cmd [] rounds s = back (emit (requires_argument cmd) s) rounds
  do_bgfg cmd (a2 ∷ rest) rounds s =
      if str_eq cmd cmd_bg
      then back (if is_percent a2 then bg_jid atoi (behind_first a2) s else bg_pid atoi a2 s) rounds
      else if is_percent a2
      then fg_jid atoi (behind_first a2) rounds s
      else fg_pid_cmd a2 rounds s

  -- builtin_cmd: `none` where it returns 0.
  unfoldable pub builtin_cmd : List ℕ → List (List ℕ) → Schedule → Shell → Option Outcome
  unfolding do_bgfg show_jobs
  builtin_cmd cmd args rounds s =
      if str_eq cmd cmd_bg || str_eq cmd cmd_fg
      then some (do_bgfg cmd args rounds s)
      else if str_eq cmd cmd_quit
      then some (quits s)
      else if str_eq cmd cmd_jobs
      then some (back (show_jobs 0 s.jobs s) rounds)
      else none
