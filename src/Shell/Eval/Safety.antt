-- ===== src/Shell/Eval/Safety.antt =====
-- What a command does to the job table of CS230_projects/shelllab/tsh.c.
use cs_courses.Base.{
  ℕ, suc, ◌+◌, ◌≡◌, inl, inr, Bool, true, false, not, ◌&&◌, ◌||◌, Option, none, some, List, [], ◌∷◌,
  ℤ, pos, arith, Option-cases, Bool-cases, ◌==◌,
}
use cs_courses.Shell.Jobs.{
  Job, fg, bg, Shell, fg_is, is_fg, find_job, pid_is, add_job, add_pid, too_many_jobs,
}
use cs_courses.Shell.Jobs.Table.{count, find_job-some, count-set_job}
use cs_courses.Shell.Jobs.Add.{add_job-IsTable, add_job-jobs, new_job}
use cs_courses.Shell.Signals.Safety.{AtMost}
use cs_courses.Shell.Parse.{parse_line}
use cs_courses.Shell.Control.{
  Schedule, Outcome, back, quits, waiting, crashed, do_bgfg, builtin_cmd, show_jobs, str_eq, cmd_bg,
  cmd_fg, cmd_quit, cmd_jobs, is_percent, behind_first,
}
use cs_courses.Shell.Control.Resume.{
  other_fg, count-other, Settled, wait_fg-Settled, bg_jid-quiet, bg_pid-quiet, fg_jid-Settled,
  emit-quiet,
}
use cs_courses.Shell.Eval.{run_job, eval_args, eval}

show_jobs-quiet :
    (idx : ℕ) (js : List Job) (s : Shell) → AtMost fg_is 0 s → AtMost fg_is 0 (show_jobs idx js s)
unfolding show_jobs
show_jobs-quiet idx [] s h = h
show_jobs-quiet idx (j ∷ js) s h = elim (Bool-cases (j.pid == 0)) [
  | inl gap ↦ rw (gap, show_jobs) h
  | inr live ↦ rw (live, show_jobs) (show_jobs-quiet (idx + 1) js _ (ground arith))
]

-- `fg` with a process id, the one command that searches for a job id that nothing has set.
abbrev pub fg_by_pid : List ℕ → List (List ℕ) → Bool
fg_by_pid cmd [] = false
fg_by_pid cmd (a2 ∷ rest) = str_eq cmd cmd_fg && not (is_percent a2)

module _ (s : Shell) (n : ℕ) (quiet : AtMost fg_is 0 s)
    (fresh : count (pid_is (suc n)) s.jobs ≡ 0) where
  -- The table behind addjob, whether or not there was a free slot.
  add_job-fg :
      (cmdline : List ℕ) → AtMost (other_fg (suc n)) 0 (add_job s (pos (suc n)) fg cmdline).0
  add_job-fg cmdline = elim (Option-cases (find_job (pid_is 0) s.jobs)) [
    | inl full ↦
        unfold add_job add_pid in
        rw (full, add_pid)
          (record {
            table = (emit-quiet s quiet too_many_jobs).table;
            few = omega (arith, count-other (suc n) s.jobs, quiet.few);
          })
    | inr ((i, j), free) ↦
        let made =
          add_job-IsTable s i n j fg cmdline free quiet.table fresh (omega (arith, quiet.few)) in
        let (jobs, next) = add_job-jobs s i n j fg cmdline free in
        let at = (find_job-some (pid_is 0) s.jobs i j free).0 in
        record {
          table = made.1;
          few = rw jobs (
              ground (
                arith,
                count-set_job (other_fg (suc n)) s.jobs i j (new_job s n fg cmdline) at,
                count-other (suc n) s.jobs,
                quiet.few,
              ));
        }
  ]

  add_job-bg : (cmdline : List ℕ) → AtMost fg_is 0 (add_job s (pos (suc n)) bg cmdline).0
  add_job-bg cmdline = elim (Option-cases (find_job (pid_is 0) s.jobs)) [
    | inl full ↦ unfold add_job add_pid in rw (full, add_pid) (emit-quiet s quiet too_many_jobs)
    | inr ((i, j), free) ↦
        let made =
          add_job-IsTable s i n j bg cmdline free quiet.table fresh (omega (arith, quiet.few)) in
        let (jobs, next) = add_job-jobs s i n j bg cmdline free in
        let at = (find_job-some (pid_is 0) s.jobs i j free).0 in
        record {
          table = made.1;
          few = rw jobs (
              ground
                (arith, count-set_job fg_is s.jobs i j (new_job s n bg cmdline) at, quiet.few));
        }
  ]

  run_job-Settled :
      (cmdline : List ℕ) (is_bg : Bool) (rounds : Schedule)
      → Settled rounds (run_job (pos (suc n)) cmdline is_bg rounds s)
  unfolding run_job
  run_job-Settled cmdline false rounds = wait_fg-Settled n rounds _ (add_job-fg cmdline)
  run_job-Settled cmdline true rounds =
      let h = add_job-bg cmdline in record { table = h.table; few = h.few }

-- How a command ends: by exit(0) only if it is quit.
abbrev pub Ended : List ℕ → Schedule → Outcome → Type 0
Ended cmd rounds (quits t) = (str_eq cmd cmd_quit ≡ true) × AtMost fg_is 0 t
Ended cmd rounds (back t rest) = Settled rounds (back t rest)
Ended cmd rounds (waiting t) = Settled rounds (waiting t)
Ended cmd rounds crashed = Settled rounds crashed

Settled-Ended :
    (cmd : List ℕ) (rounds : Schedule) (o : Outcome) → Settled rounds o → Ended cmd rounds o
Settled-Ended cmd rounds (quits t) h = absurd h
Settled-Ended cmd rounds (back t rest) h = h
Settled-Ended cmd rounds (waiting t) h = h
Settled-Ended cmd rounds crashed h = h

abbrev EndsWell : List ℕ → Schedule → Option Outcome → Type 0
EndsWell cmd rounds none = Unit
EndsWell cmd rounds (some o) = Ended cmd rounds o

module _ (atoi : List ℕ → ℤ) (junk : ℤ) (s : Shell) (quiet : AtMost fg_is 0 s) where
  do_bgfg-Settled :
      (cmd : List ℕ) (args : List (List ℕ)) (rounds : Schedule)
      → fg_by_pid cmd args ≡ false
      → (str_eq cmd cmd_bg || str_eq cmd cmd_fg) ≡ true
      → Settled rounds (do_bgfg atoi junk cmd args rounds s)
  unfolding do_bgfg
  do_bgfg-Settled cmd [] rounds by h = emit-quiet s quiet _
  do_bgfg-Settled cmd (a2 ∷ rest) rounds by h = elim (Bool-cases (is_percent a2)) [
    | inl jid ↦ elim (Bool-cases (str_eq cmd cmd_bg)) [
      | inl is_bg ↦ rw (is_bg, jid) (bg_jid-quiet atoi s quiet (behind_first a2))
      | inr is_fg ↦ rw (is_fg, jid) (fg_jid-Settled atoi s quiet (behind_first a2) rounds)
    ]
    | inr pid ↦ elim (Bool-cases (str_eq cmd cmd_bg)) [
      | inl is_bg ↦ rw (is_bg, pid) (bg_pid-quiet atoi s quiet a2)
      | inr is_fg ↦ absurd (ground arith)
    ]
  ]

  builtin_cmd-EndsWell :
      (cmd : List ℕ) (args : List (List ℕ)) (rounds : Schedule)
      → fg_by_pid cmd args ≡ false
      → EndsWell cmd rounds (builtin_cmd atoi junk cmd args rounds s)
  unfolding builtin_cmd
  builtin_cmd-EndsWell cmd args rounds by =
      elim (Bool-cases (str_eq cmd cmd_bg || str_eq cmd cmd_fg)) [
        | inl job ↦
            rw (job, builtin_cmd)
              (Settled-Ended cmd rounds (do_bgfg atoi junk cmd args rounds s)
                (do_bgfg-Settled cmd args rounds by job))
        | inr e ↦ elim (Bool-cases (str_eq cmd cmd_quit)) [
          | inl quit ↦ rw (e, quit, builtin_cmd) (quit, quiet)
          | inr f ↦ elim (Bool-cases (str_eq cmd cmd_jobs)) [
            | inl jobs ↦ rw (e, f, jobs, builtin_cmd) (show_jobs-quiet 0 s.jobs s quiet)
            | inr g ↦ rw (e, f, g, builtin_cmd) tt
          ]
        ]
      ]

  eval_args-Settled :
      (n : ℕ) (cmdline cmd : List ℕ) (args : List (List ℕ)) (is_bg : Bool) (rounds : Schedule)
      → count (pid_is (suc n)) s.jobs ≡ 0
      → fg_by_pid cmd args ≡ false
      → Ended cmd rounds (eval_args atoi junk (pos (suc n)) cmdline (cmd ∷ args) is_bg rounds s)
  unfolding eval_args
  eval_args-Settled n cmdline cmd args is_bg rounds fresh by =
      elim (Option-cases (builtin_cmd atoi junk cmd args rounds s)) [
        | inl e ↦
            rw (e, eval_args)
              (Settled-Ended cmd rounds (run_job (pos (suc n)) cmdline is_bg rounds s)
                (run_job-Settled s n quiet fresh cmdline is_bg rounds))
        | inr (o, e) ↦
            let h = builtin_cmd-EndsWell cmd args rounds by in rw (e, eval_args) (rw e at h)
      ]

  -- From a prompt with no foreground job and a line that parseline takes apart: for a built-in command other
  -- than `fg` with a process id, or a child whose process is not in the table, `eval` comes back to the
  -- prompt with a well-formed table and no foreground job; or, for quit alone, exits with the same; or still
  -- waits, when the signals are used up, with a well-formed table and one foreground job; or crashes, which it does
  -- only if a stopped child is reported. The signals come in during the sleeps of waitfg, any number of them
  -- and in any order; those between other statements are not considered.
  pub eval-Settled :
      (n : ℕ) (cmdline cmd : List ℕ) (args : List (List ℕ)) (is_bg : Bool) (rounds : Schedule)
      → parse_line cmdline ≡ some (cmd ∷ args, is_bg)
      → count (pid_is (suc n)) s.jobs ≡ 0
      → fg_by_pid cmd args ≡ false
      → Ended cmd rounds (eval atoi junk (pos (suc n)) cmdline rounds s)
  unfolding eval
  eval-Settled n cmdline cmd args is_bg rounds parsed fresh by =
      rw (parsed, eval) (eval_args-Settled n cmdline cmd args is_bg rounds fresh by)
