-- ===== src/Shell/Eval.antt =====
-- eval of CS230_projects/shelllab/tsh.c, as the parent process runs it. `forked` is what `fork`
-- returns to the parent; the child, which calls `execve`, is not modelled. The signals stay blocked
-- between `fork` and `addjob`.
pub mod Safety
use cs_courses.Base.{ℕ, Bool, true, false, Option, none, some, List, [], ◌∷◌, ℤ}
use cs_courses.Shell.Jobs.{fg, bg, Shell, job_line, emit, add_job, pid_to_jid}
use cs_courses.Shell.Parse.{parse_line}
use cs_courses.Shell.Control.{Schedule, Outcome, back, crashed, wait_fg, builtin_cmd}

-- The branch of the parent behind fork().
unfoldable pub run_job : ℤ → List ℕ → Bool → Schedule → Shell → Outcome
unfolding add_job wait_fg pid_to_jid
run_job forked cmdline false rounds s = wait_fg forked rounds (add_job s forked fg cmdline).0
run_job forked cmdline true rounds s =
    let s' = (add_job s forked bg cmdline).0 in
    back (emit (job_line (pid_to_jid s'.jobs forked) forked cmdline) s') rounds

module _ (atoi : List ℕ → ℤ) (junk forked : ℤ) where
  unfoldable pub eval_args : List ℕ → List (List ℕ) → Bool → Schedule → Shell → Outcome
  unfolding builtin_cmd run_job
  eval_args cmdline [] is_bg rounds s = back s rounds
  eval_args cmdline (cmd ∷ args) is_bg rounds s = elim (builtin_cmd atoi junk cmd args rounds s) [
    | some o ↦ o
    | none ↦ run_job forked cmdline is_bg rounds s
  ]

  -- eval
  unfoldable pub eval : List ℕ → Schedule → Shell → Outcome
  unfolding parse_line eval_args
  eval cmdline rounds s = elim (parse_line cmdline) [
    | none ↦ crashed
    | some (argv, is_bg) ↦ eval_args cmdline argv is_bg rounds s
  ]
