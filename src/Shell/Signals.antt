-- ===== src/Shell/Signals.antt =====
-- The signal handlers of CS230_projects/shelllab/tsh.c. A handler is one step: it is taken to run to its
-- end before the next signal is handled. Signal() blocks only the signal being handled, so a handler
-- that another signal interrupts is not modelled. What `waitpid` reports is an argument of the SIGCHLD handler; `none`
-- as the result of a handler is the dereference of a null pointer.
pub mod Safety
use cs_courses.Base.{
  ℕ, zero, suc, Bool, true, false, Option, none, some, List, [], ◌∷◌, ℤ, pos, ◌==◌, if◌then◌else◌,
}
use cs_courses.Shell.Jobs.{
  Job, JobState, st, Signal, sigint, sigtstp, Shell, job_stopped, job_terminated, killed, emit,
  set_job, delete_job, fg_pid, get_job_pid, pid_to_jid,
}

-- What waitpid(-1, &child_status, WNOHANG | WUNTRACED) reports: an error or no change, or a
-- process with its status.
pub data WaitResult : Type 0 where
  no_child : WaitResult
  exited stopped signaled : ℕ → ℕ → WaitResult

-- proc->state = x, through a pointer from getjobpid or getjobjid.
unfoldable pub set_state : Shell → ℕ → Job → JobState → Shell
unfolding set_job
set_state s i j x = record s { jobs = set_job s.jobs i (record j { state = x }) }

-- sigchld_handler
unfoldable pub sigchld_handler : WaitResult → Shell → Option Shell
unfolding set_state delete_job get_job_pid pid_to_jid
sigchld_handler no_child s = some s
sigchld_handler (exited pid code) s = some (delete_job s (pos pid)).0
sigchld_handler (stopped pid sig) s = elim (get_job_pid s.jobs (pos pid)) [
  | none ↦ none
  | some (i, j) ↦
      let s' = set_state s i j st in
      some (emit (job_stopped (pid_to_jid s'.jobs (pos pid)) pid sig) s')
]
sigchld_handler (signaled pid sig) s =
    some (delete_job (emit (job_terminated (pid_to_jid s.jobs (pos pid)) pid sig) s) (pos pid)).0

-- sigint_handler and sigtstp_handler: the signal goes on to the foreground job's group.
unfoldable pub forward : Signal → Shell → Shell
unfolding fg_pid
forward sig s = let pid = fg_pid s.jobs in if pid == 0 then s else emit (killed pid sig) s

unfoldable pub sigint_handler : Shell → Shell
unfolding forward
sigint_handler = forward sigint

unfoldable pub sigtstp_handler : Shell → Shell
unfolding forward
sigtstp_handler = forward sigtstp

-- A signal that reaches the shell.
pub data Incoming : Type 0 where
  chld : WaitResult → Incoming
  ctrl_c ctrl_z : Incoming

unfoldable pub deliver : Incoming → Shell → Option Shell
unfolding sigchld_handler sigint_handler sigtstp_handler
deliver (chld w) s = sigchld_handler w s
deliver ctrl_c s = some (sigint_handler s)
deliver ctrl_z s = some (sigtstp_handler s)

-- The signals that arrive one after another.
unfoldable pub deliver_all : List Incoming → Shell → Option Shell
unfolding deliver
deliver_all [] s = some s
deliver_all (e ∷ es) s = elim (deliver e s) [ none ↦ none | some s' ↦ deliver_all es s' ]
