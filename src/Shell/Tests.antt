-- ===== src/Shell/Tests.antt =====
-- Concrete runs of the shell of CS230_projects/shelllab/tsh.c.
use cs_courses.Base.{
  ℕ, zero, suc, ◌+◌, ◌<◌, ◌≡◌, refl, ◌↔◌, true, false, none, some, List, [], ◌∷◌, ◌++◌, ℤ, pos,
  arith, replicate, All,
}
use cs_courses.Shell.Jobs.{
  Job, fg, bg, st, Shell, clear_job, find_job, jid_is, fg_is, add_job, delete_job, get_job_pid,
  job_stopped,
}
use cs_courses.Shell.Jobs.Table.{count}
use cs_courses.Shell.Jobs.Invariant.{IsShell}
use cs_courses.Shell.Jobs.Add.{
  HasOwnJids, new_job, add_job-IsTable, get_job_pid-add_job, add_job-HasOwnJids,
}
use cs_courses.Shell.Jobs.Delete.{get_job_pid-delete_job, delete_job-nextjid}
use cs_courses.Shell.Signals.{chld, ctrl_c, stopped, exited, deliver_all, sigchld_handler, Incoming}
use cs_courses.Shell.Signals.Safety.{AtMost, fg_is-IsActive, deliver_all-AtMost}
use cs_courses.Shell.Control.{show_jobs, str_eq}
use cs_courses.Shell.Control.Listing.{show_jobs_gap}
use cs_courses.Shell.Parse.{parse_line, parse_args}
use cs_courses.Shell.Parse.Loop.{parse_args-total}
use cs_courses.Shell.Parse.Render.{
  Arg, IsArg, plain, quoted, render, parse_line-foreground, parse_line-overflow,
}
use cs_courses.Shell.Eval.{eval}
use cs_courses.Shell.Eval.Safety.{Ended, eval-Settled}

-- A job in the background, one stopped, and free slots.
abbrev sleeper : Job
sleeper = record { pid = 7; jid = 1; state = bg; cmdline = b's' ∷ [] }

abbrev editor : Job
editor = record { pid = 9; jid = 2; state = st; cmdline = b'e' ∷ [] }

abbrev busy : Shell
busy = record {
  jobs = sleeper ∷ editor ∷ replicate 14 clear_job;
  nextjid = 3;
  verbose = false;
  out = [];
}

busy-IsShell : IsShell busy
unfolding count
busy-IsShell = record {
  size = refl;
  slots = ground arith;
  pids = λ n. ground arith;
  one_fg = omega arith;
  next_pos = omega arith;
}

busy-AtMost : AtMost fg_is 0 busy
unfolding count
busy-AtMost = record { table = busy-IsShell; few = omega arith }

-- Every text is the number 9.
abbrev nine : List ℕ → ℤ
nine w = pos 9

add_job-IsTable_example :
    ((add_job busy (pos 11) fg (b'l' ∷ [])).1 ≡ true)
    × IsShell (add_job busy (pos 11) fg (b'l' ∷ [])).0
unfolding count find_job
add_job-IsTable_example =
    add_job-IsTable busy 2 10 clear_job fg (b'l' ∷ []) refl busy-IsShell refl (omega arith)

get_job_pid-add_job_example :
    get_job_pid (add_job busy (pos 11) fg (b'l' ∷ [])).0.jobs (pos 11)
    ≡ some (2, new_job busy 10 fg (b'l' ∷ []))
unfolding count find_job
get_job_pid-add_job_example = get_job_pid-add_job busy 2 10 clear_job fg (b'l' ∷ []) refl refl 10

busy-HasOwnJids : HasOwnJids busy.jobs
unfolding count
busy-HasOwnJids n = ground arith

add_job-HasOwnJids_example :
    HasOwnJids (add_job busy (pos 11) fg (b'l' ∷ [])).0.jobs ↔ (count (jid_is 3) busy.jobs ≡ 0)
unfolding find_job
add_job-HasOwnJids_example =
    add_job-HasOwnJids busy 2 10 clear_job fg (b'l' ∷ []) refl 2 busy-IsShell refl busy-HasOwnJids

get_job_pid-delete_job_example : get_job_pid (delete_job busy (pos 9)).0.jobs (pos 9) ≡ none
get_job_pid-delete_job_example = get_job_pid-delete_job busy 8 busy-IsShell 8

delete_job-nextjid_example :
    All (λ j. j.jid < (delete_job busy (pos 9)).0.nextjid) (delete_job busy (pos 9)).0.jobs
unfolding delete_job
delete_job-nextjid_example = delete_job-nextjid busy 8 refl

-- The background job stops, and the stopped one ends.
abbrev storm : List Incoming
storm = ctrl_c ∷ chld (stopped 7 20) ∷ chld (exited 9 0) ∷ []

abbrev calm : Shell
calm = record {
  jobs = record sleeper { state = st } ∷ clear_job ∷ replicate 14 clear_job;
  nextjid = 2;
  verbose = false;
  out = job_stopped 1 7 20 ∷ [];
}

deliver_all-AtMost_example : AtMost fg_is 0 calm
unfolding deliver_all
deliver_all-AtMost_example =
    deliver_all-AtMost fg_is fg_is-IsActive 0 storm busy calm busy-AtMost refl

-- A stopped child that is not in the table crashes the shell.
stopped_unknown_run : sigchld_handler (stopped 5 20) busy ≡ none
unfolding sigchld_handler
stopped_unknown_run = refl

abbrev front : Shell
front = record busy { jobs = record sleeper { state = fg } ∷ editor ∷ replicate 14 clear_job }

show_jobs_gap_example :
    show_jobs 0 ((sleeper ∷ []) ++ (clear_job ∷ editor ∷ [])) busy
    ≡ show_jobs 0 ((sleeper ∷ []) ++ (clear_job ∷ [])) busy
show_jobs_gap_example = show_jobs_gap 0 (sleeper ∷ []) (editor ∷ []) clear_job busy refl

-- ls 'a b'
abbrev typed_args : List Arg
typed_args = plain (b'l' ∷ b's' ∷ []) ∷ quoted (b'a' ∷ b' ' ∷ b'b' ∷ []) ∷ []

abbrev typed : List ℕ
typed = b'l' ∷ b's' ∷ b' ' ∷ 0x27 ∷ b'a' ∷ b' ' ∷ b'b' ∷ 0x27 ∷ []

parse_line-foreground_example :
    parse_line (typed ++ 0x0a ∷ [])
    ≡ some ((b'l' ∷ b's' ∷ []) ∷ (b'a' ∷ b' ' ∷ b'b' ∷ []) ∷ [], false)
unfolding render
parse_line-foreground_example =
    parse_line-foreground (plain (b'l' ∷ b's' ∷ [])) (quoted (b'a' ∷ b' ' ∷ b'b' ∷ []) ∷ []) typed
      (((λ e. cc), ground arith, refl), (ground arith, tt)) (omega arith) refl refl

abbrev letter : Arg
letter = plain (b'a' ∷ [])

letters-IsArg : (n : ℕ) → All IsArg (replicate n letter)
letters-IsArg zero = tt
letters-IsArg (suc n) = (((λ e. cc), ground arith, refl), letters-IsArg n)

-- One more letter than `n`, with spaces between them.
abbrev spaced : ℕ → List ℕ
spaced zero = b'a' ∷ []
spaced (suc n) = b'a' ∷ b' ' ∷ spaced n

parse_line-overflow_example : parse_line (spaced 127 ++ 0x0a ∷ []) ≡ none
unfolding render
parse_line-overflow_example =
    parse_line-overflow letter (replicate 127 letter) (spaced 127) (letters-IsArg 128) (omega arith)
      refl

parse_args-total_example :
    (ws : List (List ℕ)) × (parse_args 9 typed ≡ some ws) × (parse_args (9 + 5) typed ≡ some ws)
parse_args-total_example = parse_args-total 9 5 typed (omega arith)

eval-Settled_example :
    Ended
      (b'l' ∷ b's' ∷ [])
      ((chld (exited 11 0) ∷ []) ∷ [])
      (eval nine (pos 0) (pos 11) (typed ++ 0x0a ∷ []) ((chld (exited 11 0) ∷ []) ∷ []) busy)
unfolding count str_eq
eval-Settled_example =
    eval-Settled nine (pos 0) busy busy-AtMost 10 (typed ++ 0x0a ∷ []) (b'l' ∷ b's' ∷ [])
      ((b'a' ∷ b' ' ∷ b'b' ∷ []) ∷ []) false ((chld (exited 11 0) ∷ []) ∷ [])
      parse_line-foreground_example refl refl
