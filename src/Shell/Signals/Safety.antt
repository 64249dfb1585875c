-- ===== src/Shell/Signals/Safety.antt =====
-- What the signal handlers of CS230_projects/shelllab/tsh.c do to the job table.
use mathlib.Core.Option.{some-injective}
use mathlib.Core.Path.{subst}
use cs_courses.Base.{
  ℕ, zero, suc, ◌+◌, ◌≤◌, ◌<◌, ◌≡◌, refl, inl, inr, Bool, true, false, Option, none, some, List, [],
  ◌∷◌, pos, arith, ◌==◌, if◌then◌else◌, get_elem?, Option-cases,
}
use cs_courses.Shell.Jobs.{
  Job, JobState, st, Shell, clear_job, pid_is, fg_is, is_fg, delete_job, get_job_pid, fg_pid,
  killed, sigint, sigtstp, Signal,
}
use cs_courses.Shell.Jobs.Table.{one_if, count, count-set_job, find_job-some, All-get_elem?}
use cs_courses.Shell.Jobs.Invariant.{IsSlot, IsShell, set_job-IsTable}
use cs_courses.Shell.Jobs.Delete.{delete_job-IsTable, delete_job-cases}
use cs_courses.Shell.Signals.{
  WaitResult, no_child, exited, stopped, signaled, set_state, sigchld_handler, forward,
  sigint_handler, sigtstp_handler, Incoming, chld, ctrl_c, ctrl_z, deliver, deliver_all,
}

-- A test that no cleared slot and no stopped job passes, such as being in the foreground.
pub record IsActive (p : Job → Bool) : Type 0 where
  pub cleared : p clear_job ≡ false
  pub halted : (j : Job) → p (record j { state = st }) ≡ false

pub fg_is-IsActive : IsActive fg_is
fg_is-IsActive = record { cleared = refl; halted = λ j. refl }

-- A well-formed table with at most `n` jobs that pass the test.
pub record AtMost (p : Job → Bool) (n : ℕ) (s : Shell) : Type 0 where
  pub table : IsShell s
  pub few : count p s.jobs ≤ n

count-pid_own :
    (js : List Job) (p : ℕ)
    → ((n : ℕ) → count (pid_is (suc n)) js ≤ 1)
    → 0 < p
    → count (pid_is p) js ≤ 1
count-pid_own js zero own live = elim live [ ]
count-pid_own js (suc p) own live = own p

live_slot : (j : Job) → IsSlot j → 0 < j.pid → 0 < j.jid
live_slot j slot live = ground arith

pub set_state-IsShell :
    (s : Shell) (i : ℕ) (j : Job) (x : JobState)
    → get_elem? s.jobs i ≡ some j
    → IsShell s
    → 0 < j.pid
    → one_if (is_fg x) + count fg_is s.jobs ≤ 1 + one_if (fg_is j)
    → IsShell (set_state s i j x)
unfolding set_state
set_state-IsShell s i j x at ok live room =
    set_job-IsTable s.jobs s.nextjid ok i j at (record j { state = x }) s.nextjid
      (inr (live, live_slot j (All-get_elem? IsSlot s.jobs i j ok.slots at) live))
      (ground (arith, count-pid_own s.jobs j.pid ok.pids live)) room ok.next_pos

pub get_job_pid-live :
    (js : List Job) (n i : ℕ) (j : Job)
    → get_job_pid js (pos n) ≡ some (i, j)
    → (get_elem? js i ≡ some j) × (0 < j.pid)
unfolding get_job_pid
get_job_pid-live js zero i j e = absurd (ground arith)
get_job_pid-live js (suc n) i j e = ground (arith, find_job-some (pid_is (suc n)) js i j e)

-- `P` holds of the state behind a handler, if there is one.
abbrev After : (P : Shell → Type 0) → Option Shell → Type 0
After P none = Unit
After P (some s) = P s

After-some : (P : Shell → Type 0) (o : Option Shell) (s : Shell) → After P o → o ≡ some s → P s
After-some P none s a e = absurd (ground arith)
After-some P (some s') s a e = subst P (some-injective s' s e) a

module _ (p : Job → Bool) (active : IsActive p) (n : ℕ) where
  delete_job-AtMost : (s : Shell) (pid : ℕ) → AtMost p n s → AtMost p n (delete_job s (pos pid)).0
  unfolding delete_job
  delete_job-AtMost s zero h = h
  delete_job-AtMost s (suc pid) h = record { table = delete_job-IsTable s pid h.table; few = fewer }
    where
      fewer : count p (delete_job s (pos (suc pid))).0.jobs ≤ n
      fewer = elim (delete_job-cases s pid) [
        | inl (e, _) ↦ rw e (h.few)
        | inr (i, j, e, jobs, _, _) ↦
            let (at, hit) = find_job-some (pid_is (suc pid)) s.jobs i j e in
            rw jobs (ground (arith, count-set_job p s.jobs i j clear_job at, active.cleared, h.few))
      ]

  stop-AtMost :
      (s : Shell) (i : ℕ) (j : Job)
      → get_elem? s.jobs i ≡ some j
      → 0 < j.pid
      → AtMost p n s
      → AtMost p n (set_state s i j st)
  unfolding set_state
  stop-AtMost s i j at live h = record {
    table = set_state-IsShell s i j st at h.table live (omega (arith, h.table.one_fg));
    few =
        ground
          (arith, count-set_job p s.jobs i j (record j { state = st }) at, active.halted j, h.few);
  }

  sigchld_handler-After :
      (w : WaitResult) (s : Shell) → AtMost p n s → After (AtMost p n) (sigchld_handler w s)
  unfolding sigchld_handler
  sigchld_handler-After no_child s h = h
  sigchld_handler-After (exited pid code) s h = delete_job-AtMost s pid h
  sigchld_handler-After (stopped pid sig) s h = elim (Option-cases (get_job_pid s.jobs (pos pid))) [
    | inl missing ↦ rw (missing, sigchld_handler) tt
    | inr ((i, j), found) ↦
        let (at, live) = get_job_pid-live s.jobs pid i j found in
        let kept = stop-AtMost s i j at live h in
        rw (found, sigchld_handler) (record { table = kept.table; few = kept.few })
  ]
  sigchld_handler-After (signaled pid sig) s h =
      delete_job-AtMost _ pid (record { table = h.table; few = h.few })

  -- The SIGCHLD handler keeps the table well-formed whatever waitpid reports, and no more jobs pass
  -- an active test than before: none comes to the foreground.
  pub sigchld_handler-AtMost :
      (w : WaitResult) (s s' : Shell) → AtMost p n s → sigchld_handler w s ≡ some s' → AtMost p n s'
  sigchld_handler-AtMost w s s' h e = After-some (AtMost p n) _ s' (sigchld_handler-After w s h) e

  forward-AtMost : (sig : Signal) (s : Shell) → AtMost p n s → AtMost p n (forward sig s)
  unfolding forward
  forward-AtMost sig s h = ground arith

  deliver-AtMost :
      (e : Incoming) (s s' : Shell) → AtMost p n s → deliver e s ≡ some s' → AtMost p n s'
  unfolding deliver sigint_handler sigtstp_handler
  deliver-AtMost (chld w) s s' h e = sigchld_handler-AtMost w s s' h e
  deliver-AtMost ctrl_c s s' h e =
      After-some (AtMost p n) (some (forward sigint s)) s' (forward-AtMost sigint s h) e
  deliver-AtMost ctrl_z s s' h e =
      After-some (AtMost p n) (some (forward sigtstp s)) s' (forward-AtMost sigtstp s h) e

  -- Signals that are handled one after another, any number of them and in any order, keep the job table
  -- well-formed and bring no job to the foreground, unless a handler crashes: with an active test, one that no
  -- cleared slot and no stopped job passes, at most as many jobs pass it behind them as before.
  pub deliver_all-AtMost :
      (es : List Incoming) (s s' : Shell)
      → AtMost p n s
      → deliver_all es s ≡ some s'
      → AtMost p n s'
  unfolding deliver_all
  deliver_all-AtMost [] s s' h e = After-some (AtMost p n) (some s) s' h e
  deliver_all-AtMost (x ∷ es) s s' h e = elim (Option-cases (deliver x s)) [
    | inl crash ↦ absurd (ground arith)
    | inr (t, one) ↦
        deliver_all-AtMost es t s' (deliver-AtMost x s t h one) (rw (one, deliver_all) at e)
  ]

-- A signal that reports a stopped child.
abbrev pub reports_stop : Incoming → Bool
reports_stop (chld (stopped pid sig)) = true
reports_stop _ = false

abbrev pub any_stop : List Incoming → Bool
any_stop [] = false
any_stop (e ∷ es) = if reports_stop e then true else any_stop es

deliver-crash : (e : Incoming) (s : Shell) → deliver e s ≡ none → reports_stop e ≡ true
unfolding deliver sigchld_handler
deliver-crash (chld no_child) s h = absurd (ground arith)
deliver-crash (chld (exited pid code)) s h = absurd (ground arith)
deliver-crash (chld (stopped pid sig)) s h = refl
deliver-crash (chld (signaled pid sig)) s h = absurd (ground arith)
deliver-crash ctrl_c s h = absurd (ground arith)
deliver-crash ctrl_z s h = absurd (ground arith)

-- Only the report of a stopped child crashes the shell.
pub deliver_all-crash :
    (es : List Incoming) (s : Shell) → deliver_all es s ≡ none → any_stop es ≡ true
unfolding deliver_all
deliver_all-crash [] s h = absurd (ground arith)
deliver_all-crash (e ∷ es) s h = elim (Option-cases (deliver e s)) [
  | inl crash ↦ rw (deliver-crash e s crash) refl
  | inr (t, one) ↦ ground (arith, deliver_all-crash es t (rw (one, deliver_all) at h))
]

-- Ctrl-C and ctrl-z change no job: the signal goes to the group of the foreground job, if there is
-- one, and the table stays as it is.
pub forward-fg_pid :
    (sig : Signal) (s : Shell)
    → ((forward sig s).jobs ≡ s.jobs)
      × ((forward sig s).out
          ≡ (if fg_pid s.jobs == 0 then s.out else killed (fg_pid s.jobs) sig ∷ s.out))
unfolding forward
forward-fg_pid sig s = ground arith
