-- ===== src/Shell/Jobs/Add.antt =====
-- addjob of CS230_projects/shelllab/tsh.c.
use cs_courses.Base.{
  ℕ, suc, ◌+◌, ◌≤◌, ◌≡◌, inl, inr, true, some, List, pos, arith, ◌==◌, if◌then◌else◌, get_elem?,
  Bool-cases, ◌↔◌,
}
use cs_courses.Shell.Jobs.{
  Job, JobState, Shell, find_job, set_job, pid_is, jid_is, fg_is, is_fg, fill_slot, add_pid,
  add_job, bump_jid, get_job_pid,
}
use cs_courses.Shell.Jobs.Table.{
  one_if, count, count-set_job, find_job-some, All-get_elem?, find_job_unique, get_elem?-set_job,
  find_job-set_miss,
}
use cs_courses.Shell.Jobs.Invariant.{IsSlot, IsShell, bump_jid-pos, fill_slot-jobs, set_job-IsTable}

-- No two jobs share a job id.
abbrev pub HasOwnJids : List Job → Type 0
HasOwnJids js = (n : ℕ) → count (jid_is (suc n)) js ≤ 1

abbrev pub new_job : Shell → ℕ → JobState → List ℕ → Job
new_job s n state cmdline = record {
  pid = suc n;
  jid = s.nextjid;
  state = state;
  cmdline = cmdline;
}

module _ (s : Shell) (i n : ℕ) (j : Job) (state : JobState) (cmdline : List ℕ)
    (free : find_job (pid_is 0) s.jobs ≡ some (i, j)) where
  pub add_job-free :
      add_job s (pos (suc n)) state cmdline ≡ (fill_slot s i (suc n) state cmdline, true)
  unfolding add_job add_pid
  add_job-free = rw (free, add_pid)

  pub add_job-jobs :
      ((add_job s (pos (suc n)) state cmdline).0.jobs
        ≡ set_job s.jobs i (new_job s n state cmdline))
      × ((add_job s (pos (suc n)) state cmdline).0.nextjid ≡ bump_jid s.nextjid)
  add_job-jobs = rw add_job-free (fill_slot-jobs s i (suc n) state cmdline)

  at_free : get_elem? s.jobs i ≡ some j
  at_free = (find_job-some (pid_is 0) s.jobs i j free).0

  free_pid : j.pid ≡ 0
  free_pid = ground (arith, find_job-some (pid_is 0) s.jobs i j free)

  -- With a free slot, addjob of a process that is not in the table returns 1 and keeps the table
  -- well-formed, if it does not make a second foreground job.
  pub add_job-IsTable :
      IsShell s
      → count (pid_is (suc n)) s.jobs ≡ 0
      → one_if (is_fg state) + count fg_is s.jobs ≤ 1
      → ((add_job s (pos (suc n)) state cmdline).1 ≡ true)
        × IsShell (add_job s (pos (suc n)) state cmdline).0
  add_job-IsTable ok fresh one =
      let (e, next) = add_job-jobs in
      (
        rw add_job-free,
        rw (e, next)
            (set_job-IsTable s.jobs s.nextjid ok i j at_free (new_job s n state cmdline)
              (bump_jid s.nextjid) (inr (omega arith, ok.next_pos)) (omega arith) (omega arith)
              (bump_jid-pos s.nextjid)),
      )

  -- When a slot of the table is free: after addjob of a process that is not in the table, getjobpid
  -- finds the new job under its pid, with the state and the command line given and the next job id, and
  -- finds under every other pid what it found before.
  pub get_job_pid-add_job :
      count (pid_is (suc n)) s.jobs ≡ 0
      → (m : ℕ)
      → get_job_pid (add_job s (pos (suc n)) state cmdline).0.jobs (pos (suc m))
        ≡ (if m == n then some (i, new_job s n state cmdline) else get_job_pid s.jobs (pos (suc m)))
  unfolding get_job_pid
  get_job_pid-add_job fresh m =
      let k = new_job s n state cmdline in
      let at_new = get_elem?-set_job s.jobs i j k at_free in
      let grows = count-set_job (pid_is (suc n)) s.jobs i j k at_free in
      rw (add_job-jobs.0) (elim (Bool-cases (m == n)) [
        | inl same ↦ rw same (
            let q : m ≡ n = ground arith in
            rw q (
              find_job_unique (pid_is (suc n)) (set_job s.jobs i k) i k (ground arith) at_new
                (ground arith)))
        | inr other ↦ rw other (
            find_job-set_miss (pid_is (suc m)) s.jobs i j k at_free (ground (arith, free_pid))
              (ground arith))
      ])

  free_jid : IsShell s → j.jid ≡ 0
  free_jid ok = ground (arith, All-get_elem? IsSlot s.jobs i j ok.slots at_free, free_pid)

  -- On a well-formed table with a free slot whose jobs have distinct ids, addjob keeps the ids distinct exactly when
  -- no job holds the next job id.
  pub add_job-HasOwnJids :
      (g : ℕ)
      → IsShell s
      → s.nextjid ≡ suc g
      → HasOwnJids s.jobs
      → HasOwnJids (add_job s (pos (suc n)) state cmdline).0.jobs
        ↔ (count (jid_is (suc g)) s.jobs ≡ 0)
  add_job-HasOwnJids g ok e own =
      let k = new_job s n state cmdline in
      let step = λ (m : ℕ). count-set_job (jid_is (suc m)) s.jobs i j k at_free in
      let cleared = free_jid ok in
      rw (add_job-jobs.0)
        (λ after. ground (arith, step g, after g), λ fresh m. ground (arith, step m, own m))
