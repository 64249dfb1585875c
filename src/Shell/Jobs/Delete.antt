-- ===== src/Shell/Jobs/Delete.antt =====
-- deletejob of CS230_projects/shelllab/tsh.c.
use cs_courses.Base.{
  ℕ, suc, ◌+◌, ◌<◌, ◌≡◌, refl, ◌⊎◌, inl, inr, true, false, none, some, List, pos, arith, ◌==◌,
  if◌then◌else◌, All, Option-cases, Bool-cases, All-mono,
}
use cs_courses.Shell.Jobs.{
  Job, Shell, clear_job, find_job, set_job, pid_is, delete_pid, delete_job, max_jid, get_job_pid,
}
use cs_courses.Shell.Jobs.Table.{
  count-set_job, find_job-some, find_job-set_miss, find_job-zero, All-max_jid,
}
use cs_courses.Shell.Jobs.Invariant.{IsShell, clear-IsTable}

All-max_jid-lt : (js : List Job) → All (λ j. j.jid < max_jid js + 1) js
unfolding max_jid
All-max_jid-lt js = All-mono _ _ js (λ j (h : _). omega arith) (All-max_jid 0 js)

module _ (s : Shell) (n : ℕ) where
  pub delete_job-cases :
      (delete_job s (pos (suc n)) ≡ (s, false)) × (get_job_pid s.jobs (pos (suc n)) ≡ none)
      ⊎ ((i : ℕ) × (j : Job) × (find_job (pid_is (suc n)) s.jobs ≡ some (i, j))
          × ((delete_job s (pos (suc n))).0.jobs ≡ set_job s.jobs i clear_job)
          × ((delete_job s (pos (suc n))).0.nextjid ≡ max_jid (set_job s.jobs i clear_job) + 1)
          × ((delete_job s (pos (suc n))).1 ≡ true))
  unfolding delete_job delete_pid get_job_pid
  delete_job-cases = elim (Option-cases (find_job (pid_is (suc n)) s.jobs)) [
    | inl e ↦ inl (rw (e, delete_pid), e)
    | inr ((i, j), e) ↦ inr (i, j, e, rw (e, delete_pid), rw (e, delete_pid), rw (e, delete_pid))
  ]

  -- deletejob keeps the table well-formed, whether or not it finds the process.
  pub delete_job-IsTable : IsShell s → IsShell (delete_job s (pos (suc n))).0
  delete_job-IsTable ok = elim delete_job-cases [
    | inl (e, _) ↦ rw e ok
    | inr (i, j, e, jobs, next, _) ↦
        rw (jobs, next)
          (clear-IsTable s.jobs s.nextjid ok i j (find_job-some (pid_is (suc n)) s.jobs i j e).0 _
            (omega arith))
  ]

  -- On a well-formed table, after deletejob getjobpid no longer finds the process, and finds every other
  -- process as before.
  pub get_job_pid-delete_job :
      IsShell s
      → (m : ℕ)
      → (get_job_pid (delete_job s (pos (suc n))).0.jobs (pos (suc m))
          ≡ (if m == n then none else get_job_pid s.jobs (pos (suc m))))
  unfolding get_job_pid
  get_job_pid-delete_job ok m = elim delete_job-cases [
    | inl (e, missing) ↦ rw e (elim (Bool-cases (m == n)) [
      | inl same ↦ rw same (let q : m ≡ n = ground arith in rw q missing)
      | inr other ↦ rw other refl
    ])
    | inr (i, j, e, jobs, next, _) ↦
        let (at, hit) = find_job-some (pid_is (suc n)) s.jobs i j e in
        let shrinks = count-set_job (pid_is (suc n)) s.jobs i j clear_job at in
        rw jobs (elim (Bool-cases (m == n)) [
          | inl same ↦ rw same (
              let q : m ≡ n = ground arith in
              rw q (find_job-zero (pid_is (suc n)) _ (ground (arith, ok.pids n))))
          | inr other ↦ rw other (
              find_job-set_miss (pid_is (suc m)) s.jobs i j clear_job at (ground arith)
                (ground arith))
        ])
  ]

  -- After a successful deletejob the next job id is above every id in the table, so the next addjob
  -- gives a fresh one.
  pub delete_job-nextjid :
      (delete_job s (pos (suc n))).1 ≡ true
      → All
          (λ j. j.jid < (delete_job s (pos (suc n))).0.nextjid)
          (delete_job s (pos (suc n))).0.jobs
  delete_job-nextjid found = elim delete_job-cases [
    | inl (e, missing) ↦ absurd (ground arith)
    | inr (i, j, e, jobs, next, _) ↦ rw (jobs, next) (All-max_jid-lt (set_job s.jobs i clear_job))
  ]
