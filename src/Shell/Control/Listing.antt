-- ===== src/Shell/Control/Listing.antt =====
-- The built-in command `jobs` of CS230_projects/shelllab/tsh.c.
use cs_courses.Base.{ℕ, ◌+◌, ◌≡◌, true, List, [], ◌∷◌, ◌++◌, arith, Bool-cases, inl, inr, ◌==◌}
use cs_courses.Shell.Jobs.{Job, Shell, list_jobs}
use cs_courses.Shell.Control.{show_jobs}

-- The command lists no job that stands behind a cleared slot, however many there are: it prints what
-- it prints for a table that ends at that slot.
pub show_jobs_gap :
    (idx : ℕ) (before after : List Job) (gap : Job) (s : Shell)
    → gap.pid ≡ 0
    → show_jobs idx (before ++ (gap ∷ after)) s ≡ show_jobs idx (before ++ (gap ∷ [])) s
unfolding show_jobs
show_jobs_gap idx [] after gap s e =
    let hole : (gap.pid == 0) ≡ true = ground arith in rw (hole, show_jobs)
show_jobs_gap idx (j ∷ before) after gap s e = elim (Bool-cases (j.pid == 0)) [
  | inl hole ↦ rw (hole, show_jobs)
  | inr live ↦ rw (live, show_jobs) (show_jobs_gap (idx + 1) before after gap _ e)
]

-- The index behind the last of these slots.
abbrev pub end_of : ℕ → List Job → ℕ
end_of idx [] = idx
end_of idx (j ∷ js) = end_of (idx + 1) js

-- listjobs skips the cleared slot and goes on: the jobs before it and those behind it are listed.
pub list_jobs_gap :
    (idx : ℕ) (before after : List Job) (gap : Job)
    → gap.pid ≡ 0
    → list_jobs idx (before ++ (gap ∷ after))
      ≡ list_jobs idx before ++ list_jobs (end_of idx before + 1) after
unfolding list_jobs
list_jobs_gap idx [] after gap e = ground arith
list_jobs_gap idx (j ∷ before) after gap e =
    ground (arith, list_jobs_gap (idx + 1) before after gap e)
