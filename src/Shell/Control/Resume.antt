-- ===== src/Shell/Control/Resume.antt =====
-- Which job is in the foreground when a wait of CS230_projects/shelllab/tsh.c ends.
use cs_courses.Base.{
  ℕ, zero, suc, ◌+◌, ◌≤◌, ◌<◌, ◌≡◌, refl, sym, ap, ◌∙◌, ◌++◌, ◌==◌, inl, inr, Bool, true, false,
  none, if◌then◌else◌, not, ◌&&◌, some, List, [], ◌∷◌, ℤ, pos, negsuc, arith, Option-cases,
  Bool-cases, get_elem?,
}
use cs_courses.Shell.Jobs.{
  Job, JobState, fg, bg, Shell, fg_is, get_job_pid, get_job_jid, find_job, pid_is, jid_is, emit,
  Event, killed, sigcont,
}
use cs_courses.Shell.Jobs.Table.{
  count, find_job-some, find_job-none, count-set_job, count_zero_at, All-get_elem?,
}
use cs_courses.Shell.Jobs.Invariant.{IsShell, IsSlot}
use cs_courses.Shell.Signals.{Incoming, set_state, deliver_all}
use cs_courses.Shell.Signals.Safety.{
  IsActive, AtMost, set_state-IsShell, get_job_pid-live, any_stop, deliver_all-crash,
}
use cs_courses.Shell.Control.{
  Schedule, Outcome, back, quits, crashed, waiting, in_foreground, wait_fg, resume, bg_jid, bg_pid,
  fg_jid, is_zero,
}
use cs_courses.Shell.Control.Wait.{Waited, wait_fg-Waited, Rounds-AtMost}

-- A foreground job of another process.
abbrev pub other_fg : ℕ → Job → Bool
other_fg p j = fg_is j && not (pid_is p j)

pub other_fg-IsActive : (p : ℕ) → IsActive (other_fg p)
other_fg-IsActive p = record { cleared = refl; halted = λ j. refl }

count-fg : (p : ℕ) (js : List Job) → count fg_is js ≤ count (other_fg p) js + count (pid_is p) js
unfolding count
count-fg p [] = omega arith
count-fg p (j ∷ js) = ground (arith, count-fg p js)

pub count-other : (p : ℕ) (js : List Job) → count (other_fg p) js ≤ count fg_is js
unfolding count
count-other p [] = omega arith
count-other p (j ∷ js) = ground (arith, count-other p js)

-- The one slot of the process is not in the foreground.
count-fg_found :
    (p i : ℕ) (j : Job) (js : List Job)
    → count (pid_is p) js ≤ 1
    → find_job (pid_is p) js ≡ some (i, j)
    → fg_is j ≡ false
    → count fg_is js ≤ count (other_fg p) js
unfolding count find_job
count-fg_found p i j [] one e h = omega arith
count-fg_found p i j (x ∷ js) one e h = elim (Bool-cases (pid_is p x)) [
  | inl hit ↦ ground (arith, count-fg p js)
  | inr miss ↦ elim (Option-cases (find_job (pid_is p) js)) [
    | inl missing ↦ ground arith
    | inr ((k, y), found) ↦ ground (arith, count-fg_found p k y js)
  ]
]

-- No job of another process is in the foreground, and neither is this one.
pub settled :
    (p : ℕ) (s : Shell)
    → AtMost (other_fg (suc p)) 0 s
    → in_foreground s.jobs (pos (suc p)) ≡ false
    → AtMost fg_is 0 s
unfolding in_foreground get_job_pid
settled p s h out = record { table = h.table; few = quiet }
  where
    quiet : count fg_is s.jobs ≤ 0
    quiet = elim (Option-cases (find_job (pid_is (suc p)) s.jobs)) [
      | inl missing ↦
          omega
            (arith, count-fg (suc p) s.jobs, find_job-none (pid_is (suc p)) s.jobs missing, h.few)
      | inr ((i, j), found) ↦
          let background : fg_is j ≡ false = rw (found, in_foreground) at out in
          omega (arith, count-fg_found (suc p) i j s.jobs (h.table.pids p) found background, h.few)
    ]

pub get_job_pid-at :
    (s : Shell) (n : ℤ) (i : ℕ) (j : Job)
    → get_job_pid s.jobs n ≡ some (i, j)
    → (get_elem? s.jobs i ≡ some j) × (0 < j.pid)
unfolding get_job_pid
get_job_pid-at s (negsuc n) i j e = absurd (ground arith)
get_job_pid-at s (pos n) i j e = get_job_pid-live s.jobs n i j e

count-front :
    (js : List Job) (i : ℕ) (j : Job)
    → get_elem? js i ≡ some j
    → fg_is j ≡ true
    → 0 < count fg_is js
count-front js i j at front = elim (Bool-cases (count fg_is js == 0)) [
  | inr some_fg ↦ ground (arith, some_fg)
  | inl none_fg ↦ cc (front, count_zero_at fg_is js i j (ground (arith, none_fg)) at)
]

-- A schedule in which a stopped child is reported.
abbrev pub has_stop : Schedule → Bool
has_stop [] = false
has_stop (es ∷ rest) = if any_stop es then true else has_stop rest

has_stop-append :
    (used : Schedule) (es : List Incoming) (rest : Schedule)
    → any_stop es ≡ true
    → has_stop (used ++ (es ∷ rest)) ≡ true
has_stop-append [] es rest h = rw h refl
has_stop-append (x ∷ used) es rest h = ground (arith, has_stop-append used es rest h)

-- Back at the prompt no job is in the foreground; a wait that goes on has a well-formed table with a
-- foreground job; and only the report of a stopped child crashes the shell.
abbrev pub Settled : Schedule → Outcome → Type 0
Settled rounds (back t rest) = AtMost fg_is 0 t
Settled rounds (quits t) = ⊥
Settled rounds (waiting t) = IsShell t × (count fg_is t.jobs ≡ 1)
Settled rounds crashed = has_stop rounds ≡ true

-- A table in which a process is in the foreground has one foreground job.
in_foreground-one :
    (pid : ℤ) (s : Shell) → IsShell s → in_foreground s.jobs pid ≡ true → count fg_is s.jobs ≡ 1
unfolding in_foreground
in_foreground-one pid s ok still = elim (Option-cases (get_job_pid s.jobs pid)) [
  | inl missing ↦ absurd (ground (arith, rw (missing, in_foreground) at still))
  | inr ((i, j), found) ↦
      let front : fg_is j ≡ true = rw (found, in_foreground) at still in
      omega (arith, ok.one_fg, count-front s.jobs i j (get_job_pid-at s pid i j found).0 front)
]

crash-stop :
    (used : Schedule) (es : List Incoming) (rest rounds : Schedule) (t : Shell)
    → used ++ (es ∷ rest) ≡ rounds
    → deliver_all es t ≡ none
    → has_stop rounds ≡ true
crash-stop used es rest rounds t split fails =
    sym (ap has_stop split) ∙ has_stop-append used es rest (deliver_all-crash es t fails)

Waited-Settled :
    (p : ℕ) (rounds : Schedule) (s : Shell) (o : Outcome)
    → AtMost (other_fg (suc p)) 0 s
    → Waited (pos (suc p)) rounds s o
    → Settled rounds o
Waited-Settled p rounds s (back t rest) h (out, used, split, r) =
    settled p t (Rounds-AtMost (other_fg (suc p)) (other_fg-IsActive (suc p)) 0 h r) out
Waited-Settled p rounds s (waiting t) h (still, r) =
    let kept = Rounds-AtMost (other_fg (suc p)) (other_fg-IsActive (suc p)) 0 h r in
    (kept.table, in_foreground-one (pos (suc p)) t kept.table still)
Waited-Settled p rounds s crashed h (used, es, rest, t, split, r, fails) =
    crash-stop used es rest rounds t split fails
Waited-Settled p rounds s (quits t) h w = absurd w

-- A wait for the only foreground job leaves none.
pub wait_fg-Settled :
    (p : ℕ) (rounds : Schedule) (s : Shell)
    → AtMost (other_fg (suc p)) 0 s
    → Settled rounds (wait_fg (pos (suc p)) rounds s)
wait_fg-Settled p rounds s h = Waited-Settled p rounds s _ h (wait_fg-Waited (pos (suc p)) rounds s)

wait_fg-live :
    (p : ℕ) (rounds : Schedule) (s : Shell)
    → 0 < p
    → AtMost (other_fg p) 0 s
    → Settled rounds (wait_fg (pos p) rounds s)
wait_fg-live zero rounds s live h = elim live [ ]
wait_fg-live (suc p) rounds s live h = wait_fg-Settled p rounds s h

get_job_jid-live :
    (s : Shell) (n : ℤ) (i : ℕ) (j : Job)
    → IsShell s
    → get_job_jid s.jobs n ≡ some (i, j)
    → (get_elem? s.jobs i ≡ some j) × (0 < j.pid)
unfolding get_job_jid
get_job_jid-live s (negsuc n) i j ok e = absurd (ground arith)
get_job_jid-live s (pos zero) i j ok e = absurd (ground arith)
get_job_jid-live s (pos (suc n)) i j ok e =
    let (at, hit) = find_job-some (jid_is (suc n)) s.jobs i j e in
    let slot = All-get_elem? IsSlot s.jobs i j ok.slots at in (at, ground (arith, slot))

module _ (s : Shell) (i : ℕ) (j : Job) (at : get_elem? s.jobs i ≡ some j)
    (quiet : AtMost fg_is 0 s) where
  resume-IsShell : (x : JobState) → 0 < j.pid → IsShell (resume i j x s)
  unfolding resume
  resume-IsShell x live =
      set_state-IsShell (emit (killed j.pid sigcont) s) i j x at
        (record {
          size = quiet.table.size;
          slots = quiet.table.slots;
          pids = quiet.table.pids;
          one_fg = quiet.table.one_fg;
          next_pos = quiet.table.next_pos;
        })
        live (ground (arith, quiet.few))

  -- `resume` at a job that goes on in the background.
  pub resume-bg : 0 < j.pid → AtMost fg_is 0 (resume i j bg s)
  unfolding resume set_state
  resume-bg live = record {
    table = resume-IsShell bg live;
    few = ground (arith, count-set_job fg_is s.jobs i j (record j { state = bg }) at, quiet.few);
  }

  resume-fg : 0 < j.pid → AtMost (other_fg j.pid) 0 (resume i j fg s)
  unfolding resume set_state
  resume-fg live = record {
    table = resume-IsShell fg live;
    few = ground (
      arith,
      count-set_job (other_fg j.pid) s.jobs i j (record j { state = fg }) at,
      count-other (j.pid) s.jobs,
      quiet.few,
    );
  }

  resume-Settled :
      (rounds : Schedule)
      → 0 < j.pid
      → Settled rounds (wait_fg (pos j.pid) rounds (resume i j fg s))
  resume-Settled rounds live = wait_fg-live j.pid rounds _ live (resume-fg live)

module _ (s : Shell) (quiet : AtMost fg_is 0 s) where
  pub emit-quiet : (e : Event) → AtMost fg_is 0 (emit e s)
  emit-quiet e = ground arith

module _ (atoi : List ℕ → ℤ) (s : Shell) (quiet : AtMost fg_is 0 s) where
  pub bg_jid-quiet : (arg : List ℕ) → AtMost fg_is 0 (bg_jid atoi arg s)
  unfolding bg_jid
  bg_jid-quiet arg = elim (Bool-cases (is_zero (atoi arg))) [
    | inl bad ↦ rw (bad, bg_jid) (emit-quiet s quiet _)
    | inr num ↦ elim (Option-cases (get_job_jid s.jobs (atoi arg))) [
      | inl missing ↦ rw (num, missing, bg_jid) (emit-quiet s quiet _)
      | inr ((i, j), found) ↦
          let (at, live) = get_job_jid-live s (atoi arg) i j quiet.table found in
          let h = resume-bg s i j at quiet live in
          rw (num, found, bg_jid) (record { table = h.table; few = h.few })
    ]
  ]

  pub bg_pid-quiet : (arg : List ℕ) → AtMost fg_is 0 (bg_pid atoi arg s)
  unfolding bg_pid
  bg_pid-quiet arg = elim (Bool-cases (is_zero (atoi arg))) [
    | inl bad ↦ rw (bad, bg_pid) (emit-quiet s quiet _)
    | inr num ↦ elim (Option-cases (get_job_pid s.jobs (atoi arg))) [
      | inl missing ↦ rw (num, missing, bg_pid) (emit-quiet s quiet _)
      | inr ((i, j), found) ↦
          let (at, live) = get_job_pid-at s (atoi arg) i j found in
          let h = resume-bg s i j at quiet live in
          rw (num, found, bg_pid) (record { table = h.table; few = h.few })
    ]
  ]

  pub fg_jid-Settled :
      (arg : List ℕ) (rounds : Schedule) → Settled rounds (fg_jid atoi arg rounds s)
  unfolding fg_jid
  fg_jid-Settled arg rounds = elim (Bool-cases (is_zero (atoi arg))) [
    | inl bad ↦ rw (bad, fg_jid) (emit-quiet s quiet _)
    | inr num ↦ elim (Option-cases (get_job_jid s.jobs (atoi arg))) [
      | inl missing ↦ rw (num, missing, fg_jid) (emit-quiet s quiet _)
      | inr ((i, j), found) ↦
          let (at, live) = get_job_jid-live s (atoi arg) i j quiet.table found in
          rw (num, found, fg_jid) (resume-Settled s i j at quiet rounds live)
    ]
  ]
