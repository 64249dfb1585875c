-- ===== src/Shell/Control/Wait.antt =====
-- waitfg of CS230_projects/shelllab/tsh.c.
use cs_courses.Base.{
  ℕ, ◌≡◌, refl, inl, inr, Bool, true, false, none, some, List, [], ◌∷◌, ◌++◌, ℤ, Option-cases,
  Bool-cases, ap,
}
use cs_courses.Shell.Jobs.{Job, Shell}
use cs_courses.Shell.Signals.{Incoming, deliver_all}
use cs_courses.Shell.Signals.Safety.{IsActive, AtMost, deliver_all-AtMost}
use cs_courses.Shell.Control.{
  Schedule, Outcome, back, quits, crashed, waiting, in_foreground, wait_fg,
}

-- The states that the shell goes through while it waits: the process is in the foreground at the
-- start of each round.
pub data Rounds (pid : ℤ) : Shell → Schedule → Shell → Type 0 where
  stop : {s : Shell} → Rounds pid s [] s
  round :
      {s t u : Shell} {es : List Incoming} {rest : Schedule}
      → in_foreground s.jobs pid ≡ true
      → deliver_all es s ≡ some t
      → Rounds pid t rest u
      → Rounds pid s (es ∷ rest) u

-- What a wait for `pid` from `s` ends in: it came back at a state in which the process is not in the
-- foreground, behind a prefix of the schedule; or the schedule is used up and the process still is in
-- the foreground; or a handler dereferenced a null pointer in a round.
abbrev pub Waited : ℤ → Schedule → Shell → Outcome → Type 0
Waited pid rounds s (back t rest) =
    (in_foreground t.jobs pid ≡ false)
    × (used : Schedule) × (used ++ rest ≡ rounds)
    × Rounds pid s used t
Waited pid rounds s (waiting t) = (in_foreground t.jobs pid ≡ true) × Rounds pid s rounds t
Waited pid rounds s crashed =
    (used : Schedule) × (es : List Incoming) × (rest : Schedule) × (t : Shell) × (used
        ++ (es ∷ rest)
      ≡ rounds)
    × Rounds pid s used t
    × (deliver_all es t ≡ none)
Waited pid rounds s (quits t) = ⊥

Waited-round :
    (pid : ℤ) (es : List Incoming) (rest : Schedule) (s t : Shell) (o : Outcome)
    → in_foreground s.jobs pid ≡ true
    → deliver_all es s ≡ some t
    → Waited pid rest t o
    → Waited pid (es ∷ rest) s o
Waited-round pid es rest s t (back u left) fg e (out, used, split, r) =
    (out, es ∷ used, ap (◌∷◌ es) split, round fg e r)
Waited-round pid es rest s t (waiting u) fg e (still, r) = (still, round fg e r)
Waited-round pid es rest s t crashed fg e (used, bad, left, u, split, r, fails) =
    (es ∷ used, bad, left, u, ap (◌∷◌ es) split, round fg e r, fails)
Waited-round pid es rest s t (quits u) fg e w = w

-- waitfg comes back in the first state in which its process is not in the foreground, having let in a prefix
-- of the schedule; else the whole schedule left the process in the foreground, or a handler crashed.
pub wait_fg-Waited :
    (pid : ℤ) (rounds : Schedule) (s : Shell) → Waited pid rounds s (wait_fg pid rounds s)
unfolding wait_fg
wait_fg-Waited pid [] s = elim (Bool-cases (in_foreground s.jobs pid)) [
  | inl still ↦ rw (still, wait_fg) (still, stop)
  | inr out ↦ rw (out, wait_fg) (out, [], refl, stop)
]
wait_fg-Waited pid (es ∷ rest) s = elim (Bool-cases (in_foreground s.jobs pid)) [
  | inr out ↦ rw (out, wait_fg) (out, [], refl, stop)
  | inl still ↦ elim (Option-cases (deliver_all es s)) [
    | inl crash ↦ rw (still, crash, wait_fg) ([], es, rest, s, refl, stop, crash)
    | inr (t, one) ↦
        rw (still, one, wait_fg)
          (Waited-round pid es rest s t (wait_fg pid rest t) still one (wait_fg-Waited pid rest t))
  ]
]

-- The rounds of a wait keep the table well-formed and the number of active jobs bounded.
pub Rounds-AtMost :
    (p : Job → Bool) (active : IsActive p) (n : ℕ) {pid : ℤ} {s t : Shell} {rounds : Schedule}
    → AtMost p n s
    → Rounds pid s rounds t
    → AtMost p n t
Rounds-AtMost p active n h stop = h
Rounds-AtMost p active n h (round fg e r) =
    Rounds-AtMost p active n (deliver_all-AtMost p active n _ _ _ h e) r

-- A process that is not in the foreground is not waited for.
pub wait_fg_out :
    (pid : ℤ) (rounds : Schedule) (s : Shell)
    → in_foreground s.jobs pid ≡ false
    → wait_fg pid rounds s ≡ back s rounds
unfolding wait_fg
wait_fg_out pid [] s out = rw (out, wait_fg)
wait_fg_out pid (es ∷ rest) s out = rw (out, wait_fg)
