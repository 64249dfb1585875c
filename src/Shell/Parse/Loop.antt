-- ===== src/Shell/Parse/Loop.antt =====
-- The loop of parseline in CS230_projects/shelllab/tsh.c ends, and its fuel is enough.
use cs_courses.Base.{
  ℕ, zero, suc, ◌+◌, ◌≤◌, ◌<◌, ◌≡◌, inl, inr, some, List, [], ◌∷◌, arith, Option-cases, length,
}
use cs_courses.Shell.Parse.{cut, skip_spaces, next_arg, parse_args}

cut-length : (c : ℕ) (xs w rest : List ℕ) → cut c xs ≡ some (w, rest) → length rest < length xs
unfolding cut
cut-length c [] w rest e = absurd (ground arith)
cut-length c (x ∷ xs) w rest e = elim (Option-cases (cut c xs)) [
  | inl missing ↦ ground arith
  | inr ((v, r), found) ↦ ground (arith, cut-length c xs v r found)
]

pub next_arg-length : (xs w rest : List ℕ) → next_arg xs ≡ some (w, rest) → length rest < length xs
unfolding next_arg
next_arg-length [] w rest e = absurd (ground arith)
next_arg-length (x ∷ xs) w rest e =
    ground (arith, cut-length 0x27 xs w rest, cut-length b' ' (x ∷ xs) w rest)

pub length-skip_spaces : (xs : List ℕ) → length (skip_spaces xs) ≤ length xs
unfolding skip_spaces
length-skip_spaces [] = omega arith
length-skip_spaces (x ∷ xs) = ground (arith, length-skip_spaces xs)

-- With more fuel than characters the loop ends, and then any more fuel gives the same arguments.
pub parse_args-total :
    (fuel more : ℕ) (buf : List ℕ)
    → length buf < fuel
    → (ws : List (List ℕ)) × (parse_args fuel buf ≡ some ws)
      × (parse_args (fuel + more) buf ≡ some ws)
unfolding parse_args
parse_args-total zero more buf h = absurd (omega arith)
parse_args-total (suc fuel) more buf h =
    let e : suc fuel + more ≡ suc (fuel + more) = omega arith in
    rw e (elim (Option-cases (next_arg buf)) [
      | inl stop ↦ ([], rw (stop, parse_args), rw (stop, parse_args))
      | inr ((w, rest), found) ↦
          let (ws, a, b) =
            parse_args-total fuel more (skip_spaces rest)
              (omega (arith, next_arg-length buf w rest found, length-skip_spaces rest)) in
          (w ∷ ws, rw (found, a, parse_args), rw (found, b, parse_args))
    ])
