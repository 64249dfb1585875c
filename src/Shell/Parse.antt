-- ===== src/Shell/Parse.antt =====
-- parseline of CS230_projects/shelllab/tsh.c. A string is the list of its characters before the
-- terminating null, none of which is null. `none` is an access outside
-- `argv` or in front of the line. The copy of the line always fits: array[MAXLINE] is as long as the
-- buffer that main reads the line into, so a line has fewer than MAXLINE characters.
pub mod Loop
pub mod Render
use mathlib.Core.Option
use cs_courses.Base.{
  ℕ, zero, suc, Bool, true, false, Option, none, some, List, [], ◌∷◌, leb, ◌==◌, if◌then◌else◌,
  length,
}

abbrev pub max_args : ℕ
max_args = 128

-- *strchr(buf, c) = '\0': what stands before the first `c`, and what stands behind it.
unfoldable pub cut : ℕ → List ℕ → Option (List ℕ × List ℕ)
cut c [] = none
cut c (x ∷ xs) =
    if x == c then some ([], xs) else Option.map (λ (w, rest). (x ∷ w, rest)) (cut c xs)

-- while (*buf && (*buf == ' ')) buf++;
unfoldable pub skip_spaces : List ℕ → List ℕ
skip_spaces [] = []
skip_spaces (x ∷ xs) = if x == b' ' then skip_spaces xs else x ∷ xs

-- The next argument, in quotes or up to a space.
unfoldable pub next_arg : List ℕ → Option (List ℕ × List ℕ)
unfolding cut
next_arg [] = none
next_arg (x ∷ xs) = if x == 0x27 then cut 0x27 xs else cut b' ' (x ∷ xs)

-- while (delim) { argv[argc++] = buf; ... }, with a round of fuel for each argument
unfoldable pub parse_args : ℕ → List ℕ → Option (List (List ℕ))
unfolding next_arg skip_spaces
parse_args zero buf = none
parse_args (suc fuel) buf = elim (next_arg buf) [
  | none ↦ some []
  | some (w, rest) ↦ Option.map (λ ws. w ∷ ws) (parse_args fuel (skip_spaces rest))
]

-- buf[strlen(buf) - 1] = ' '
unfoldable pub blank_last : List ℕ → Option (List ℕ)
blank_last [] = none
blank_last (x ∷ []) = some (b' ' ∷ [])
blank_last (x ∷ y ∷ ys) = Option.map (λ zs. x ∷ zs) (blank_last (y ∷ ys))

abbrev pub is_ampersand : List ℕ → Bool
is_ampersand [] = false
is_ampersand (x ∷ xs) = x == b'&'

-- argv less a last argument that begins with `&`, and whether there was one
unfoldable pub split_ampersand : List (List ℕ) → List (List ℕ) × Bool
split_ampersand [] = ([], false)
split_ampersand (w ∷ []) = if is_ampersand w then ([], true) else (w ∷ [], false)
split_ampersand (w ∷ v ∷ vs) = let r = split_ampersand (v ∷ vs) in (w ∷ r.0, r.1)

unfoldable pub finish : List (List ℕ) → Option (List (List ℕ) × Bool)
unfolding split_ampersand
finish [] = some ([], true)
finish (w ∷ ws) = if leb max_args (length (w ∷ ws)) then none else some (split_ampersand (w ∷ ws))

unfoldable pub parse_buf : List ℕ → Option (List (List ℕ) × Bool)
unfolding parse_args finish skip_spaces Option.bind
parse_buf buf = Option.bind (parse_args (suc (length buf)) (skip_spaces buf)) finish

-- parseline: argv and whether the job is for the background
unfoldable pub parse_line : List ℕ → Option (List (List ℕ) × Bool)
unfolding blank_last parse_buf Option.bind
parse_line cmdline = Option.bind (blank_last cmdline) parse_buf
