-- ===== src/Shell/Parse/Render.antt =====
-- parseline of CS230_projects/shelllab/tsh.c reads back what was typed.
use mathlib.Core.List.{map-append}
use cs_courses.Base.{
  ℕ, zero, suc, ◌+◌, ◌≤◌, ◌<◌, ◌≡◌, refl, ◌≢◌, Bool, true, false, none, some, List, [], ◌∷◌, ◌++◌,
  arith, ap, length, ◌==◌, All, length-append, map, ◌∙◌, length-map, All-append,
}
use cs_courses.Shell.Parse.{
  cut, skip_spaces, next_arg, parse_args, blank_last, is_ampersand, split_ampersand, finish,
  parse_buf, parse_line, max_args,
}

-- An argument args it is typed.
pub data Arg : Type 0 where
  plain quoted : List ℕ → Arg

abbrev pub text : Arg → List ℕ
text (plain w) = w
text (quoted w) = w

abbrev pub first_is : ℕ → List ℕ → Bool
first_is c [] = false
first_is c (x ∷ xs) = x == c

-- A plain word is not empty, holds no space and does not begin with a quote; a quoted text holds no
-- quote.
abbrev pub IsArg : Arg → Type 0
IsArg (plain w) = (w ≢ []) × All (λ c. (c == b' ') ≡ false) w × (first_is 0x27 w ≡ false)
IsArg (quoted w) = All (λ c. (c == 0x27) ≡ false) w

-- The line, with a space behind each argument.
unfoldable pub render : List Arg → List ℕ
render [] = []
render (plain w ∷ args) = w ++ (b' ' ∷ render args)
render (quoted w ∷ args) = 0x27 ∷ (w ++ (0x27 ∷ b' ' ∷ render args))

cut-append :
    (c : ℕ) (w rest : List ℕ)
    → All (λ x. (x == c) ≡ false) w
    → cut c (w ++ (c ∷ rest)) ≡ some (w, rest)
unfolding cut
cut-append c [] rest a = ground arith
cut-append c (x ∷ w) rest a = ground (arith, cut-append c w rest a.1)

next_arg-plain :
    (w rest : List ℕ) → IsArg (plain w) → next_arg (w ++ (b' ' ∷ rest)) ≡ some (w, rest)
unfolding next_arg
next_arg-plain [] rest a = absurd (a.0 refl)
next_arg-plain (x ∷ w) rest a = ground (arith, cut-append b' ' (x ∷ w) rest a.1)

-- The text of a command line does not begin with a space.
skip_spaces-render : (args : List Arg) → All IsArg args → skip_spaces (render args) ≡ render args
unfolding skip_spaces render
skip_spaces-render [] a = refl
skip_spaces-render (plain [] ∷ args) a = absurd (a.0.0 refl)
skip_spaces-render (plain (x ∷ w) ∷ args) a = ground (arith)
skip_spaces-render (quoted w ∷ args) a = refl

next_arg-quoted :
    (w rest : List ℕ) → IsArg (quoted w) → next_arg (0x27 ∷ (w ++ (0x27 ∷ rest))) ≡ some (w, rest)
unfolding next_arg
next_arg-quoted w rest a = cut-append 0x27 w rest a

skip_spaces-space : (xs : List ℕ) → skip_spaces (b' ' ∷ xs) ≡ skip_spaces xs
unfolding skip_spaces
skip_spaces-space xs = refl

parse_args-render :
    (fuel : ℕ) (args : List Arg)
    → All IsArg args
    → length args < fuel
    → parse_args fuel (render args) ≡ some (map text args)
unfolding parse_args render
parse_args-render zero args a h = absurd (omega arith)
parse_args-render (suc fuel) [] a h = unfold next_arg in refl
parse_args-render (suc fuel) (plain w ∷ args) a h = rw (
  next_arg-plain w (render args) a.0,
  parse_args,
  skip_spaces-render args a.1,
  parse_args-render fuel args a.1 (omega arith),
)
parse_args-render (suc fuel) (quoted w ∷ args) a h = rw (
  next_arg-quoted w (b' ' ∷ render args) a.0,
  parse_args,
  skip_spaces-space (render args),
  skip_spaces-render args a.1,
  parse_args-render fuel args a.1 (omega arith),
)

length-render : (args : List Arg) → length args ≤ length (render args)
unfolding render
length-render [] = omega arith
length-render (plain w ∷ args) =
    omega (arith, length-append w (b' ' ∷ render args), length-render args)
length-render (quoted w ∷ args) =
    omega (arith, length-append w (0x27 ∷ b' ' ∷ render args), length-render args)

blank_last-append : (xs : List ℕ) (c : ℕ) → blank_last (xs ++ c ∷ []) ≡ some (xs ++ b' ' ∷ [])
unfolding blank_last
blank_last-append [] c = refl
blank_last-append (x ∷ []) c = refl
blank_last-append (x ∷ y ∷ ys) c = rw (blank_last-append (y ∷ ys) c)

abbrev pub last_text : List Arg → List ℕ
last_text [] = []
last_text (a ∷ []) = text a
last_text (a ∷ b ∷ bs) = last_text (b ∷ bs)

split-foreground :
    (args : List Arg)
    → is_ampersand (last_text args) ≡ false
    → split_ampersand (map text args) ≡ (map text args, false)
unfolding split_ampersand
split-foreground [] h = refl
split-foreground (a ∷ []) h = rw h
split-foreground (a ∷ b ∷ bs) h = rw (split-foreground (b ∷ bs) h)

split-background :
    (args : List Arg) → split_ampersand (map text args ++ (b'&' ∷ []) ∷ []) ≡ (map text args, true)
unfolding split_ampersand
split-background [] = refl
split-background (a ∷ []) = refl
split-background (a ∷ b ∷ bs) = rw (split-background (b ∷ bs))

parse_line-render :
    (args : List Arg) (line : List ℕ)
    → All IsArg args
    → render args ≡ line ++ b' ' ∷ []
    → parse_line (line ++ 0x0a ∷ []) ≡ finish (map text args)
unfolding parse_line parse_buf
parse_line-render args line a e = rw (
  blank_last-append line 0x0a,
  ← e,
  skip_spaces-render args a,
  parse_args-render (suc (length (render args))) args a (omega (arith, length-render args)),
)

finish_small :
    (w : List ℕ) (ws : List (List ℕ))
    → length (w ∷ ws) < max_args
    → finish (w ∷ ws) ≡ some (split_ampersand (w ∷ ws))
unfolding finish
finish_small w ws few = ground arith

finish-overflow :
    (arg : Arg) (args : List Arg)
    → max_args ≤ length (arg ∷ args)
    → finish (map text (arg ∷ args)) ≡ none
unfolding finish
finish-overflow arg args many = ground (arith, length-map text args)

finish-foreground :
    (arg : Arg) (args : List Arg)
    → length (arg ∷ args) < max_args
    → is_ampersand (last_text (arg ∷ args)) ≡ false
    → finish (map text (arg ∷ args)) ≡ some (map text (arg ∷ args), false)
finish-foreground arg args few last =
    finish_small (text arg) (map text args) (omega (arith, length-map text args))
    ∙ ap some (split-foreground (arg ∷ args) last)

-- A line of at least one and fewer than MAXARGS arguments, with one space between them and a newline
-- at the end, parses to their texts as a foreground command, if the last does not begin with an
-- ampersand.
pub parse_line-foreground :
    (arg : Arg) (args : List Arg) (line : List ℕ)
    → All IsArg (arg ∷ args)
    → length (arg ∷ args) < max_args
    → is_ampersand (last_text (arg ∷ args)) ≡ false
    → render (arg ∷ args) ≡ line ++ b' ' ∷ []
    → parse_line (line ++ 0x0a ∷ []) ≡ some (map text (arg ∷ args), false)
parse_line-foreground arg args line a few last e =
    parse_line-render (arg ∷ args) line a e ∙ finish-foreground arg args few last

abbrev pub ampersand : Arg
ampersand = plain (b'&' ∷ [])

finish-background :
    (arg : Arg) (args : List Arg)
    → length (arg ∷ args) + 1 < max_args
    → finish (map text (arg ∷ args) ++ (b'&' ∷ []) ∷ []) ≡ some (map text (arg ∷ args), true)
finish-background arg args few =
    finish_small (text arg) (map text args ++ (b'&' ∷ []) ∷ [])
      (omega (arith, length-map text args, length-append (map text args) ((b'&' ∷ []) ∷ [])))
    ∙ ap some (split-background (arg ∷ args))

-- The same line with an ampersand as one more argument parses to the texts before it, as a
-- background command.
parse_line-background :
    (arg : Arg) (args : List Arg) (line : List ℕ)
    → All IsArg (arg ∷ args)
    → length (arg ∷ args) + 1 < max_args
    → render ((arg ∷ args) ++ ampersand ∷ []) ≡ line ++ b' ' ∷ []
    → parse_line (line ++ 0x0a ∷ []) ≡ some (map text (arg ∷ args), true)
parse_line-background arg args line a few e =
    parse_line-render ((arg ∷ args) ++ ampersand ∷ []) line
      (All-append IsArg (arg ∷ args) (ampersand ∷ []) a (((λ q. cc), ground arith, refl), tt)) e
    ∙ ap finish (map-append text (arg ∷ args) (ampersand ∷ []))
    ∙ finish-background arg args few

-- A line of at least MAXARGS arguments, plain or in quotes, with one space between them and a newline at
-- the end, makes parseline write outside `argv`.
pub parse_line-overflow :
    (arg : Arg) (args : List Arg) (line : List ℕ)
    → All IsArg (arg ∷ args)
    → max_args ≤ length (arg ∷ args)
    → render (arg ∷ args) ≡ line ++ b' ' ∷ []
    → parse_line (line ++ 0x0a ∷ []) ≡ none
parse_line-overflow arg args line a many e =
    parse_line-render (arg ∷ args) line a e ∙ finish-overflow arg args many
