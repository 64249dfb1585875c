-- ===== src/Stdlib/Number.antt =====
-- atoi of CS330_projects/proj1/lib/stdlib.c against the decimal numbers it reads.
use cs_courses.Base.{
  ℕ, ◌+◌, ◌-◌, ◌*◌, ◌≤◌, ◌<◌, ◌≡◌, refl, ◌∙◌, ap, true, false, Option, none, some, List, [], ◌∷◌,
  ◌++◌, map, All, ℤ, pos, ltb, leb, ◌==◌, if◌then◌else◌, Bool-cases, inl, inr, leb→le, arith,
}
use mathlib.Core.Option
use cs_courses.Stdlib.{
  is_space, is_digit, int_bound, skip_white, digits_loop, minus, with_sign, signed, atoi,
}

abbrev pub digit_char : ℕ → ℕ
digit_char d = b'0' + d

-- The number that decimal digits stand for, the first one first, behind the number `v`.
abbrev pub value_from : ℕ → List ℕ → ℕ
value_from v [] = v
value_from v (d ∷ ds) = value_from (v * 10 + d) ds

-- No digit follows.
abbrev pub Ends : List ℕ → Type 0
Ends [] = Unit
Ends (c ∷ cs) = is_digit c ≡ false

pub data Sign : Type 0 where
  unsigned plus dash : Sign

abbrev pub sign_text : Sign → List ℕ
sign_text unsigned = []
sign_text plus = b'+' ∷ []
sign_text dash = b'-' ∷ []

-- The int with a sign and a magnitude, where there is one: from -2^31 to 2^31 - 1.
abbrev pub int_of : Sign → ℕ → Option ℤ
int_of dash n = if leb n int_bound then some (minus n) else none
int_of _ n = if ltb n int_bound then some (pos n) else none

value_from-grows : (v : ℕ) (ds : List ℕ) → v ≤ value_from v ds
value_from-grows v [] = omega arith
value_from-grows v (d ∷ ds) = omega (arith, value_from-grows (v * 10 + d) ds)

abbrev bounded : ℕ → Option ℕ
bounded n = if leb n int_bound then some n else none

digits_loop_end : (rest : List ℕ) (v : ℕ) → Ends rest → digits_loop rest v ≡ some v
unfolding digits_loop
digits_loop_end [] v e = refl
digits_loop_end (c ∷ cs) v e = rw (e, digits_loop) refl

char_is_digit : (d : ℕ) → d < 10 → is_digit (digit_char d) ≡ true
char_is_digit d h = ground arith

char_value : (d v : ℕ) → v * 10 + (digit_char d - b'0') ≡ v * 10 + d
char_value d v = omega arith

-- One round of the loop, at a digit.
digits_loop-next :
    (d v : ℕ) (cs : List ℕ)
    → d < 10
    → digits_loop (digit_char d ∷ cs) v
      ≡ (if leb (v * 10 + d) int_bound then digits_loop cs (v * 10 + d) else none)
unfolding digits_loop
digits_loop-next d v cs h = elim (Bool-cases (leb (v * 10 + d) int_bound)) [
  | inl on ↦
      rw (digits_loop, char_is_digit d h, char_value d v, on) (ap (digits_loop cs) (char_value d v))
  | inr off ↦ rw (digits_loop, char_is_digit d h, char_value d v, off) refl
]

digits_loop-digits :
    (ds rest : List ℕ) (v : ℕ)
    → All (λ d. d < 10) ds
    → Ends rest
    → v ≤ int_bound
    → digits_loop (map digit_char ds ++ rest) v ≡ bounded (value_from v ds)
unfolding digits_loop
digits_loop-digits [] rest v a e h = ground (arith, digits_loop_end rest v e)
digits_loop-digits (d ∷ ds) rest v a e h =
    let next = v * 10 + d in
    elim (Bool-cases (leb next int_bound)) [
      | inl on ↦
          rw (digits_loop-next d v (map digit_char ds ++ rest) a.0, on)
            (digits_loop-digits ds rest next a.1 e (leb→le next int_bound on))
      | inr off ↦
          rw (digits_loop-next d v (map digit_char ds ++ rest) a.0, off)
            (ground (arith, value_from-grows next ds, off))
    ]

skip_white-spaces :
    (ws s : List ℕ) → All (λ c. is_space c ≡ true) ws → skip_white (ws ++ s) ≡ skip_white s
unfolding skip_white
skip_white-spaces [] s a = refl
skip_white-spaces (c ∷ cs) s a = rw (skip_white, a.0) (skip_white-spaces cs s a.1)

char_is_no_space : (d : ℕ) → d < 10 → is_space (digit_char d) ≡ false
char_is_no_space d h = ground arith

char_is_no_sign : (d : ℕ) → ((digit_char d == b'+') ≡ false) × ((digit_char d == b'-') ≡ false)
char_is_no_sign d = (ground arith, ground arith)

bounded-positive : (n : ℕ) → Option.bind (bounded n) (with_sign false) ≡ int_of plus n
unfolding Option.bind
bounded-positive n = ground arith

bounded-negative : (n : ℕ) → Option.bind (bounded n) (with_sign true) ≡ int_of dash n
unfolding Option.bind
bounded-negative n = ground arith

module _ (d : ℕ) (ds rest : List ℕ) (digits : All (λ c. c < 10) (d ∷ ds)) (ends : Ends rest) where
  signed-digits :
      (sign : Sign)
      → signed (sign_text sign ++ (map digit_char (d ∷ ds) ++ rest))
        ≡ int_of sign (value_from 0 (d ∷ ds))
  unfolding signed
  signed-digits unsigned =
      rw
        (
          signed,
          (char_is_no_sign d).0,
          (char_is_no_sign d).1,
          digits_loop-digits (d ∷ ds) rest 0 digits ends (omega arith),
        )
        (bounded-positive (value_from 0 (d ∷ ds)))
  signed-digits plus =
      rw (digits_loop-digits (d ∷ ds) rest 0 digits ends (omega arith))
        (bounded-positive (value_from 0 (d ∷ ds)))
  signed-digits dash =
      rw (digits_loop-digits (d ∷ ds) rest 0 digits ends (omega arith))
        (bounded-negative (value_from 0 (d ∷ ds)))

  no_space_left :
      (sign : Sign)
      → skip_white (sign_text sign ++ (map digit_char (d ∷ ds) ++ rest))
        ≡ sign_text sign ++ (map digit_char (d ∷ ds) ++ rest)
  unfolding skip_white
  no_space_left unsigned = rw (skip_white, char_is_no_space d digits.0) refl
  no_space_left plus = refl
  no_space_left dash = refl

  -- On white space, an optional sign and decimal digits, at least one, behind which comes no further
  -- digit, atoi returns the number that the digits stand for with its sign, where that lies between
  -- -2^31 and 2^31 - 1, and overflows an int where it does not.
  pub atoi-int_of :
      (ws : List ℕ) (sign : Sign)
      → All (λ c. is_space c ≡ true) ws
      → atoi (ws ++ (sign_text sign ++ (map digit_char (d ∷ ds) ++ rest)))
        ≡ int_of sign (value_from 0 (d ∷ ds))
  unfolding atoi
  atoi-int_of ws sign spaces =
      ap signed (skip_white-spaces ws _ spaces ∙ no_space_left sign) ∙ signed-digits sign
