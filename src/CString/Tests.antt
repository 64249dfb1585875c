-- ===== src/CString/Tests.antt =====
-- Concrete runs of CS330_projects/proj1/lib/string.c.
use cs_courses.Base.{
  ℕ, ◌+◌, ◌≡◌, refl, leb, if◌then◌else◌, arith, ◌⊎◌, List, [], ◌∷◌, none, some, ◌==◌,
}
use cs_courses.CString.Bytes.{Memory, Run, ok, panic, out_of_fuel, IsStr}
use cs_courses.CString.{memmove, strlen, strlcat, strcspn, strrchr, strstr, strtok_r, Token}
use cs_courses.CString.Copy.{copied, memmove-copied}
use cs_courses.CString.Text.{Inside, strlcat-append}

-- "ab" at 10, "abc" at 20 and ", a" at 30.
abbrev bytes : List ℕ → ℕ → Memory
bytes [] p a = 0
bytes (c ∷ cs) p a = if a == p then c else bytes cs (p + 1) a

abbrev sample : Memory
sample a =
    if leb 30 a
    then bytes (b',' ∷ b' ' ∷ b'a' ∷ []) 30 a
    else if leb 20 a
    then bytes (b'a' ∷ b'b' ∷ b'c' ∷ []) 20 a
    else bytes (b'a' ∷ b'b' ∷ []) 10 a

sample_short : IsStr sample 10 (b'a' ∷ b'b' ∷ [])
sample_short = (refl, omega arith, (refl, omega arith, refl))

sample_long : IsStr sample 20 (b'a' ∷ b'b' ∷ b'c' ∷ [])
sample_long = (refl, omega arith, (refl, omega arith, (refl, omega arith, refl)))

memmove-copied_example :
    (m' : Memory) × (memmove 21 20 3 sample ≡ ok (21, m'))
    × ((a : ℕ) → m' a ≡ copied 3 21 20 sample a)
memmove-copied_example = memmove-copied 21 20 3 sample (omega arith) (omega arith)

strlcat-append_example :
    (g : Memory) × (strlcat 4 10 20 5 sample ≡ ok (5, g))
    × IsStr g 10 (b'a' ∷ b'b' ∷ b'a' ∷ b'b' ∷ [])
    × ((a : ℕ) → Inside 10 5 a ⊎ (g a ≡ sample a))
strlcat-append_example =
    strlcat-append 4 10 20 5 sample (b'a' ∷ b'b' ∷ b'c' ∷ []) (b'a' ∷ b'b' ∷ []) sample_long
      sample_short (omega arith) (omega arith) (omega arith) (omega arith) (omega arith)
      (omega arith)

strstr_run : strstr 9 20 10 sample ≡ ok (some 20)
unfolding strstr strlen
strstr_run = refl

strcspn_run : strcspn 9 30 10 sample ≡ ok 2
unfolding strcspn
strcspn_run = refl

strrchr_run : strrchr 9 20 b'b' sample ≡ ok (some 21)
unfolding strrchr
strrchr_run = refl

abbrev ends_of : Run Token → List ℕ
ends_of (ok t) = elim t.token [ none ↦ t.saved ∷ [] | some p ↦ p ∷ t.saved ∷ t.memory 21 ∷ [] ]
ends_of panic = []
ends_of out_of_fuel = []

-- Broken at "b", the string "abc" gives the token "a" first.
strtok_r_run :
    ends_of (strtok_r 9 20 50 0 (λ a. if a == 50 then b'b' else sample a)) ≡ 20 ∷ 22 ∷ 0 ∷ []
unfolding strtok_r
strtok_r_run = refl
