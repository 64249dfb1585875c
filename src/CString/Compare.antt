-- ===== src/CString/Compare.antt =====
-- memcmp and strcmp of CS330_projects/proj1/lib/string.c.
use cs_courses.Base.{
  ℕ, zero, suc, ◌+◌, ◌<◌, ◌≡◌, refl, ◌≢◌, ltb, ◌==◌, if◌then◌else◌, arith, ◌⊎◌, inl, inr,
  Bool-cases, List, [], ◌∷◌, length, ℤ, pos, negsuc,
}
use cs_courses.CString.Bytes.{Memory, ok, IsStr}
use cs_courses.CString.{cmp_loop, memcmp, str_loop, strcmp, sign_of}

-- The bytes of a block.
abbrev pub read : ℕ → ℕ → Memory → List ℕ
read zero a m = []
read (suc n) a m = m a ∷ read n (a + 1) m

-- The outcome of a comparison: equal blocks, or the order of the first bytes that differ.
abbrev Compared : ℕ → ℕ → ℕ → Memory → ℤ → Type 0
Compared size a b m r =
    ((r ≡ pos 0) × (read size a m ≡ read size b m))
    ⊎ ((i : ℕ) × (i < size)
        × (read i a m ≡ read i b m)
        × (m (a + i) ≢ m (b + i))
        × (r ≡ sign_of (m (a + i)) (m (b + i))))

cmp_loop-Compared : (size a b : ℕ) (m : Memory) → Compared size a b m (cmp_loop size a b m)
unfolding cmp_loop
cmp_loop-Compared zero a b m = inl (refl, refl)
cmp_loop-Compared (suc n) a b m = elim (Bool-cases (m a == m b)) [
  | inl same ↦ rw same (elim (cmp_loop-Compared n (a + 1) (b + 1) m) [
    | inl (e, all) ↦ inl (e, ground arith)
    | inr (i, h, front, differ, e) ↦
        let p : a + 1 + i ≡ a + suc i = omega arith in
        let q : b + 1 + i ≡ b + suc i = omega arith in
        inr (suc i, omega arith, ground arith, rw (p, q) at differ, rw (p, q) at e)
  ])
  | inr other ↦
      let p : a + 0 ≡ a = omega arith in
      let q : b + 0 ≡ b = omega arith in
      rw other (inr (0, omega arith, refl, rw (p, q) (ground arith), rw (p, q) refl))
]

-- memcmp returns 0 for equal blocks, and otherwise +1 or -1 by the first bytes that differ, compared
-- as unsigned numbers.
memcmp-Compared :
    (size a b : ℕ) (m : Memory)
    → a ≢ 0
    → b ≢ 0
    → (r : ℤ) × (memcmp a b size m ≡ ok r) × Compared size a b m r
unfolding memcmp
memcmp-Compared size a b m la lb = (cmp_loop size a b m, ground arith, cmp_loop-Compared size a b m)

-- Dictionary order of character lists, as strcmp's result.
abbrev order_of : List ℕ → List ℕ → ℤ
order_of [] [] = pos 0
order_of [] (y ∷ ys) = negsuc 0
order_of (x ∷ xs) [] = pos 1
order_of (x ∷ xs) (y ∷ ys) = if x == y then order_of xs ys else if ltb x y then negsuc 0 else pos 1

str_loop-order_of :
    (k a b : ℕ) (m : Memory) (xs ys : List ℕ)
    → IsStr m a xs
    → IsStr m b ys
    → length xs < k
    → str_loop k a b m ≡ ok (order_of xs ys)
unfolding str_loop
str_loop-order_of zero a b m xs ys is js fuel = absurd (omega arith)
str_loop-order_of (suc k) a b m [] [] is js fuel = ground arith
str_loop-order_of (suc k) a b m [] (y ∷ ys) is js fuel = ground arith
str_loop-order_of (suc k) a b m (x ∷ xs) [] is js fuel = ground arith
str_loop-order_of (suc k) a b m (x ∷ xs) (y ∷ ys) is js fuel =
    ground (arith, str_loop-order_of k (a + 1) (b + 1) m xs ys is.2)

-- strcmp of two strings is their dictionary order, with more fuel than the first has characters.
strcmp-order_of :
    (fuel a b : ℕ) (m : Memory) (xs ys : List ℕ)
    → IsStr m a xs
    → IsStr m b ys
    → a ≢ 0
    → b ≢ 0
    → length xs < fuel
    → strcmp fuel a b m ≡ ok (order_of xs ys)
unfolding strcmp
strcmp-order_of fuel a b m xs ys is js la lb enough =
    ground (arith, str_loop-order_of fuel a b m xs ys is js)
