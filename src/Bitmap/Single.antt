-- ===== src/Bitmap/Single.antt =====
-- Single bits of CS330_projects/proj1/lib/kernel/bitmap.c: what bitmap_test reads after bitmap_mark,
-- bitmap_reset, bitmap_set and bitmap_flip.
use Prim.Native.Nat.{bit_and, bit_or, bit_xor}
use native.Mathlib.Nat.{one-le-pow}
use cs_courses.Base.{
  ℕ, zero, suc, ◌+◌, ◌-◌, ◌*◌, ◌%◌, ◌^◌, ◌≤◌, ◌<◌, ◌≡◌, refl, sym, ap, ◌∙◌, Bool, true, false, not,
  ◌==◌, lt→ltb, ==→eq, if◌then◌else◌, Bool-cases, inl, inr, arith,
}
use cs_courses.Bitmap.{
  ok, Bitmap, elem_bits, elem_idx, bit_mask, complement, put_elem, bitmap_mark, bitmap_reset,
  bitmap_flip, bitmap_set, bitmap_test, is_set, ◌>>=◌,
}
use cs_courses.Base.Bits.{
  bit, bit_or-bit, bit_and-bit, bit_xor-bit, mask-bit, complement-bit, bit-lt, bit_and-mask,
  two_pow-lt,
}

abbrev pub digit : Bitmap → ℕ → ℕ
digit b j = bit (b.bits (elem_idx j)) (j % elem_bits)

digit-lt : (b : Bitmap) (j : ℕ) → digit b j < 2
digit-lt b j = bit-lt (j % elem_bits) (b.bits (elem_idx j))

product-zero : (d p : ℕ) → 1 ≤ p → (d * p == 0) ≡ (d == 0)
product-zero zero p h = ground arith
product-zero (suc d) p h = let some_left : 1 ≤ suc d * p = grind arith in ground (arith, some_left)

is_set-digit : (b : Bitmap) (j : ℕ) → is_set b j ≡ not (digit b j == 0)
unfolding is_set
is_set-digit b j =
    let k = j % elem_bits in
    ap (λ t. not (t == 0)) (bit_and-mask k (b.bits (elem_idx j)))
    ∙ ap not (product-zero (digit b j) (2 ^ k) (one-le-pow k 2 (omega arith)))

same_place : (i j : ℕ) → elem_idx i ≡ elem_idx j → ((i % elem_bits) == (j % elem_bits)) ≡ (j == i)
same_place i j e = ground arith

-- A change of one word that changes one digit of it.
put_elem-digit :
    (b : Bitmap) (i w d j : ℕ)
    → ((k : ℕ)
        → k < 32
        → bit w k ≡ (if (i % elem_bits) == k then d else bit (b.bits (elem_idx i)) k))
    → digit (put_elem b (elem_idx i) w) j ≡ (if j == i then d else digit b j)
put_elem-digit b i w d j new = elim (Bool-cases (elem_idx j == elem_idx i)) [
  | inl here ↦
      let e = sym (==→eq (elem_idx j) (elem_idx i) here) in
      rw here (
        new (j % elem_bits) (omega arith)
        ∙ rw (same_place i j e) (ap (λ x. if j == i then d else bit (b.bits x) (j % elem_bits)) e))
  | inr away ↦ let other : (j == i) ≡ false = ground (arith, away) in rw (away, other) refl
]

mark-digit : (b : Bitmap) (i j : ℕ) → digit (bitmap_mark b i) j ≡ (if j == i then 1 else digit b j)
unfolding bitmap_mark
mark-digit b i j =
    let w = b.bits (elem_idx i) in
    put_elem-digit b i (bit_or w (bit_mask i)) 1 j
      (λ k h. bit_or-bit k w (bit_mask i) ∙ ground (arith, mask-bit (i % elem_bits) k, bit-lt k w))

reset-digit :
    (b : Bitmap) (i j : ℕ) → digit (bitmap_reset b i) j ≡ (if j == i then 0 else digit b j)
unfolding bitmap_reset
reset-digit b i j =
    let w = b.bits (elem_idx i) in
    put_elem-digit b i (bit_and w (complement (bit_mask i))) 0 j (λ k h.
      bit_and-bit k w (complement (bit_mask i))
      ∙ ground (
        arith,
        complement-bit 32 (bit_mask i) k (two_pow-lt (i % elem_bits) 32 (omega arith)) h,
        mask-bit (i % elem_bits) k,
        bit-lt k w,
      ))

flip-digit :
    (b : Bitmap) (i j : ℕ)
    → digit (bitmap_flip b i) j ≡ (if j == i then 1 - digit b i else digit b j)
unfolding bitmap_flip
flip-digit b i j =
    let w = b.bits (elem_idx i) in
    put_elem-digit b i (bit_xor w (bit_mask i)) (1 - digit b i) j (λ k h.
      bit_xor-bit k w (bit_mask i)
      ∙ ground (
        arith,
        mask-bit (i % elem_bits) k,
        bit-lt k w,
        digit-lt b i,
        λ (e : ((i % elem_bits) == k) ≡ true). ap (bit w) (==→eq (i % elem_bits) k e),
      ))

-- The bits of b' are those of b with the bits between start and start + cnt at `value`.
pub record IsFilled (b : Bitmap) (start cnt : ℕ) (value : Bool) (b' : Bitmap) : Type 0 where
  pub size : b'.bit_cnt ≡ b.bit_cnt
  pub inside : (j : ℕ) → start ≤ j → j < start + cnt → is_set b' j ≡ value
  pub before : (j : ℕ) → j < start → is_set b' j ≡ is_set b j
  pub behind : (j : ℕ) → start + cnt ≤ j → is_set b' j ≡ is_set b j

set_at : Bool → Bitmap → ℕ → Bitmap
unfolding bitmap_mark bitmap_reset
set_at value b i = if value then bitmap_mark b i else bitmap_reset b i

set_at-is_set :
    (value : Bool) (b : Bitmap) (i j : ℕ)
    → is_set (set_at value b i) j ≡ (if j == i then value else is_set b j)
unfolding set_at
set_at-is_set true b i j =
    ground (arith, is_set-digit (bitmap_mark b i) j, mark-digit b i j, is_set-digit b j)
set_at-is_set false b i j =
    ground (arith, is_set-digit (bitmap_reset b i) j, reset-digit b i j, is_set-digit b j)

-- bitmap_set at an index inside the bitmap sets this bit and no other.
pub bitmap_set-IsFilled :
    (b : Bitmap) (i : ℕ) (value : Bool)
    → i < b.bit_cnt
    → (b' : Bitmap) × (bitmap_set b i value ≡ ok b') × IsFilled b i 1 value b'
unfolding set_at bitmap_set bitmap_mark bitmap_reset
bitmap_set-IsFilled b i value h = (
  set_at value b i,
  rw (lt→ltb i b.bit_cnt h) refl,
  record {
    size = size value;
    inside = λ j low high. ground (arith, set_at-is_set value b i j);
    before = λ j low. ground (arith, set_at-is_set value b i j);
    behind = λ j low. ground (arith, set_at-is_set value b i j);
  },
)
  where
    size : (v : Bool) → (let b' = set_at v b i in b'.bit_cnt) ≡ b.bit_cnt
    size true = refl
    size false = refl

pub flip-is_set :
    (b : Bitmap) (i j : ℕ)
    → is_set (bitmap_flip b i) j ≡ (if j == i then not (is_set b i) else is_set b j)
flip-is_set b i j = ground (
  arith,
  is_set-digit (bitmap_flip b i) j,
  flip-digit b i j,
  is_set-digit b i,
  is_set-digit b j,
  digit-lt b i,
)

pub bitmap_test-within : (b : Bitmap) (j : ℕ) → j < b.bit_cnt → bitmap_test b j ≡ ok (is_set b j)
unfolding bitmap_test
bitmap_test-within b j h = rw (lt→ltb j b.bit_cnt h) refl

-- For bits inside the bitmap: bitmap_test of a bit after bitmap_set of a bit reads the value that was
-- set where they are the same, and what it read before where they differ; after bitmap_flip it
-- reads the opposite of what it read before where they are the same, and the same where they differ.
pub bitmap_test-bitmap_set :
    (b : Bitmap) (i j : ℕ) (value : Bool)
    → i < b.bit_cnt
    → j < b.bit_cnt
    → ((bitmap_set b i value >>= (λ b'. bitmap_test b' j))
        ≡ (if j == i then ok value else bitmap_test b j))
      × (bitmap_test (bitmap_flip b i) j
          ≡ (if j == i then bitmap_test b i >>= (λ v. ok (not v)) else bitmap_test b j))
unfolding set_at bitmap_set bitmap_flip
bitmap_test-bitmap_set b i j value hi hj =
    let at_i = bitmap_test-within b i hi in
    let at_j = bitmap_test-within b j hj in
    let pick = λ (u v : Bool). if-ok (j == i) u v in
    (
      ap (λ r. r >>= (λ b'. bitmap_test b' j)) set_run
          ∙ bitmap_test-within (set_at value b i) j (within value)
          ∙ ap ok (set_at-is_set value b i j)
          ∙ pick value (is_set b j)
          ∙ ap (λ r. if j == i then ok value else r) (sym at_j),
      bitmap_test-within (bitmap_flip b i) j hj
          ∙ ap ok (flip-is_set b i j)
          ∙ pick (not (is_set b i)) (is_set b j)
          ∙ ap (λ r. if j == i then ok (not (is_set b i)) else r) (sym at_j)
          ∙ ap (λ r. if j == i then r >>= (λ v. ok (not v)) else bitmap_test b j) (sym at_i),
    )
  where
    if-ok : (c u v : Bool) → ok (if c then u else v) ≡ (if c then ok u else ok v)
    if-ok true u v = refl
    if-ok false u v = refl

    set_run : bitmap_set b i value ≡ ok (set_at value b i)
    set_run = rw (lt→ltb i b.bit_cnt hi) refl

    within : (v : Bool) → j < (let b' = set_at v b i in b'.bit_cnt)
    within true = hj
    within false = hj
