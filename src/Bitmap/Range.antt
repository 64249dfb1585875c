-- ===== src/Bitmap/Range.antt =====
-- Ranges of bits of CS330_projects/proj1/lib/kernel/bitmap.c: bitmap_set_multiple, bitmap_contains and bitmap_count.
use cs_courses.Base.{
  ℕ, zero, suc, ◌+◌, ◌≤◌, ◌<◌, ◌≡◌, refl, sym, ap, ◌∙◌, Bool, true, false, not, leb, ltb, ==→eq,
  ◌==◌, if◌then◌else◌, Bool-cases, inl, inr, arith,
}
use cs_courses.Bitmap.{
  Run, ok, ◌>>=◌, Bitmap, in_range, same, bitmap_test, is_set, set_loop, bitmap_set_multiple,
  count_loop, bitmap_count, contains_loop, bitmap_contains,
}
use cs_courses.Bitmap.Single.{IsFilled, bitmap_set-IsFilled, bitmap_test-within}

set_loop-IsFilled :
    (value : Bool) (n idx : ℕ) (b : Bitmap)
    → idx + n ≤ b.bit_cnt
    → (b' : Bitmap) × (set_loop value n idx b ≡ ok b') × IsFilled b idx n value b'
unfolding set_loop
set_loop-IsFilled value zero idx b h = (
  b,
  refl,
  record {
    size = refl;
    inside = λ j low high. absurd (omega arith);
    before = λ j low. refl;
    behind = λ j low. refl;
  },
)
set_loop-IsFilled value (suc n) idx b h =
    let (b1, run, first) = bitmap_set-IsFilled b idx value (omega arith) in
    let (b2, run', rest) = set_loop-IsFilled value n (idx + 1) b1 (omega (arith, first.size)) in
    (
      b2,
      rw run run',
      record {
        size = rest.size ∙ first.size;
        inside = λ j low high. elim (Bool-cases (ltb j (idx + 1))) [
          | inl one ↦ rest.before j (ground arith) ∙ first.inside j low (ground arith)
          | inr more ↦ rest.inside j (ground arith) (omega arith)
        ];
        before = λ j low. rest.before j (omega arith) ∙ first.before j low;
        behind = λ j high. rest.behind j (omega arith) ∙ first.behind j (omega arith);
      },
    )

pub in_range-within :
    {A : Type 0} (b : Bitmap) (start cnt : ℕ) (r : Run A)
    → start + cnt ≤ b.bit_cnt
    → in_range b start cnt r ≡ r
in_range-within b start cnt r h =
    let low : leb start b.bit_cnt ≡ true = ground arith in
    let high : leb (start + cnt) b.bit_cnt ≡ true = ground arith in rw (low, high) refl

pub bitmap_set_multiple-IsFilled :
    (b : Bitmap) (start cnt : ℕ) (value : Bool)
    → start + cnt ≤ b.bit_cnt
    → (b' : Bitmap) × (bitmap_set_multiple b start cnt value ≡ ok b')
      × IsFilled b start cnt value b'
unfolding bitmap_set_multiple
bitmap_set_multiple-IsFilled b start cnt value h =
    let (b', run, done) = set_loop-IsFilled value cnt start b h in
    (b', in_range-within b start cnt (set_loop value cnt start b) h ∙ run, done)

-- Whether a range has a bit of the value.
abbrev pub Contains : Bitmap → Bool → ℕ → ℕ → Bool → Type 0
Contains b value start cnt true = (j : ℕ) × (start ≤ j) × (j < start + cnt) × (is_set b j ≡ value)
Contains b value start cnt false = (j : ℕ) → start ≤ j → j < start + cnt → is_set b j ≡ not value

same-true : (u v : Bool) → same u v ≡ true → u ≡ v
same-true true v h = sym h
same-true false true h = ground arith
same-true false false h = refl

same-false : (u v : Bool) → same u v ≡ false → u ≡ not v
same-false true true h = ground arith
same-false true false h = refl
same-false false true h = refl
same-false false false h = ground arith

contains_loop-next :
    (b : Bitmap) (value : Bool) (n idx : ℕ) (v : Bool)
    → bitmap_test b idx ≡ ok v
    → contains_loop b value (suc n) idx
      ≡ (if same v value then ok true else contains_loop b value n (idx + 1))
unfolding contains_loop
contains_loop-next b value n idx v here =
    rw (contains_loop, here)
      (elim (same v value)
        as (λ s.
          elim s [ true ↦ ok true | false ↦ contains_loop b value n (idx + 1) ]
          ≡ (if s then ok true else contains_loop b value n (idx + 1))) [
            | true ↦ refl
            | false ↦ refl
          ])

contains_loop-Contains :
    (b : Bitmap) (value : Bool) (n idx : ℕ)
    → idx + n ≤ b.bit_cnt
    → (r : Bool) × (contains_loop b value n idx ≡ ok r) × Contains b value idx n r
unfolding contains_loop
contains_loop-Contains b value zero idx h = (false, refl, λ j low high. absurd (omega arith))
contains_loop-Contains b value (suc n) idx h =
    let next =
      contains_loop-next b value n idx (is_set b idx) (bitmap_test-within b idx (omega arith)) in
    elim (Bool-cases (same (is_set b idx) value)) [
      | inl equal ↦ (
        true,
        next ∙ rw equal refl,
        (idx, omega arith, omega arith, same-true (is_set b idx) value equal),
      )
      | inr differs ↦ step differs next (contains_loop-Contains b value n (idx + 1) (omega arith))
    ]
  where
    step :
        same (is_set b idx) value ≡ false
        → contains_loop b value (suc n) idx
          ≡ (if same (is_set b idx) value then ok true else contains_loop b value n (idx + 1))
        → (r : Bool) × (contains_loop b value n (idx + 1) ≡ ok r) × Contains b value (idx + 1) n r
        → (r : Bool) × (contains_loop b value (suc n) idx ≡ ok r) × Contains b value idx (suc n) r
    step differs next (true, run, (j, low, high, e)) =
        (true, next ∙ rw differs run, (j, omega arith, omega arith, e))
    step differs next (false, run, others) = (
      false,
      next ∙ rw differs run,
      λ j low high. elim (Bool-cases (j == idx)) [
        | inl same_bit ↦
            ap (is_set b) (==→eq j idx same_bit) ∙ same-false (is_set b idx) value differs
        | inr other ↦ others j (ground arith) (omega arith)
      ],
    )

-- bitmap_contains on a range inside the bitmap answers, and its answer is whether a bit of the range has
-- the value.
pub bitmap_contains-Contains :
    (b : Bitmap) (start cnt : ℕ) (value : Bool)
    → start + cnt ≤ b.bit_cnt
    → (r : Bool) × (bitmap_contains b start cnt value ≡ ok r) × Contains b value start cnt r
unfolding bitmap_contains
bitmap_contains-Contains b start cnt value h =
    let (r, run, answer) = contains_loop-Contains b value cnt start h in
    (r, in_range-within b start cnt (contains_loop b value cnt start) h ∙ run, answer)

-- How many bits of a range have the value: the reference for bitmap_count.
abbrev pub number_of : Bitmap → Bool → ℕ → ℕ → ℕ
number_of b value start zero = 0
number_of b value start (suc n) =
    (if same (is_set b start) value then 1 else 0) + number_of b value (start + 1) n

count_loop-number_of :
    (b : Bitmap) (value : Bool) (n idx value_cnt : ℕ)
    → idx + n ≤ b.bit_cnt
    → count_loop b value n idx value_cnt ≡ ok (value_cnt + number_of b value idx n)
unfolding count_loop
count_loop-number_of b value zero idx value_cnt h = ap ok (omega arith)
count_loop-number_of b value (suc n) idx value_cnt h =
    let next = if same (is_set b idx) value then value_cnt + 1 else value_cnt in
    ap
      (λ r. r >>= (λ v.
        count_loop b value n (idx + 1) (if same v value then value_cnt + 1 else value_cnt)))
      (bitmap_test-within b idx (omega arith))
    ∙ count_loop-number_of b value n (idx + 1) next (omega arith)
    ∙ ap ok (ground arith)

-- bitmap_count on a range inside the bitmap is the number of bits with the value, and the counts of
-- the two values together are the size of the range.
bitmap_count-number_of :
    (b : Bitmap) (start cnt : ℕ) (value : Bool)
    → start + cnt ≤ b.bit_cnt
    → (bitmap_count b start cnt value ≡ ok (number_of b value start cnt))
      × (number_of b true start cnt + number_of b false start cnt ≡ cnt)
unfolding bitmap_count
bitmap_count-number_of b start cnt value h = (
  in_range-within b start cnt (count_loop b value cnt start 0) h
      ∙ count_loop-number_of b value cnt start 0 h
      ∙ ap ok (omega arith),
  whole cnt start,
)
  where
    one : (v : Bool) → (if same v true then 1 else 0) + (if same v false then 1 else 0) ≡ 1
    one true = refl
    one false = refl

    whole : (n idx : ℕ) → number_of b true idx n + number_of b false idx n ≡ n
    whole zero idx = refl
    whole (suc n) idx = omega (arith, one (is_set b idx), whole n (idx + 1))
