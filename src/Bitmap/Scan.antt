-- ===== src/Bitmap/Scan.antt =====
-- bitmap_scan and bitmap_scan_and_flip of CS330_projects/proj1/lib/kernel/bitmap.c, with which the kernel hands out
-- pages and sectors.
use cs_courses.Base.{
  ℕ, zero, suc, ◌+◌, ◌-◌, ◌≤◌, ◌<◌, ◌≡◌, refl, sym, ap, ◌∙◌, Bool, true, false, not, Option, none,
  some, leb, ==→eq, ◌==◌, ◌⊎◌, Bool-cases, inl, inr, arith,
}
use mathlib.Core.Path.{subst}
use cs_courses.Bitmap.{
  ok, ◌>>=◌, Bitmap, is_set, bitmap_contains, scan_loop, bitmap_scan, bitmap_scan_and_flip,
}
use cs_courses.Bitmap.Single.{IsFilled}
use cs_courses.Bitmap.Range.{Contains, bitmap_contains-Contains, bitmap_set_multiple-IsFilled}

-- The range of cnt bits from i on has a bit of the other value.
abbrev pub IsBroken : Bitmap → ℕ → Bool → ℕ → Type 0
IsBroken b cnt value i = Contains b (not value) i cnt true

not-not : (v : Bool) → not (not v) ≡ v
not-not true = refl
not-not false = refl

-- What a scan of `n` starting indexes from `start` on may answer.
abbrev pub Answer : Bitmap → ℕ → Bool → ℕ → ℕ → Option ℕ → Type 0
Answer b cnt value start n none = (i : ℕ) → start ≤ i → i < start + n → IsBroken b cnt value i
Answer b cnt value start n (some i) =
    (start ≤ i)
    × (i < start + n)
    × ((j : ℕ) → i ≤ j → j < i + cnt → is_set b j ≡ value)
    × ((e : ℕ) → start ≤ e → e < i → IsBroken b cnt value e)

scan_loop-Answer :
    (b : Bitmap) (cnt : ℕ) (value : Bool) (n i : ℕ)
    → (n ≡ 0) ⊎ (i + n + cnt ≤ suc b.bit_cnt)
    → (r : Option ℕ) × (scan_loop b cnt value n i ≡ ok r) × Answer b cnt value i n r
unfolding scan_loop
scan_loop-Answer b cnt value zero i h = (none, refl, λ e low high. absurd (omega arith))
scan_loop-Answer b cnt value (suc n) i h =
    let (v, run, answer) = bitmap_contains-Contains b i cnt (not value) (ground arith) in
    let more : (n ≡ 0) ⊎ (i + 1 + n + cnt ≤ suc b.bit_cnt) = ground arith in
    step v run answer (scan_loop-Answer b cnt value n (i + 1) more)
  where
    here : (e : ℕ) → IsBroken b cnt value i → (e == i) ≡ true → IsBroken b cnt value e
    here e broken same_index = subst (IsBroken b cnt value) (sym (==→eq e i same_index)) broken

    earlier :
        (last : ℕ)
        → IsBroken b cnt value i
        → ((e : ℕ) → i + 1 ≤ e → e < last → IsBroken b cnt value e)
        → (e : ℕ) → i ≤ e
        → e < last
        → IsBroken b cnt value e
    earlier last broken rest e low high = elim (Bool-cases (e == i)) [
      | inl same_index ↦ here e broken same_index
      | inr other ↦ rest e (ground arith) high
    ]

    step :
        (v : Bool)
        → bitmap_contains b i cnt (not value) ≡ ok v
        → Contains b (not value) i cnt v
        → (r : Option ℕ) × (scan_loop b cnt value n (i + 1) ≡ ok r) × Answer b cnt value (i + 1) n r
        → (r : Option ℕ) × (scan_loop b cnt value (suc n) i ≡ ok r) × Answer b cnt value i (suc n) r
    step false run answer rest = (
      some i,
      rw run refl,
      (
        omega arith,
        omega arith,
        (λ j low high. answer j low high ∙ not-not value),
        (λ e low high. absurd (omega arith)),
      ),
    )
    step true run answer (none, run', rest) =
        (none, rw run run', λ e low high. earlier (i + 1 + n) answer rest e low (omega arith))
    step true run answer (some k, run', (low, high, found, first)) =
        (some k, rw run run', (omega arith, omega arith, found, earlier k answer first))

-- What bitmap_scan answers with, in terms of the bitmap.
abbrev pub Scanned : Bitmap → ℕ → ℕ → Bool → Option ℕ → Type 0
Scanned b start cnt value none = (i : ℕ) → start ≤ i → i + cnt ≤ b.bit_cnt → IsBroken b cnt value i
Scanned b start cnt value (some i) =
    (start ≤ i)
    × (i + cnt ≤ b.bit_cnt)
    × ((j : ℕ) → i ≤ j → j < i + cnt → is_set b j ≡ value)
    × ((e : ℕ) → start ≤ e → e < i → IsBroken b cnt value e)

Scanned-Answer :
    (b : Bitmap) (start cnt : ℕ) (value : Bool) (r : Option ℕ)
    → cnt ≤ b.bit_cnt
    → Answer b cnt value start (suc (b.bit_cnt - cnt) - start) r
    → Scanned b start cnt value r
Scanned-Answer b start cnt value none fits a = λ i low high. a i low (omega arith)
Scanned-Answer b start cnt value (some i) fits (low, high, found, first) =
    (low, omega arith, found, first)

pub bitmap_scan-Scanned :
    (b : Bitmap) (start cnt : ℕ) (value : Bool)
    → start ≤ b.bit_cnt
    → (r : Option ℕ) × (bitmap_scan b start cnt value ≡ ok r) × Scanned b start cnt value r
unfolding bitmap_scan
bitmap_scan-Scanned b start cnt value h =
    let inside : leb start b.bit_cnt ≡ true = ground arith in
    elim (Bool-cases (leb cnt b.bit_cnt)) [
      | inl fits ↦
          let n = suc (b.bit_cnt - cnt) - start in
          let (r, run, answer) = scan_loop-Answer b cnt value n start (ground arith) in
          (r, rw (inside, fits) run, Scanned-Answer b start cnt value r (ground arith) answer)
      | inr large ↦ (none, rw (inside, large) refl, λ i low high. absurd (ground arith))
    ]

-- What bitmap_scan_and_flip answers with, and what it leaves.
abbrev pub Claimed : Bitmap → ℕ → ℕ → Bool → Option ℕ → Bitmap → Type 0
Claimed b start cnt value none b' = Scanned b start cnt value none × (b' ≡ b)
Claimed b start cnt value (some i) b' =
    Scanned b start cnt value (some i) × IsFilled b i cnt (not value) b'

-- From a start inside the bitmap or at its end, bitmap_scan_and_flip ends without a failed assertion. Either it
-- answers with the lowest index from the start on at which all the bits of the range have the value, and
-- has set exactly these to the other value; or every range from the start on that lies inside the
-- bitmap has a bit of the other value, the answer is BITMAP_ERROR and the bitmap is unchanged.
pub bitmap_scan_and_flip-Claimed :
    (b : Bitmap) (start cnt : ℕ) (value : Bool)
    → start ≤ b.bit_cnt
    → (r : Option ℕ) × (b' : Bitmap) × (bitmap_scan_and_flip b start cnt value ≡ ok (r, b'))
      × Claimed b start cnt value r b'
unfolding bitmap_scan_and_flip
bitmap_scan_and_flip-Claimed b start cnt value h =
    let (r, run, answer) = bitmap_scan-Scanned b start cnt value h in step r run answer
  where
    step :
        (r : Option ℕ)
        → bitmap_scan b start cnt value ≡ ok r
        → Scanned b start cnt value r
        → (r : Option ℕ) × (b' : Bitmap) × (bitmap_scan_and_flip b start cnt value ≡ ok (r, b'))
          × Claimed b start cnt value r b'
    step none run answer = (none, b, rw run refl, (answer, refl))
    step (some i) run answer =
        let (b', run', filled) = bitmap_set_multiple-IsFilled b i cnt (not value) answer.1 in
        (some i, b', rw run (ap (λ q. q >>= (λ b'. ok (some i, b'))) run'), (answer, filled))
