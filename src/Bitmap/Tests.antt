-- ===== src/Bitmap/Tests.antt =====
-- Concrete runs of CS330_projects/proj1/lib/kernel/bitmap.c.
use cs_courses.Base.{
  ℕ, ◌+◌, ◌^◌, ◌≡◌, refl, false, not, Option, none, some, List, [], ◌∷◌, ◌==◌, if◌then◌else◌, arith,
}
use cs_courses.Bitmap.{
  Run, ok, panic, ◌>>=◌, Bitmap, bitmap_flip, bitmap_set, bitmap_test, bitmap_scan,
  bitmap_scan_and_flip, bitmap_create_in_buf,
}
use cs_courses.Bitmap.Single.{bitmap_test-bitmap_set}
use cs_courses.Bitmap.Scan.{Claimed, bitmap_scan_and_flip-Claimed}

-- Forty bits; 0, 1, 2, 5 and 33 are set.
abbrev forty : Bitmap
forty = record { bit_cnt = 40; bits = λ w. if w == 0 then 39 else if w == 1 then 2 else 0 }

abbrev words_of : Run (Option ℕ × Bitmap) → List ℕ
words_of (ok (some i, b)) = i ∷ b.bits 0 ∷ b.bits 1 ∷ []
words_of _ = []

-- Bits 30 to 32 are the first three clear ones behind 30, in two words.
claim_run :
    words_of (bitmap_scan_and_flip forty 30 3 false) ≡ (30 ∷ (39 + 2 ^ 30 + 2 ^ 31) ∷ 3 ∷ [])
unfolding bitmap_scan_and_flip
claim_run = refl

full_run : bitmap_scan forty 0 30 false ≡ ok none
unfolding bitmap_scan
full_run = refl

-- An empty group is found at the start, not at 0.
empty_run : bitmap_scan forty 5 0 false ≡ ok (some 5)
unfolding bitmap_scan
empty_run = refl

create_run : (bitmap_create_in_buf 3 (λ w. 15) 12 >>= (λ b. ok (b.bits 0))) ≡ ok 8
unfolding bitmap_create_in_buf
create_run = refl

outside_run : bitmap_test forty 40 ≡ panic
unfolding bitmap_test
outside_run = refl

bitmap_scan_and_flip-Claimed_example :
    (r : Option ℕ) × (b' : Bitmap) × (bitmap_scan_and_flip forty 1 3 false ≡ ok (r, b'))
    × Claimed forty 1 3 false r b'
bitmap_scan_and_flip-Claimed_example = bitmap_scan_and_flip-Claimed forty 1 3 false (omega arith)

bitmap_test-bitmap_set_example :
    ((bitmap_set forty 33 false >>= (λ b'. bitmap_test b' 1))
      ≡ (if 1 == 33 then ok false else bitmap_test forty 1))
    × (bitmap_test (bitmap_flip forty 33) 1
        ≡ (if 1 == 33 then bitmap_test forty 33 >>= (λ v. ok (not v)) else bitmap_test forty 1))
bitmap_test-bitmap_set_example = bitmap_test-bitmap_set forty 33 1 false (omega arith) (omega arith)
