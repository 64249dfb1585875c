-- ===== src/Palloc/Tests.antt =====
-- Concrete runs of CS330_projects/proj1/threads/palloc.c.
use cs_courses.Base.{
  ℕ, zero, suc, ◌+◌, ◌≡◌, ◌≤◌, ◌<◌, refl, Bool, true, false, List, [], ◌∷◌, ◌==◌, if◌then◌else◌,
  arith,
}
use cs_courses.Bitmap.{Run, ok, panic, ◌>>=◌, Bitmap, bitmap_flip, is_set}
use cs_courses.Bitmap.Single.{flip-is_set}
use cs_courses.Palloc.{
  put_map, Memory, Flags, palloc_init, palloc_get_multiple, palloc_free_multiple,
}
use cs_courses.Palloc.Blocks.{
  IsLaid, HasMaps, is_used, size_of, IsTaken, Got, palloc_get_multiple-Got,
}
use cs_courses.Palloc.Free.{IsRestored, palloc_free_multiple-IsRestored}
use cs_courses.Palloc.Init.{palloc_init-IsLaid}

-- Two pools of eight pages, with the first three words of the bitmaps' bits given.
abbrev pools : ℕ → ℕ → Memory
pools kernel user = record {
  kernel_pool = record {
    used_map = record { bit_cnt = 8; bits = λ w. if w == 0 then kernel else 0 };
    map_address = 4096;
    base = 8192;
  };
  user_pool = record {
    used_map = record { bit_cnt = 8; bits = λ w. if w == 0 then user else 0 };
    map_address = 45056;
    base = 49152;
  };
  byte = λ a. 7;
}

-- Page 0 of the kernel pool is in use.
abbrev before : Memory
before = pools 1 0

abbrev after : Memory
after = pools 7 0

abbrev plain_flags : Flags
plain_flags = record { user = false; zeroed = true; asserted = false }

before-IsLaid : IsLaid before
before-IsLaid = record {
  kernel_page = refl;
  user_page = refl;
  kernel_some = omega arith;
  apart = omega arith;
}

before-HasMaps : HasMaps before
before-HasMaps = record {
  kernel_front = omega arith;
  user_front = omega arith;
  behind = omega arith;
}

abbrev answer : Run (ℕ × Memory) → List ℕ
answer (ok (a, m)) = a ∷ m.byte a ∷ m.byte (a + 8192) ∷ []
answer panic = []

get_run : answer (palloc_get_multiple plain_flags 2 before) ≡ (12288 ∷ 0 ∷ 7 ∷ [])
unfolding palloc_get_multiple
get_run = refl

full_run : (palloc_get_multiple plain_flags 8 before >>= (λ r. ok r.0)) ≡ ok 0
unfolding palloc_get_multiple
full_run = refl

-- A second free of the same pages fails the assertion.
twice_run : (palloc_free_multiple 12288 2 after >>= (λ m. palloc_free_multiple 12288 2 m)) ≡ panic
unfolding palloc_free_multiple
twice_run = refl

palloc_get_multiple-Got_example :
    Got plain_flags 2 before (palloc_get_multiple plain_flags 2 before)
palloc_get_multiple-Got_example =
    palloc_get_multiple-Got plain_flags 2 before before-IsLaid before-HasMaps (omega arith)

palloc_init-IsLaid_example :
    (m : Memory) × (palloc_init 4096 16 100 (λ w. 0) (λ w. 0) (λ a. 0) ≡ ok m)
    × IsLaid m
    × HasMaps m
    × ((user : Bool) (j : ℕ) → j < size_of m user → is_used m user j ≡ false)
palloc_init-IsLaid_example =
    palloc_init-IsLaid 4096 16 100 (λ w. 0) (λ w. 0) (λ a. 0) (omega arith) refl (omega arith)
      (omega arith)

-- Pages 1 and 2 of the kernel pool, taken in the bitmap.
abbrev first_map : Bitmap
first_map = let p = before.kernel_pool in p.used_map

abbrev taken_map : Bitmap
taken_map = bitmap_flip (bitmap_flip first_map 1) 2

abbrev taken : Memory
taken = put_map false taken_map before

taken-is_set :
    (j : ℕ)
    → is_set taken_map j ≡ (if j == 2 then true else if j == 1 then true else is_set first_map j)
unfolding is_set
taken-is_set j = ground (
  arith,
  flip-is_set (bitmap_flip first_map 1) 2 j,
  flip-is_set first_map 1 2,
  flip-is_set first_map 1 j,
)

first-is_set : (j : ℕ) → 1 ≤ j → j < 3 → is_set first_map j ≡ false
unfolding is_set
first-is_set zero low high = absurd (omega arith)
first-is_set (suc zero) low high = refl
first-is_set (suc (suc zero)) low high = refl
first-is_set (suc (suc (suc j))) low high = absurd (omega arith)

size_run : size_of taken false ≡ 8
unfolding bitmap_flip
size_run = refl

before-IsTaken : IsTaken before false 1 2 taken
before-IsTaken = record {
  inside = omega arith;
  was_free = first-is_set;
  in_use = λ j low high. ground (arith, taken-is_set j);
  below = λ j low. ground (arith, taken-is_set j);
  above = λ j high. ground (arith, taken-is_set j);
  size = size_run;
  place = refl;
  other = refl;
}

palloc_free_multiple-IsRestored_example :
    (m'' : Memory) × (palloc_free_multiple 12288 2 taken ≡ ok m'') × IsRestored before m''
palloc_free_multiple-IsRestored_example =
    palloc_free_multiple-IsRestored false before taken 1 2 before-IsLaid (omega arith)
      before-IsTaken
