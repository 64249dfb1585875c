-- ===== src/Palloc/Free.antt =====
-- palloc_free_multiple of CS330_projects/proj1/threads/palloc.c on a block that palloc_get_multiple has handed out.
use cs_courses.Base.{
  ℕ, ◌+◌, ◌-◌, ◌*◌, ◌%◌, ◌≤◌, ◌<◌, ◌≡◌, refl, sym, ap, ◌∙◌, Bool, true, false, not, ◌&&◌, leb, ltb,
  ◌==◌, Bool-cases, inl, inr, arith,
}
use cs_courses.Bitmap.{ok, ◌>>=◌, Bitmap, is_set, bitmap_all}
use cs_courses.Bitmap.Single.{IsFilled}
use cs_courses.Bitmap.Range.{Contains, bitmap_contains-Contains, bitmap_set_multiple-IsFilled}
use cs_courses.Palloc.{
  page_size, pg_no, Pool, Memory, set_bytes, put_map, free_in, palloc_free_multiple,
}
use cs_courses.Palloc.Blocks.{IsLaid, is_used, base_of, size_of, IsTaken, map_of, with_bytes}

bitmap_all-used :
    (b : Bitmap) (start cnt : ℕ)
    → start + cnt ≤ b.bit_cnt
    → ((j : ℕ) → start ≤ j → j < start + cnt → is_set b j ≡ true)
    → bitmap_all b start cnt ≡ ok true
unfolding bitmap_all
bitmap_all-used b start cnt h used =
    let (r, run, answer) = bitmap_contains-Contains b start cnt false h in
    ap (λ q. q >>= (λ v. ok (not v))) (run ∙ ap ok (no_clear r answer))
  where
    no_clear : (r : Bool) → Contains b false start cnt r → r ≡ false
    no_clear false answer = refl
    no_clear true (j, low, high, clear) = ground (arith, clear, used j low high)

free_in-IsFilled :
    (user : Bool) (m : Memory) (i page_cnt pages : ℕ)
    → pg_no pages - pg_no (base_of m user) ≡ i
    → i + page_cnt ≤ size_of m user
    → ((j : ℕ) → i ≤ j → j < i + page_cnt → is_used m user j ≡ true)
    → (map : Bitmap) × (bytes : ℕ → ℕ) × (free_in user pages page_cnt m
        ≡ ok (put_map user map (with_bytes m bytes)))
      × IsFilled (map_of m user) i page_cnt false map
unfolding free_in
free_in-IsFilled user m i page_cnt pages e inside used =
    let all = bitmap_all-used (map_of m user) i page_cnt inside used in
    let (map, run, filled) = bitmap_set_multiple-IsFilled (map_of m user) i page_cnt false inside in
    (
      map,
      set_bytes pages 0xcc (page_size * page_cnt) m.byte,
      rw (free_in, e, all, run) refl,
      filled,
    )

-- Taking a block and clearing it again.
cleared-taken :
    (user : Bool) (m m' : Memory) (i page_cnt : ℕ) (map : Bitmap)
    → IsTaken m user i page_cnt m'
    → IsFilled (map_of m' user) i page_cnt false map
    → (j : ℕ) → is_set map j ≡ is_used m user j
cleared-taken user m m' i page_cnt map taken filled j = elim (Bool-cases (ltb j i)) [
  | inl low ↦ filled.before j (ground arith) ∙ taken.below j (ground arith)
  | inr high ↦ elim (Bool-cases (ltb j (i + page_cnt))) [
    | inl within ↦
        filled.inside j (ground arith) (ground arith)
        ∙ sym (taken.was_free j (ground arith) (ground arith))
    | inr behind ↦ filled.behind j (ground arith) ∙ taken.above j (ground arith)
  ]
]

-- The pools of m' have the pages in use that those of m have, and lie where they lie.
pub record IsRestored (m m' : Memory) : Type 0 where
  pub used : (user : Bool) (j : ℕ) → is_used m' user j ≡ is_used m user j
  pub size : (user : Bool) → size_of m' user ≡ size_of m user
  pub place : (user : Bool) → base_of m' user ≡ base_of m user

cleared-IsRestored :
    (user : Bool) (m m' : Memory) (i page_cnt : ℕ) (map : Bitmap) (bytes : ℕ → ℕ)
    → IsTaken m user i page_cnt m'
    → IsFilled (map_of m' user) i page_cnt false map
    → IsRestored m (put_map user map (with_bytes m' bytes))
cleared-IsRestored true m m' i page_cnt map bytes taken filled = record {
  used = λ u j.
      elim u as (λ u. is_used (put_map true map (with_bytes m' bytes)) u j ≡ is_used m u j) [
        | true ↦ cleared-taken true m m' i page_cnt map taken filled j
        | false ↦ ap (λ (p : Pool). is_set p.used_map j) taken.other
      ];
  size = λ u. elim u as (λ u. size_of (put_map true map (with_bytes m' bytes)) u ≡ size_of m u) [
    | true ↦ filled.size ∙ taken.size
    | false ↦ ap (λ (p : Pool). (let b = p.used_map in b.bit_cnt)) taken.other
  ];
  place = λ u. elim u as (λ u. base_of (put_map true map (with_bytes m' bytes)) u ≡ base_of m u) [
    | true ↦ taken.place
    | false ↦ ap (λ (p : Pool). p.base) taken.other
  ];
}
cleared-IsRestored false m m' i page_cnt map bytes taken filled = record {
  used = λ u j.
      elim u as (λ u. is_used (put_map false map (with_bytes m' bytes)) u j ≡ is_used m u j) [
        | false ↦ cleared-taken false m m' i page_cnt map taken filled j
        | true ↦ ap (λ (p : Pool). is_set p.used_map j) taken.other
      ];
  size = λ u. elim u as (λ u. size_of (put_map false map (with_bytes m' bytes)) u ≡ size_of m u) [
    | false ↦ filled.size ∙ taken.size
    | true ↦ ap (λ (p : Pool). (let b = p.used_map in b.bit_cnt)) taken.other
  ];
  place = λ u. elim u as (λ u. base_of (put_map false map (with_bytes m' bytes)) u ≡ base_of m u) [
    | false ↦ taken.place
    | true ↦ ap (λ (p : Pool). p.base) taken.other
  ];
}

base_of-page : (m : Memory) (user : Bool) → IsLaid m → base_of m user % 4096 ≡ 0
base_of-page m true laid = laid.user_page
base_of-page m false laid = laid.kernel_page

kernel-below :
    (m : Memory) → IsLaid m → pg_no (base_of m false) + size_of m false ≤ pg_no (base_of m true)
kernel-below m laid = omega (arith, laid.apart, laid.kernel_page, laid.user_page)

&&-false : (c : Bool) → (c && false) ≡ false
&&-false true = refl
&&-false false = refl

-- Which pool an address inside a taken block is found in.
palloc_free_multiple-free_in :
    (user : Bool) (m m' : Memory) (i page_cnt pages : ℕ)
    → IsLaid m
    → 0 < page_cnt
    → IsTaken m user i page_cnt m'
    → pages ≡ base_of m user + 4096 * i
    → palloc_free_multiple pages page_cnt m' ≡ free_in user pages page_cnt m'
unfolding palloc_free_multiple
palloc_free_multiple-free_in false m m' i page_cnt pages laid h taken e =
    let aligned : (pages % 4096 == 0) ≡ true = ground (arith, laid.kernel_page) in
    let some_page : (pages == 0) ≡ false = ground (arith, laid.kernel_some) in
    let some_cnt : (page_cnt == 0) ≡ false = ground arith in
    let low : leb (pg_no (base_of m' false)) (pg_no pages) ≡ true = ground (arith, taken.place) in
    let high : ltb (pg_no pages) (pg_no (base_of m' false) + size_of m' false) ≡ true =
      ground (arith, laid.kernel_page, taken.place, taken.size, taken.inside) in
    rw (palloc_free_multiple, aligned, some_page, some_cnt, low, high) refl
palloc_free_multiple-free_in true m m' i page_cnt pages laid h taken e =
    let aligned : (pages % 4096 == 0) ≡ true = ground (arith, laid.user_page) in
    let some_page : (pages == 0) ≡ false = ground (arith, laid.kernel_some, laid.apart) in
    let some_cnt : (page_cnt == 0) ≡ false = ground arith in
    let size' : size_of m' false ≡ size_of m false =
      ap (λ (p : Pool). (let b = p.used_map in b.bit_cnt)) taken.other in
    let base' : base_of m' false ≡ base_of m false = ap (λ (p : Pool). p.base) taken.other in
    let beyond : ltb (pg_no pages) (pg_no (base_of m' false) + size_of m' false) ≡ false =
      ground (arith, kernel-below m laid, size', base') in
    let low : leb (pg_no (base_of m' true)) (pg_no pages) ≡ true = ground (arith, taken.place) in
    let high : ltb (pg_no pages) (pg_no (base_of m' true) + size_of m' true) ≡ true =
      ground (arith, laid.user_page, taken.place, taken.size, taken.inside) in
    rw (palloc_free_multiple, aligned, some_page, some_cnt, beyond, low, high)
      (rw (&&-false (leb (pg_no (base_of m' false)) (pg_no pages))) refl)

-- A block of at least one page that has been taken can be freed: palloc_free_multiple of its address and size ends
-- without a failed assertion, in the pool that it was taken from, and the pages in use are again the
-- ones that were before the block was taken.
pub palloc_free_multiple-IsRestored :
    (user : Bool) (m m' : Memory) (i page_cnt : ℕ)
    → IsLaid m
    → 0 < page_cnt
    → IsTaken m user i page_cnt m'
    → (m'' : Memory) × (palloc_free_multiple (base_of m user + 4096 * i) page_cnt m' ≡ ok m'')
      × IsRestored m m''
palloc_free_multiple-IsRestored user m m' i page_cnt laid h taken =
    let pages = base_of m user + 4096 * i in
    let page_idx : pg_no pages - pg_no (base_of m' user) ≡ i =
      omega (arith, base_of-page m user laid, taken.place) in
    let (map, bytes, run, filled) =
      free_in-IsFilled user m' i page_cnt pages page_idx (omega (arith, taken.inside, taken.size))
        taken.in_use in
    (
      put_map user map (with_bytes m' bytes),
      palloc_free_multiple-free_in user m m' i page_cnt pages laid h taken refl ∙ run,
      cleared-IsRestored user m m' i page_cnt map bytes taken filled,
    )
