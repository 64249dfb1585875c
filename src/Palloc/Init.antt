-- ===== src/Palloc/Init.antt =====
-- palloc_init of CS330_projects/proj1/threads/palloc.c.
use cs_courses.Base.{
  ℕ, ◌+◌, ◌-◌, ◌*◌, ◌/◌, ◌%◌, ◌≤◌, ◌<◌, ◌≡◌, refl, Bool, true, false, leb, ltb, if◌then◌else◌,
  arith,
}
use cs_courses.Bitmap.{ok, bitmap_buf_size, is_set, bitmap_set_all, bitmap_create_in_buf}
use cs_courses.Bitmap.Range.{bitmap_set_multiple-IsFilled}
use cs_courses.Palloc.{page_size, Pool, Memory, init_pool, palloc_init}
use cs_courses.Palloc.Blocks.{IsLaid, HasMaps, is_used, size_of}

-- A pool in `page_cnt` pages from `base` on: its bitmap takes some pages at the start, and every page behind is
-- free.
record IsPool (base page_cnt : ℕ) (p : Pool) : Type 0 where
  whole :
      (n : ℕ) × (0 < n)
      × (p.base ≡ base + n * 4096)
      × ((let b = p.used_map in n + b.bit_cnt) ≡ page_cnt)
      × (p.map_address ≡ base)
      × ((let b = p.used_map in bitmap_buf_size b.bit_cnt) ≤ n * 4096)
  free : (j : ℕ) → (let b = p.used_map in j < b.bit_cnt) → is_set p.used_map j ≡ false

init_pool-IsPool :
    (base page_cnt : ℕ) (block : ℕ → ℕ)
    → 0 < page_cnt
    → (p : Pool) × (init_pool base page_cnt block ≡ ok p) × IsPool base page_cnt p
unfolding init_pool bitmap_create_in_buf bitmap_set_all
init_pool-IsPool base page_cnt block h =
    let n = (bitmap_buf_size page_cnt + page_size - 1) / page_size in
    let fits : ltb page_cnt n ≡ false = ground arith in
    let room : leb (bitmap_buf_size (page_cnt - n)) (n * page_size) ≡ true = ground arith in
    let (map, run, filled) =
      bitmap_set_multiple-IsFilled (record { bit_cnt = page_cnt - n; bits = block }) 0
        (page_cnt - n) false (omega arith) in
    (
      record { used_map = map; map_address = base; base = base + n * 4096 },
      rw (fits, room, run) refl,
      record {
        whole = (
          n,
          omega arith,
          refl,
          omega (arith, filled.size, fits_lt n fits),
          refl,
          rw (filled.size) (omega arith),
        );
        free = λ j inside. filled.inside j (omega arith) (omega (arith, filled.size));
      },
    )
  where
    fits_lt : (n : ℕ) → ltb page_cnt n ≡ false → n ≤ page_cnt
    fits_lt n e = ground arith

abbrev memory_of : Pool → Pool → (ℕ → ℕ) → Memory
memory_of kernel user bytes = record { kernel_pool = kernel; user_pool = user; byte = bytes }

IsPool-IsLaid :
    (start n_kernel n_user : ℕ) (kernel user : Pool) (bytes : ℕ → ℕ)
    → 0 < start
    → start % 4096 ≡ 0
    → IsPool start n_kernel kernel
    → IsPool (start + n_kernel * 4096) n_user user
    → IsLaid (memory_of kernel user bytes)
IsPool-IsLaid start n_kernel n_user kernel user bytes some_start page is_kernel is_user =
    let (n, n_some, kernel_base, kernel_cnt, _, _) = is_kernel.whole in
    let (n', n_some', user_base, user_cnt, _, _) = is_user.whole in
    record {
      kernel_page = omega (arith, kernel_base);
      user_page = omega (arith, user_base);
      kernel_some = omega (arith, kernel_base);
      apart = omega (arith, kernel_base, user_base, kernel_cnt);
    }

IsPool-HasMaps :
    (start n_kernel n_user : ℕ) (kernel user : Pool) (bytes : ℕ → ℕ)
    → IsPool start n_kernel kernel
    → IsPool (start + n_kernel * 4096) n_user user
    → HasMaps (memory_of kernel user bytes)
IsPool-HasMaps start n_kernel n_user kernel user bytes is_kernel is_user =
    let (n, n_some, kernel_base, kernel_cnt, kernel_map, kernel_room) = is_kernel.whole in
    let (n', n_some', user_base, user_cnt, user_map, user_room) = is_user.whole in
    record {
      kernel_front = omega (arith, kernel_base, kernel_map, kernel_room);
      user_front = omega (arith, user_base, user_map, user_room);
      behind = omega (arith, kernel_base, kernel_cnt, user_map);
    }

IsPool-free :
    (base n_kernel base' n_user : ℕ) (kernel user : Pool) (bytes : ℕ → ℕ)
    → IsPool base n_kernel kernel
    → IsPool base' n_user user
    → (u : Bool) (j : ℕ) → j < size_of (memory_of kernel user bytes) u
    → is_used (memory_of kernel user bytes) u j ≡ false
IsPool-free base n_kernel base' n_user kernel user bytes is_kernel is_user true j = is_user.free j
IsPool-free base n_kernel base' n_user kernel user bytes is_kernel is_user false j =
    is_kernel.free j

-- From a page that is not the one at NULL on, with at least two pages of memory and a limit of at least one user
-- page, palloc_init ends without a panic: the pools lie at pages and one behind the other, each bitmap lies in
-- front of the pages of its pool and off those of the other, and no page is in use.
pub palloc_init-IsLaid :
    (free_start free_pages user_page_limit : ℕ) (kernel_block user_block bytes : ℕ → ℕ)
    → 0 < free_start
    → free_start % 4096 ≡ 0
    → 2 ≤ free_pages
    → 1 ≤ user_page_limit
    → (m : Memory) × (palloc_init free_start free_pages user_page_limit kernel_block user_block
          bytes
        ≡ ok m)
      × IsLaid m
      × HasMaps m
      × ((user : Bool) (j : ℕ) → j < size_of m user → is_used m user j ≡ false)
unfolding palloc_init
palloc_init-IsLaid free_start free_pages limit kernel_block user_block bytes some_start page
      some_pages some_user =
    let half = free_pages / 2 in
    let user_pages = if ltb limit half then limit else half in
    let kernel_pages = free_pages - user_pages in
    let (kernel, run, is_kernel) =
      init_pool-IsPool free_start kernel_pages kernel_block (ground arith) in
    let (user, run', is_user) =
      init_pool-IsPool (free_start + kernel_pages * 4096) user_pages user_block (ground arith) in
    (
      memory_of kernel user bytes,
      rw (palloc_init, run, run') refl,
      IsPool-IsLaid free_start kernel_pages user_pages kernel user bytes some_start page is_kernel
          is_user,
      IsPool-HasMaps free_start kernel_pages user_pages kernel user bytes is_kernel is_user,
      IsPool-free free_start kernel_pages (free_start + kernel_pages * 4096) user_pages kernel user
          bytes is_kernel is_user,
    )
