-- ===== src/Palloc.antt =====
-- CS330_projects/proj1/threads/palloc.c: two pools of pages of 4096 bytes, each with a bitmap of the pages in
-- use. An address is a number and 0 is NULL; the memory gives the byte at each address outside the
-- storage of the two bitmaps, which are values of their own; a pool says where its bitmap lies. palloc_get_multiple
-- holds a lock while it looks at the bitmap, and each operation is taken as a whole.
pub mod Blocks
pub mod Free
pub mod Init
mod Tests
use cs_courses.Base.{
  ℕ, zero, suc, ◌+◌, ◌-◌, ◌*◌, ◌/◌, ◌%◌, Bool, true, false, not, ◌&&◌, ◌||◌, Option, none, some,
  leb, ltb, ◌==◌, if◌then◌else◌,
}
use cs_courses.Bitmap.{
  Run, ok, panic, ◌>>=◌, Bitmap, bitmap_buf_size, bitmap_create_in_buf, bitmap_set_multiple,
  bitmap_all, bitmap_scan_and_flip,
}

-- PGSIZE
abbrev pub page_size : ℕ
page_size = 4096

-- pg_no
abbrev pub pg_no : ℕ → ℕ
pg_no address = address / page_size

-- struct pool, with the address of the bitmap that used_map points to
pub record Pool : Type 0 where
  pub used_map : Bitmap
  pub map_address : ℕ
  pub base : ℕ

-- kernel_pool, user_pool and the bytes of the memory
pub record Memory : Type 0 where
  pub kernel_pool : Pool
  pub user_pool : Pool
  pub byte : ℕ → ℕ

-- memset
abbrev pub set_bytes : ℕ → ℕ → ℕ → (ℕ → ℕ) → ℕ → ℕ
set_bytes start value size bytes a = if leb start a && ltb a (start + size) then value else bytes a

-- init_pool; `block` is what the words of the bitmap hold before.
unfoldable pub init_pool : ℕ → ℕ → (ℕ → ℕ) → Run Pool
unfolding bitmap_create_in_buf
init_pool base page_cnt block =
    let bm_pages = (bitmap_buf_size page_cnt + page_size - 1) / page_size in
    if ltb page_cnt bm_pages
    then panic
    else bitmap_create_in_buf (page_cnt - bm_pages) block (bm_pages * page_size) >>= (λ map.
      ok (record { used_map = map; map_address = base; base = base + bm_pages * page_size }))

-- palloc_init, with the free memory from `free_start` on
unfoldable pub palloc_init : ℕ → ℕ → ℕ → (ℕ → ℕ) → (ℕ → ℕ) → (ℕ → ℕ) → Run Memory
unfolding init_pool
palloc_init free_start free_pages user_page_limit kernel_block user_block bytes =
    let half = free_pages / 2 in
    let user_pages = if ltb user_page_limit half then user_page_limit else half in
    let kernel_pages = free_pages - user_pages in
    init_pool free_start kernel_pages kernel_block >>= (λ kernel.
      init_pool (free_start + kernel_pages * page_size) user_pages user_block
      >>= (λ user. ok (record { kernel_pool = kernel; user_pool = user; byte = bytes })))

abbrev pub pool_of : Bool → Memory → Pool
pool_of true m = m.user_pool
pool_of false m = m.kernel_pool

abbrev pub put_map : Bool → Bitmap → Memory → Memory
put_map true map m = record m { user_pool = record m.user_pool { used_map = map } }
put_map false map m = record m { kernel_pool = record m.kernel_pool { used_map = map } }

-- PAL_USER, PAL_ZERO and PAL_ASSERT
pub record Flags : Type 0 where
  pub user : Bool
  pub zeroed : Bool
  pub asserted : Bool

-- The address of the pages, or NULL.
abbrev pub address_of : ℕ → Option ℕ → ℕ
address_of base none = 0
address_of base (some page_idx) = base + page_size * page_idx

-- The end of palloc_get_multiple, with the pages filled with zeros or the panic.
abbrev pub hand_out : Flags → ℕ → ℕ → Memory → Run (ℕ × Memory)
hand_out flags page_cnt pages m =
    if pages == 0
    then (if flags.asserted then panic else ok (pages, m))
    else ok (
      pages,
      (if flags.zeroed
          then record m { byte = set_bytes pages 0 (page_size * page_cnt) m.byte }
          else m),
    )

unfoldable pub palloc_get_multiple : Flags → ℕ → Memory → Run (ℕ × Memory)
unfolding bitmap_scan_and_flip
palloc_get_multiple flags page_cnt m =
    let pool = pool_of flags.user m in
    if page_cnt == 0
    then ok (0, m)
    else bitmap_scan_and_flip pool.used_map 0 page_cnt false
      >>= (λ r. hand_out flags page_cnt (address_of pool.base r.0) (put_map flags.user r.1 m))

unfoldable pub palloc_get_page : Flags → Memory → Run (ℕ × Memory)
unfolding palloc_get_multiple
palloc_get_page flags m = palloc_get_multiple flags 1 m

abbrev pub page_from_pool : Pool → ℕ → Bool
page_from_pool pool page =
    let map = pool.used_map in
    leb (pg_no pool.base) (pg_no page) && ltb (pg_no page) (pg_no pool.base + map.bit_cnt)

unfoldable pub free_in : Bool → ℕ → ℕ → Memory → Run Memory
unfolding bitmap_all bitmap_set_multiple
free_in user pages page_cnt m =
    let pool = pool_of user m in
    let page_idx = pg_no pages - pg_no pool.base in
    bitmap_all pool.used_map page_idx page_cnt >>= (λ all.
      if all
      then bitmap_set_multiple pool.used_map page_idx page_cnt false >>= (λ map.
        ok (
          put_map user map
            (record m { byte = set_bytes pages 0xcc (page_size * page_cnt) m.byte })))
      else panic)

unfoldable pub palloc_free_multiple : ℕ → ℕ → Memory → Run Memory
unfolding free_in
palloc_free_multiple pages page_cnt m =
    if not (pages % page_size == 0)
    then panic
    else if pages == 0 || page_cnt == 0
    then ok m
    else if page_from_pool m.kernel_pool pages
    then free_in false pages page_cnt m
    else if page_from_pool m.user_pool pages
    then free_in true pages page_cnt m
    else panic

unfoldable pub palloc_free_page : ℕ → Memory → Run Memory
unfolding palloc_free_multiple
palloc_free_page page m = palloc_free_multiple page 1 m
