-- ===== src/Palloc/Blocks.antt =====
-- Blocks of pages of CS330_projects/proj1/threads/palloc.c: what palloc_get_multiple hands out and
-- palloc_free_multiple takes back.
use cs_courses.Base.{
  ℕ, ◌+◌, ◌*◌, ◌%◌, ◌≤◌, ◌<◌, ◌≡◌, refl, ap, ◌∙◌, Bool, true, false, not, ◌&&◌, Option, none, some,
  leb, ltb, ◌==◌, ◌⊎◌, if◌then◌else◌, inl, inr, arith,
}
use cs_courses.Bitmap.{Run, ok, panic, Bitmap, is_set, bitmap_buf_size}
use cs_courses.Bitmap.Scan.{IsBroken, Claimed, bitmap_scan_and_flip-Claimed}
use cs_courses.Palloc.{
  Memory, set_bytes, pool_of, put_map, Flags, address_of, hand_out, palloc_get_multiple,
}

-- The pools begin at pages, behind NULL, and the user pool lies behind the kernel pool.
pub record IsLaid (m : Memory) : Type 0 where
  pub kernel_page : (let p = m.kernel_pool in p.base % 4096) ≡ 0
  pub user_page : (let p = m.user_pool in p.base % 4096) ≡ 0
  pub kernel_some : 0 < (let p = m.kernel_pool in p.base)
  pub apart :
      (let p = m.kernel_pool in let map = p.used_map in p.base + 4096 * map.bit_cnt)
      ≤ (let p = m.user_pool in p.base)

-- The bytes of a pool's bitmap lie from `map_start` up to `map_end`.
abbrev pub map_start : Memory → Bool → ℕ
map_start m user = let p = pool_of user m in p.map_address

abbrev pub map_end : Memory → Bool → ℕ
map_end m user =
    let p = pool_of user m in let map = p.used_map in p.map_address + bitmap_buf_size map.bit_cnt

-- The bitmap of each pool lies in front of the pool's pages, and that of the user pool behind the kernel pool.
pub record HasMaps (m : Memory) : Type 0 where
  pub kernel_front : map_end m false ≤ (let p = m.kernel_pool in p.base)
  pub user_front : map_end m true ≤ (let p = m.user_pool in p.base)
  pub behind :
      (let p = m.kernel_pool in let map = p.used_map in p.base + 4096 * map.bit_cnt)
      ≤ map_start m true

-- The bytes from `start` up to `stop` are none of a bitmap.
abbrev pub IsOffMaps : Memory → ℕ → ℕ → Type 0
IsOffMaps m start stop = (user : Bool) → (map_end m user ≤ start) ⊎ (stop ≤ map_start m user)

-- Page i of a pool is in use.
abbrev pub is_used : Memory → Bool → ℕ → Bool
is_used m user i = let p = pool_of user m in is_set p.used_map i

abbrev pub base_of : Memory → Bool → ℕ
base_of m user = let p = pool_of user m in p.base

abbrev pub size_of : Memory → Bool → ℕ
size_of m user = let p = pool_of user m in let map = p.used_map in map.bit_cnt

-- Block `page_cnt` pages from page i on of the pool has been taken: it was free, it is in use, and nothing
-- else has changed in the two pools.
pub record IsTaken (m : Memory) (user : Bool) (i page_cnt : ℕ) (m' : Memory) : Type 0 where
  pub inside : i + page_cnt ≤ size_of m user
  pub was_free : (j : ℕ) → i ≤ j → j < i + page_cnt → is_used m user j ≡ false
  pub in_use : (j : ℕ) → i ≤ j → j < i + page_cnt → is_used m' user j ≡ true
  pub below : (j : ℕ) → j < i → is_used m' user j ≡ is_used m user j
  pub above : (j : ℕ) → i + page_cnt ≤ j → is_used m' user j ≡ is_used m user j
  pub size : size_of m' user ≡ size_of m user
  pub place : base_of m' user ≡ base_of m user
  pub other : pool_of (not user) m' ≡ pool_of (not user) m

-- The bytes of the block, and those outside it.
abbrev pub HasBytes : Memory → ℕ → ℕ → Bool → Memory → Type 0
HasBytes m start size zeroed m' =
    (a : ℕ) → m'.byte a ≡ (if zeroed && (leb start a && ltb a (start + size)) then 0 else m.byte a)

-- What palloc_get_multiple of some pages answers.
abbrev pub Got : Flags → ℕ → Memory → Run (ℕ × Memory) → Type 0
Got flags page_cnt m r =
    ((i : ℕ) × (m' : Memory) × (r ≡ ok (base_of m flags.user + 4096 * i, m'))
      × IsTaken m flags.user i page_cnt m'
      × HasBytes m (base_of m flags.user + 4096 * i) (4096 * page_cnt) flags.zeroed m'
      × IsOffMaps m (base_of m flags.user + 4096 * i)
          (base_of m flags.user + 4096 * i + 4096 * page_cnt))
    ⊎ ((let map = (pool_of flags.user m) in
          (i : ℕ) → i + page_cnt ≤ size_of m flags.user → IsBroken map.used_map page_cnt false i)
        × (r ≡ (if flags.asserted then panic else ok (0, m))))

abbrev pub map_of : Memory → Bool → Bitmap
map_of m user = let p = pool_of user m in p.used_map

abbrev pub with_bytes : Memory → (ℕ → ℕ) → Memory
with_bytes m bytes = record m { byte = bytes }

Claimed-IsTaken :
    (user : Bool) (m : Memory) (i page_cnt : ℕ) (map : Bitmap) (bytes : ℕ → ℕ)
    → Claimed (map_of m user) 0 page_cnt false (some i) map
    → IsTaken m user i page_cnt (with_bytes (put_map user map m) bytes)
Claimed-IsTaken true m i page_cnt map bytes ((low, inside, found, first), filled) = record {
  inside = inside;
  was_free = found;
  in_use = filled.inside;
  below = filled.before;
  above = filled.behind;
  size = filled.size;
  place = refl;
  other = refl;
}
Claimed-IsTaken false m i page_cnt map bytes ((low, inside, found, first), filled) = record {
  inside = inside;
  was_free = found;
  in_use = filled.inside;
  below = filled.before;
  above = filled.behind;
  size = filled.size;
  place = refl;
  other = refl;
}

IsLaid-IsOffMaps :
    (m : Memory) (user : Bool) (i page_cnt : ℕ)
    → IsLaid m
    → HasMaps m
    → i + page_cnt ≤ size_of m user
    → IsOffMaps m (base_of m user + 4096 * i) (base_of m user + 4096 * i + 4096 * page_cnt)
IsLaid-IsOffMaps m true i page_cnt laid maps inside true = inl (omega (arith, maps.user_front))
IsLaid-IsOffMaps m true i page_cnt laid maps inside false =
    inl (omega (arith, maps.kernel_front, laid.apart))
IsLaid-IsOffMaps m false i page_cnt laid maps inside true = inr (omega (arith, maps.behind, inside))
IsLaid-IsOffMaps m false i page_cnt laid maps inside false = inl (omega (arith, maps.kernel_front))

base_of-positive : (m : Memory) (user : Bool) → IsLaid m → 0 < base_of m user
base_of-positive m true laid = omega (arith, laid.apart, laid.kernel_some)
base_of-positive m false laid = laid.kernel_some

put_map-same : (user : Bool) (m : Memory) → put_map user (map_of m user) m ≡ m
put_map-same true m = refl
put_map-same false m = refl

put_map-byte :
    (user : Bool) (map : Bitmap) (m : Memory) (a : ℕ)
    → (let m' = put_map user map m in m'.byte a) ≡ m.byte a
put_map-byte true map m a = refl
put_map-byte false map m a = refl

hand_out-bytes :
    (flags : Flags) (page_cnt pages : ℕ) (m : Memory)
    → 0 < pages
    → (bytes : ℕ → ℕ) × (hand_out flags page_cnt pages m ≡ ok (pages, with_bytes m bytes))
      × ((a : ℕ)
          → bytes a ≡ (
              if flags.zeroed && (leb pages a && ltb a (pages + 4096 * page_cnt))
              then 0
              else m.byte a))
hand_out-bytes flags page_cnt pages m h =
    let some_page : (pages == 0) ≡ false = ground arith in rw some_page (go flags.zeroed)
  where
    go :
        (zeroed : Bool)
        → (bytes : ℕ → ℕ) × (◌≡◌ {A = Run (ℕ × Memory)}
            (ok (
              pages,
              (if zeroed
                  then record m { byte = set_bytes pages 0 (4096 * page_cnt) m.byte }
                  else m),
            ))
            (ok (pages, with_bytes m bytes)))
          × ((a : ℕ)
              → bytes a ≡ (
                  if zeroed && (leb pages a && ltb a (pages + 4096 * page_cnt))
                  then 0
                  else m.byte a))
    go true = (set_bytes pages 0 (4096 * page_cnt) m.byte, refl, λ a. refl)
    go false = (m.byte, refl, λ a. refl)

-- In memory that is laid out, with each bitmap in front of the pages of its pool, palloc_get_multiple of at
-- least one page either answers with the address of a block inside the pool of which every page was free, and
-- takes exactly this block, which shares no byte with a bitmap, clearing its bytes when PAL_ZERO asks for it and
-- changing no other byte outside the bitmaps; or every block of this size has a page in use,
-- and it answers NULL and changes nothing, or panics when PAL_ASSERT asks for it.
pub palloc_get_multiple-Got :
    (flags : Flags) (page_cnt : ℕ) (m : Memory)
    → IsLaid m
    → HasMaps m
    → 0 < page_cnt
    → Got flags page_cnt m (palloc_get_multiple flags page_cnt m)
unfolding palloc_get_multiple
palloc_get_multiple-Got flags page_cnt m laid maps h =
    let (r, map, run, claimed) =
      bitmap_scan_and_flip-Claimed (map_of m flags.user) 0 page_cnt false (omega arith) in
    let some_pages : (page_cnt == 0) ≡ false = ground arith in
    let whole : palloc_get_multiple flags page_cnt m
        ≡ hand_out flags page_cnt (address_of (base_of m flags.user) r) (put_map flags.user map m) =
      rw (palloc_get_multiple, some_pages, run) refl in
    step r map whole claimed
  where
    step :
        (r : Option ℕ) (map : Bitmap)
        → palloc_get_multiple flags page_cnt m
          ≡ hand_out flags page_cnt (address_of (base_of m flags.user) r) (put_map flags.user map m)
        → Claimed (map_of m flags.user) 0 page_cnt false r map
        → Got flags page_cnt m (palloc_get_multiple flags page_cnt m)
    step none map whole (none_free, unchanged) = inr (
      (λ i inside. none_free i (omega arith) inside),
      whole
          ∙ ap (λ b. hand_out flags page_cnt 0 (put_map flags.user b m)) unchanged
          ∙ ap (hand_out flags page_cnt 0) (put_map-same flags.user m),
    )
    step (some i) map whole claimed =
        let start = base_of m flags.user + 4096 * i in
        let (bytes, run, read) =
          hand_out-bytes flags page_cnt start (put_map flags.user map m)
            (omega (arith, base_of-positive m flags.user laid)) in
        inl (
          i,
          with_bytes (put_map flags.user map m) bytes,
          whole ∙ run,
          Claimed-IsTaken flags.user m i page_cnt map bytes claimed,
          (λ a.
              read a
              ∙ ap
                  (λ x.
                    if flags.zeroed && (leb start a && ltb a (start + 4096 * page_cnt))
                    then 0
                    else x)
                  (put_map-byte flags.user map m a)),
          IsLaid-IsOffMaps m flags.user i page_cnt laid maps claimed.0.1,
        )
