-- ===== src/Bitmap.antt =====
-- CS330_projects/proj1/lib/kernel/bitmap.c: an array of bits in words of 32 bits. The words are a function of
-- their index, and a word is a number below 2 ^ 32. No size_t overflows. bitmap_mark, bitmap_reset and bitmap_flip test
-- nothing: outside the bitmap they change a word that is not one of its words.
pub mod Single
pub mod Range
pub mod Scan
mod Tests
use Prim.Native.Nat.{bit_and, bit_or, bit_xor}
use cs_courses.Base.{
  ℕ, zero, suc, ◌+◌, ◌-◌, ◌*◌, ◌/◌, ◌%◌, ◌^◌, Bool, true, false, not, Option, none, some, leb, ltb,
  ◌==◌, if◌then◌else◌, update,
}

-- A failed ASSERT is `panic`.
pub data Run (A : Type 0) : Type 0 where
  ok : A → Run A
  panic : Run A

infixl 5 ◌>>=◌
abbrev pub ◌>>=◌ : {A B : Type 0} → Run A → (A → Run B) → Run B
ok a >>= rest = rest a
panic >>= rest = panic

-- ELEM_BITS
abbrev pub elem_bits : ℕ
elem_bits = 32

-- elem_cnt and byte_cnt, with 4 bytes in a word
abbrev pub elem_cnt : ℕ → ℕ
elem_cnt bit_cnt = (bit_cnt + elem_bits - 1) / elem_bits

abbrev pub byte_cnt : ℕ → ℕ
byte_cnt bit_cnt = 4 * elem_cnt bit_cnt

-- bitmap_buf_size, with 8 bytes in a struct bitmap
abbrev pub bitmap_buf_size : ℕ → ℕ
bitmap_buf_size bit_cnt = 8 + byte_cnt bit_cnt

-- struct bitmap
pub record Bitmap : Type 0 where
  pub bit_cnt : ℕ
  pub bits : ℕ → ℕ

abbrev pub elem_idx : ℕ → ℕ
elem_idx bit_idx = bit_idx / elem_bits

abbrev pub bit_mask : ℕ → ℕ
bit_mask bit_idx = 2 ^ (bit_idx % elem_bits)

-- ~mask, in 32 bits
abbrev pub complement : ℕ → ℕ
complement mask = 2 ^ elem_bits - 1 - mask

abbrev pub put_elem : Bitmap → ℕ → ℕ → Bitmap
put_elem b idx elem = record b { bits = update b.bits idx elem }

unfoldable pub bitmap_mark : Bitmap → ℕ → Bitmap
bitmap_mark b bit_idx =
    let idx = elem_idx bit_idx in put_elem b idx (bit_or (b.bits idx) (bit_mask bit_idx))

unfoldable pub bitmap_reset : Bitmap → ℕ → Bitmap
bitmap_reset b bit_idx =
    let idx = elem_idx bit_idx in
    put_elem b idx (bit_and (b.bits idx) (complement (bit_mask bit_idx)))

unfoldable pub bitmap_flip : Bitmap → ℕ → Bitmap
bitmap_flip b bit_idx =
    let idx = elem_idx bit_idx in put_elem b idx (bit_xor (b.bits idx) (bit_mask bit_idx))

unfoldable pub bitmap_set : Bitmap → ℕ → Bool → Run Bitmap
unfolding bitmap_mark bitmap_reset
bitmap_set b idx value =
    if ltb idx b.bit_cnt
    then ok (if value then bitmap_mark b idx else bitmap_reset b idx)
    else panic

-- (b->bits[elem_idx (idx)] & bit_mask (idx)) != 0
unfoldable pub is_set : Bitmap → ℕ → Bool
is_set b idx = not (bit_and (b.bits (elem_idx idx)) (bit_mask idx) == 0)

unfoldable pub bitmap_test : Bitmap → ℕ → Run Bool
unfolding is_set
bitmap_test b idx = if ltb idx b.bit_cnt then ok (is_set b idx) else panic

-- The assertions on a range of bits.
abbrev pub in_range : {A : Type 0} → Bitmap → ℕ → ℕ → Run A → Run A
in_range b start cnt body =
    if leb start b.bit_cnt then (if leb (start + cnt) b.bit_cnt then body else panic) else panic

-- The loops run over `n` bits from the number `idx` on.
unfoldable pub set_loop : Bool → ℕ → ℕ → Bitmap → Run Bitmap
unfolding bitmap_set
set_loop value zero idx b = ok b
set_loop value (suc n) idx b = bitmap_set b idx value >>= set_loop value n (idx + 1)

unfoldable pub bitmap_set_multiple : Bitmap → ℕ → ℕ → Bool → Run Bitmap
unfolding set_loop
bitmap_set_multiple b start cnt value = in_range b start cnt (set_loop value cnt start b)

unfoldable pub bitmap_set_all : Bitmap → Bool → Run Bitmap
unfolding bitmap_set_multiple
bitmap_set_all b value = bitmap_set_multiple b 0 b.bit_cnt value

-- bitmap_create_in_buf, in a block of `block_size` bytes, with what its words hold before
unfoldable pub bitmap_create_in_buf : ℕ → (ℕ → ℕ) → ℕ → Run Bitmap
unfolding bitmap_set_all
bitmap_create_in_buf bit_cnt block block_size =
    if leb (bitmap_buf_size bit_cnt) block_size
    then bitmap_set_all (record { bit_cnt = bit_cnt; bits = block }) false
    else panic

abbrev pub same : Bool → Bool → Bool
same true v = v
same false v = not v

unfoldable pub count_loop : Bitmap → Bool → ℕ → ℕ → ℕ → Run ℕ
unfolding bitmap_test
count_loop b value zero idx value_cnt = ok value_cnt
count_loop b value (suc n) idx value_cnt =
    bitmap_test b idx
    >>= (λ v. count_loop b value n (idx + 1) (if same v value then value_cnt + 1 else value_cnt))

unfoldable pub bitmap_count : Bitmap → ℕ → ℕ → Bool → Run ℕ
unfolding count_loop
bitmap_count b start cnt value = in_range b start cnt (count_loop b value cnt start 0)

unfoldable pub contains_loop : Bitmap → Bool → ℕ → ℕ → Run Bool
unfolding bitmap_test
contains_loop b value zero idx = ok false
contains_loop b value (suc n) idx =
    bitmap_test b idx
    >>= (λ v. elim (same v value) [ true ↦ ok true | false ↦ contains_loop b value n (idx + 1) ])

unfoldable pub bitmap_contains : Bitmap → ℕ → ℕ → Bool → Run Bool
unfolding contains_loop
bitmap_contains b start cnt value = in_range b start cnt (contains_loop b value cnt start)

unfoldable pub bitmap_any : Bitmap → ℕ → ℕ → Run Bool
unfolding bitmap_contains
bitmap_any b start cnt = bitmap_contains b start cnt true

unfoldable pub bitmap_none : Bitmap → ℕ → ℕ → Run Bool
unfolding bitmap_contains
bitmap_none b start cnt = bitmap_contains b start cnt true >>= (λ v. ok (not v))

unfoldable pub bitmap_all : Bitmap → ℕ → ℕ → Run Bool
unfolding bitmap_contains
bitmap_all b start cnt = bitmap_contains b start cnt false >>= (λ v. ok (not v))

-- The loop of bitmap_scan over `n` starting indexes; BITMAP_ERROR is `none`.
unfoldable pub scan_loop : Bitmap → ℕ → Bool → ℕ → ℕ → Run (Option ℕ)
unfolding bitmap_contains
scan_loop b cnt value zero i = ok none
scan_loop b cnt value (suc n) i =
    bitmap_contains b i cnt (not value)
    >>= (λ v. elim v [ false ↦ ok (some i) | true ↦ scan_loop b cnt value n (i + 1) ])

unfoldable pub bitmap_scan : Bitmap → ℕ → ℕ → Bool → Run (Option ℕ)
unfolding scan_loop
bitmap_scan b start cnt value =
    if leb start b.bit_cnt
    then (if leb cnt b.bit_cnt
        then (let last = b.bit_cnt - cnt in scan_loop b cnt value (suc last - start) start)
        else ok none)
    else panic

unfoldable pub bitmap_scan_and_flip : Bitmap → ℕ → ℕ → Bool → Run (Option ℕ × Bitmap)
unfolding bitmap_scan bitmap_set_multiple
bitmap_scan_and_flip b start cnt value = bitmap_scan b start cnt value >>= (λ r. elim r [
  | none ↦ ok (none, b)
  | some idx ↦ bitmap_set_multiple b idx cnt (not value) >>= (λ b'. ok (some idx, b'))
])
