-- ===== src/CString.antt =====
-- The string routines of CS330_projects/proj1/lib/string.c, on a memory of bytes. Addresses are
-- numbers, 0 for NULL; the objects lie inside the address space, so pointer sums do not wrap. A loop
-- up to a null terminator runs on fuel. An `int` result of a comparison is an integer.
pub mod Bytes
pub mod Copy
mod Tests
pub mod Compare
pub mod Text
use cs_courses.Base.{
  ℕ, zero, suc, ◌+◌, ◌-◌, ◌%◌, Bool, true, false, not, ◌&&◌, ◌||◌, ltb, leb, ◌==◌, if◌then◌else◌,
  Option, none, some, ℤ, pos, negsuc,
}
use Bytes.{Memory, store, Run, ok, panic, out_of_fuel, ◌>>=◌}

abbrev is_valid : ℕ → ℕ → Bool
is_valid p size = not (p == 0) || (size == 0)

-- while (size-- > 0) *dst++ = *src++;
unfoldable pub copy_up : ℕ → ℕ → ℕ → Memory → Memory
copy_up zero dst src m = m
copy_up (suc n) dst src m = copy_up n (dst + 1) (src + 1) (store m dst (m src))

-- while (size-- > 0) *--dst = *--src;
unfoldable pub copy_down : ℕ → ℕ → ℕ → Memory → Memory
copy_down zero dst src m = m
copy_down (suc n) dst src m = copy_down n (dst - 1) (src - 1) (store m (dst - 1) (m (src - 1)))

unfoldable pub memcpy : ℕ → ℕ → ℕ → Memory → Run (ℕ × Memory)
unfolding copy_up
memcpy dst src size m =
    if is_valid dst size && is_valid src size then ok (dst, copy_up size dst src m) else panic

-- The result is the local `dst`, which the loops have moved.
unfoldable pub memmove : ℕ → ℕ → ℕ → Memory → Run (ℕ × Memory)
unfolding copy_up copy_down
memmove dst src size m =
    if is_valid dst size && is_valid src size
    then (if ltb dst src
        then ok (dst + size, copy_up size dst src m)
        else ok (dst + size - size, copy_down size (dst + size) (src + size) m))
    else panic

abbrev pub sign_of : ℕ → ℕ → ℤ
sign_of a b = if ltb b a then pos 1 else negsuc 0

unfoldable pub cmp_loop : ℕ → ℕ → ℕ → Memory → ℤ
cmp_loop zero a b m = pos 0
cmp_loop (suc n) a b m = if m a == m b then cmp_loop n (a + 1) (b + 1) m else sign_of (m a) (m b)

unfoldable pub memcmp : ℕ → ℕ → ℕ → Memory → Run ℤ
unfolding cmp_loop
memcmp a b size m = if is_valid a size && is_valid b size then ok (cmp_loop size a b m) else panic

unfoldable pub str_loop : ℕ → ℕ → ℕ → Memory → Run ℤ
str_loop zero a b m = out_of_fuel
str_loop (suc k) a b m =
    let rest = str_loop k (a + 1) (b + 1) m in
    if not (m a == 0) && (m a == m b)
    then rest
    else ok (if ltb (m a) (m b) then negsuc 0 else if ltb (m b) (m a) then pos 1 else pos 0)

unfoldable pub strcmp : ℕ → ℕ → ℕ → Memory → Run ℤ
unfolding str_loop
strcmp fuel a b m = if not (a == 0) && not (b == 0) then str_loop fuel a b m else panic

unfoldable pub chr_in : ℕ → ℕ → ℕ → Memory → Option ℕ
chr_in zero block ch m = none
chr_in (suc n) block ch m = if m block == ch then some block else chr_in n (block + 1) ch m

unfoldable pub memchr : ℕ → ℕ → ℕ → Memory → Run (Option ℕ)
unfolding chr_in
memchr block ch size m = if is_valid block size then ok (chr_in size block (ch % 256) m) else panic

unfoldable pub chr_loop : ℕ → ℕ → ℕ → Memory → Run (Option ℕ)
chr_loop zero s c m = out_of_fuel
chr_loop (suc k) s c m =
    let rest = chr_loop k (s + 1) c m in
    if m s == c then ok (some s) else if m s == 0 then ok none else rest

unfoldable pub strchr : ℕ → ℕ → ℕ → Memory → Run (Option ℕ)
unfolding chr_loop
strchr fuel s c m = if not (s == 0) then chr_loop fuel s (c % 256) m else panic

abbrev is_found : Option ℕ → Bool
is_found none = false
is_found (some a) = true

-- The loops of strcspn and strspn: they stop at a character whose membership is `stop`.
unfoldable pub span_loop : Bool → ℕ → ℕ → ℕ → ℕ → Memory → Run ℕ
unfolding strchr
span_loop stop zero s set len m = out_of_fuel
span_loop stop (suc k) s set len m = if m (s + len) == 0 then ok len else do
  r ← strchr (suc k) set (m (s + len)) m
  elim (is_found r) [
    | true ↦ elim stop [ true ↦ ok len | false ↦ span_loop stop k s set (len + 1) m ]
    | false ↦ elim stop [ true ↦ span_loop stop k s set (len + 1) m | false ↦ ok len ]
  ]

unfoldable pub strcspn : ℕ → ℕ → ℕ → Memory → Run ℕ
unfolding span_loop
strcspn fuel s set m = span_loop true fuel s set 0 m

unfoldable pub strspn : ℕ → ℕ → ℕ → Memory → Run ℕ
unfolding span_loop
strspn fuel s set m = span_loop false fuel s set 0 m

unfoldable pub strpbrk : ℕ → ℕ → ℕ → Memory → Run (Option ℕ)
unfolding strchr
strpbrk zero s set m = out_of_fuel
strpbrk (suc k) s set m = if m s == 0 then ok none else do
  r ← strchr (suc k) set (m s) m
  elim (is_found r) [ true ↦ ok (some s) | false ↦ strpbrk k (s + 1) set m ]

unfoldable pub rchr_loop : ℕ → ℕ → ℕ → Option ℕ → Memory → Run (Option ℕ)
rchr_loop zero s c p m = out_of_fuel
rchr_loop (suc k) s c p m =
    let rest = rchr_loop k (s + 1) c (if m s == c then some s else p) m in
    if m s == 0 then ok p else rest

unfoldable pub strrchr : ℕ → ℕ → ℕ → Memory → Run (Option ℕ)
unfolding rchr_loop
strrchr fuel s c m = rchr_loop fuel s (c % 256) none m

unfoldable pub fill : ℕ → ℕ → ℕ → Memory → Memory
fill zero dst v m = m
fill (suc n) dst v m = fill n (dst + 1) v (store m dst v)

unfoldable pub memset : ℕ → ℕ → ℕ → Memory → Run (ℕ × Memory)
unfolding fill
memset dst value size m =
    if is_valid dst size then ok (dst, fill size dst (value % 256) m) else panic

unfoldable pub len_loop : ℕ → ℕ → ℕ → Memory → Run ℕ
len_loop zero s p m = out_of_fuel
len_loop (suc k) s p m = let rest = len_loop k s (p + 1) m in if m p == 0 then ok (p - s) else rest

unfoldable pub strlen : ℕ → ℕ → Memory → Run ℕ
unfolding len_loop
strlen fuel s m = if not (s == 0) then len_loop fuel s s m else panic

-- The loop of strnlen makes at most `maxlen` rounds: these are its fuel.
unfoldable pub nlen_loop : ℕ → ℕ → ℕ → Memory → ℕ
nlen_loop zero s len m = len
nlen_loop (suc left) s len m =
    let rest = nlen_loop left s (len + 1) m in if m (s + len) == 0 then len else rest

unfoldable pub strnlen : ℕ → ℕ → Memory → ℕ
unfolding nlen_loop
strnlen s maxlen m = nlen_loop maxlen s 0 m

abbrev pub min_len : ℕ → ℕ → ℕ
min_len src_len room = if ltb src_len room then src_len else room

unfoldable pub strlcpy : ℕ → ℕ → ℕ → ℕ → Memory → Run (ℕ × Memory)
strlcpy fuel dst src size m =
    if not (dst == 0) && not (src == 0)
    then (do
      src_len ← strlen fuel src m
      let n = min_len src_len (size - 1)
      if ltb 0 size
          then (do (p, m') ← memcpy dst src n m; ok (src_len, store m' (dst + n) 0))
          else ok (src_len, m))
    else panic

unfoldable pub strlcat : ℕ → ℕ → ℕ → ℕ → Memory → Run (ℕ × Memory)
strlcat fuel dst src size m =
    if not (dst == 0) && not (src == 0)
    then (do
      src_len ← strlen fuel src m
      dst_len ← strlen fuel dst m
      let n = min_len src_len (size - dst_len - 1)
      if ltb 0 size && ltb dst_len size
          then (do
            (p, m') ← memcpy (dst + dst_len) src n m
            ok (src_len + dst_len, store m' (dst + dst_len + n) 0))
          else ok (src_len + dst_len, m))
    else panic

-- for (i = 0; i <= last; i++) if (!memcmp (haystack + i, needle, n)) return haystack + i;
unfoldable pub find_loop : ℕ → ℕ → ℕ → ℕ → Memory → Run (Option ℕ)
unfolding memcmp
find_loop zero haystack needle n m = ok none
find_loop (suc left) haystack needle n m = do
  r ← memcmp haystack needle n m
  elim r [
    | pos d ↦ elim (d == 0) [
      | true ↦ ok (some haystack)
      | false ↦ find_loop left (haystack + 1) needle n m
    ]
    | negsuc d ↦ find_loop left (haystack + 1) needle n m
  ]

unfoldable pub strstr : ℕ → ℕ → ℕ → Memory → Run (Option ℕ)
unfolding strlen find_loop
strstr fuel haystack needle m = do
  hay_len ← strlen fuel haystack m
  n ← strlen fuel needle m
  if leb n hay_len then find_loop (hay_len - n + 1) haystack needle n m else ok none

-- The first loop of strtok_r: `none` where the string ends.
unfoldable pub skip_loop : ℕ → ℕ → ℕ → Memory → Run (ℕ × Bool)
unfolding strchr
skip_loop zero s delims m = out_of_fuel
skip_loop (suc k) s delims m = do
  r ← strchr (suc k) delims (m s) m
  elim (is_found r) [
    | false ↦ ok (s, true)
    | true ↦ elim (m s == 0) [ true ↦ ok (s, false) | false ↦ skip_loop k (s + 1) delims m ]
  ]

-- Its second loop: the end of the token.
unfoldable pub token_loop : ℕ → ℕ → ℕ → Memory → Run ℕ
unfolding strchr
token_loop zero s delims m = out_of_fuel
token_loop (suc k) s delims m = do
  r ← strchr (suc k) delims (m s) m
  elim (is_found r) [ true ↦ ok s | false ↦ token_loop k (s + 1) delims m ]

pub record Token : Type 0 where
  pub token : Option ℕ
  pub saved : ℕ
  pub memory : Memory

-- strtok_r, with *save_ptr before the call
unfoldable pub strtok_r : ℕ → ℕ → ℕ → ℕ → Memory → Run Token
unfolding skip_loop token_loop
strtok_r fuel s delims saved m =
    let start = if s == 0 then saved else s in
    if not (delims == 0) && not (start == 0)
    then (do
      (first, more) ← skip_loop fuel start delims m
      elim more [
        | false ↦ ok (record { token = none; saved = first; memory = m })
        | true ↦ (do
          end ← token_loop fuel first delims m
          ok (
              if m end == 0
              then record { token = some first; saved = end; memory = m }
              else record { token = some first; saved = end + 1; memory = store m end 0 }))
      ])
    else panic
