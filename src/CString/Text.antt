-- ===== src/CString/Text.antt =====
-- Null-terminated strings of CS330_projects/proj1/lib/string.c: strlen, strlcpy, strlcat.
use cs_courses.Base.{
  ℕ, zero, suc, ◌+◌, ◌-◌, ◌≤◌, ◌<◌, ◌≡◌, refl, ◌≢◌, true, not, ◌&&◌, ltb, leb, ◌==◌, arith, ◌⊎◌,
  inl, inr, ap, Bool-cases, List, [], ◌∷◌, ◌++◌, length, take,
}
use cs_courses.CString.Bytes.{Memory, store, ok, IsStr}
use cs_courses.CString.{len_loop, strlen, strlcpy, strlcat, memcpy, min_len}
use cs_courses.CString.Copy.{memcpy-copied}

len_loop-length :
    (k s p : ℕ) (m : Memory) (xs : List ℕ)
    → IsStr m p xs
    → length xs < k
    → s ≤ p
    → len_loop k s p m ≡ ok (p - s + length xs)
unfolding len_loop
len_loop-length zero s p m xs is fuel le = absurd (omega arith)
len_loop-length (suc k) s p m [] is fuel le = ground arith
len_loop-length (suc k) s p m (x ∷ xs) is fuel le =
    ground (arith, len_loop-length k s (p + 1) m xs is.2)

-- With more fuel than characters, strlen is the number of characters before the terminator.
pub strlen-length :
    (fuel s : ℕ) (m : Memory) (xs : List ℕ)
    → IsStr m s xs
    → s ≢ 0
    → length xs < fuel
    → strlen fuel s m ≡ ok (length xs)
unfolding strlen
strlen-length fuel s m xs is ne enough = ground (arith, len_loop-length fuel s s m xs is enough)

-- A copy of the first `n` characters, ended by a null.
IsStr-take :
    (n p q : ℕ) (m g : Memory) (xs : List ℕ)
    → IsStr m q xs
    → n ≤ length xs
    → ((i : ℕ) → i < n → g (p + i) ≡ m (q + i))
    → g (p + n) ≡ 0
    → IsStr g p (take n xs)
IsStr-take zero p q m g xs is le same end = ground arith
IsStr-take (suc n) p q m g [] is le same end = absurd (omega arith)
IsStr-take (suc n) p q m g (x ∷ xs) is le same end = (
  ground (arith, same 0),
  is.1,
  IsStr-take n (p + 1) (q + 1) m g xs is.2 (omega arith) (λ i h. ground (arith, same (i + 1)))
      (ground arith),
)

abbrev pub Apart : ℕ → ℕ → ℕ → ℕ → Type 0
Apart a n b k = (a + n ≤ b) ⊎ (b + k ≤ a)

abbrev pub Inside : ℕ → ℕ → ℕ → Type 0
Inside p n a = (p ≤ a) × (a < p + n)

take_min : (k : ℕ) (xs : List ℕ) → take (min_len (length xs) k) xs ≡ take k xs
take_min zero [] = refl
take_min zero (x ∷ xs) = ground arith
take_min (suc k) [] = ground arith
take_min (suc k) (x ∷ xs) = elim (Bool-cases (ltb (length xs) k)) [
  | inl short ↦
      let e : min_len (length (x ∷ xs)) (suc k) ≡ suc (min_len (length xs) k) = ground arith in
      rw e (ap (◌∷◌ x) (take_min k xs))
  | inr long ↦
      let e : min_len (length (x ∷ xs)) (suc k) ≡ suc (min_len (length xs) k) = ground arith in
      rw e (ap (◌∷◌ x) (take_min k xs))
]

strlcpy_runs :
    (fuel dst src size n : ℕ) (m c : Memory)
    → dst ≢ 0
    → src ≢ 0
    → 0 < size
    → strlen fuel src m ≡ ok n
    → memcpy dst src (min_len n (size - 1)) m ≡ ok (dst, c)
    → strlcpy fuel dst src size m ≡ ok (n, store c (dst + min_len n (size - 1)) 0)
unfolding strlcpy
strlcpy_runs fuel dst src size n m c d s room len copy =
    let live : not (dst == 0) && not (src == 0) ≡ true = ground arith in
    let some : ltb 0 size ≡ true = ground arith in rw (live, len, some, copy)

-- strlcpy into a buffer of `size` bytes that does not overlap the source leaves there the first
-- `size` - 1 characters of the source as a string, writes nothing outside the buffer, and returns
-- the length of the source.
strlcpy-take :
    (fuel dst src size : ℕ) (m : Memory) (xs : List ℕ)
    → IsStr m src xs
    → dst ≢ 0
    → src ≢ 0
    → 0 < size
    → length xs < fuel
    → Apart dst size src (length xs + 1)
    → (g : Memory) × (strlcpy fuel dst src size m ≡ ok (length xs, g))
      × IsStr g dst (take (size - 1) xs)
      × ((a : ℕ) → Inside dst size a ⊎ (g a ≡ m a))
strlcpy-take fuel dst src size m xs is d s room enough apart =
    let n = min_len (length xs) (size - 1) in
    let (c, run, copy) = memcpy-copied dst src n m d s (ground arith) in
    (
      store c (dst + n) 0,
      strlcpy_runs fuel dst src size (length xs) m c d s room
          (strlen-length fuel src m xs is s enough) run,
      rw (← take_min (size - 1) xs) (
          IsStr-take n dst src m (store c (dst + n) 0) xs is (ground arith)
            (λ i h. ground (arith, copy (dst + i))) (ground arith)),
      λ a. elim (Bool-cases (leb dst a && ltb a (dst + size))) [
        | inl within ↦ inl (ground arith)
        | inr out ↦ inr (ground (arith, copy a))
      ],
    )

IsStr-append :
    (p : ℕ) (m g : Memory) (ys zs : List ℕ)
    → IsStr m p ys
    → ((i : ℕ) → i < length ys → g (p + i) ≡ m (p + i))
    → IsStr g (p + length ys) zs
    → IsStr g p (ys ++ zs)
IsStr-append p m g [] zs is same tail = let e : p + 0 ≡ p = omega arith in rw e at tail
IsStr-append p m g (y ∷ ys) zs is same tail =
    let e : p + suc (length ys) ≡ p + 1 + length ys = omega arith in
    (
      ground (arith, same 0),
      is.1,
      IsStr-append (p + 1) m g ys zs is.2 (λ i h. ground (arith, same (i + 1))) (rw e at tail),
    )

strlcat_runs :
    (fuel dst src size n k : ℕ) (m c : Memory)
    → dst ≢ 0
    → src ≢ 0
    → k < size
    → strlen fuel src m ≡ ok n
    → strlen fuel dst m ≡ ok k
    → memcpy (dst + k) src (min_len n (size - k - 1)) m ≡ ok (dst + k, c)
    → strlcat fuel dst src size m ≡ ok (n + k, store c (dst + k + min_len n (size - k - 1)) 0)
unfolding strlcat
strlcat_runs fuel dst src size n k m c d s room len len' copy =
    let live : not (dst == 0) && not (src == 0) ≡ true = ground arith in
    let fits : ltb 0 size && ltb k size ≡ true = ground arith in rw (live, len, len', fits, copy)

-- strlcat to a string that ends within a buffer of `size` bytes, which does not overlap the source,
-- leaves there that string with as much of the source behind it as the buffer holds beside the
-- terminator, writes nothing outside the buffer, and returns the sum of the two lengths.
pub strlcat-append :
    (fuel dst src size : ℕ) (m : Memory) (xs ys : List ℕ)
    → IsStr m src xs
    → IsStr m dst ys
    → dst ≢ 0
    → src ≢ 0
    → length ys < size
    → length xs < fuel
    → length ys < fuel
    → Apart dst size src (length xs + 1)
    → (g : Memory) × (strlcat fuel dst src size m ≡ ok (length xs + length ys, g))
      × IsStr g dst (ys ++ take (size - length ys - 1) xs)
      × ((a : ℕ) → Inside dst size a ⊎ (g a ≡ m a))
strlcat-append fuel dst src size m xs ys is js d s room enough enough' apart =
    let k = length ys in
    let n = min_len (length xs) (size - k - 1) in
    let (c, run, copy) = memcpy-copied (dst + k) src n m (omega arith) s (ground arith) in
    let g = store c (dst + k + n) 0 in
    let added : IsStr g (dst + k) (take n xs) =
      IsStr-take n (dst + k) src m g xs is (ground arith)
        (λ i h. ground (arith, copy (dst + k + i))) (ground arith) in
    (
      g,
      strlcat_runs fuel dst src size (length xs) k m c d s room
          (strlen-length fuel src m xs is s enough) (strlen-length fuel dst m ys js d enough') run,
      rw (← take_min (size - k - 1) xs)
          (IsStr-append dst m g ys (take n xs) js (λ i h. ground (arith, copy (dst + i))) added),
      λ a. elim (Bool-cases (leb dst a && ltb a (dst + size))) [
        | inl within ↦ inl (ground arith)
        | inr out ↦ inr (ground (arith, copy a))
      ],
    )
