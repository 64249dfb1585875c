-- ===== src/Stdlib.antt =====
-- CS330_projects/proj1/lib/stdlib.c: atoi, heap sort and binary search. A string is the list of its
-- characters before the null terminator. An array is the elements by their number, so that the
-- pointer `array + k * size` is the number k and do_swap exchanges two elements; its elements are
-- read through `compare`, a parameter. Pointer and index sums do not wrap, as the array lies inside
-- the address space. NULL arguments, which the ASSERTs refuse, are not modelled.
pub mod Search
pub mod Sort
pub mod Heap
pub mod Sorted
pub mod Number
mod Tests
use cs_courses.Base.{
  ℕ, zero, suc, ◌+◌, ◌-◌, ◌*◌, ◌/◌, Bool, true, false, ◌||◌, ◌&&◌, Option, none, some, List, [],
  ◌∷◌, ℤ, pos, negsuc, ltb, leb, ◌==◌, if◌then◌else◌,
}
use mathlib.Core.Option

-- isspace and isdigit of lib/ctype.h
abbrev pub is_space : ℕ → Bool
is_space c = c == 0x20 || c == 0x0c || c == 0x0a || c == 0x0d || c == 0x09 || c == 0x0b

abbrev pub is_digit : ℕ → Bool
is_digit c = leb b'0' c && leb c b'9'

-- 2 ^ 31, the magnitude of the least int
abbrev pub int_bound : ℕ
int_bound = 2147483648

unfoldable pub skip_white : List ℕ → List ℕ
skip_white [] = []
skip_white (c ∷ cs) = if is_space c then skip_white cs else c ∷ cs

-- The digits' loop, on the magnitude of the negative `value`; `none` where an int overflows.
unfoldable pub digits_loop : List ℕ → ℕ → Option ℕ
digits_loop [] value = some value
digits_loop (c ∷ cs) value = elim (is_digit c) [
  | false ↦ some value
  | true ↦
      let next = value * 10 + (c - b'0') in
      elim (leb next int_bound) [ false ↦ none | true ↦ digits_loop cs next ]
]

abbrev pub minus : ℕ → ℤ
minus zero = pos 0
minus (suc n) = negsuc n

abbrev pub with_sign : Bool → ℕ → Option ℤ
with_sign true n = some (minus n)
with_sign false n = if n == int_bound then none else some (pos n)

-- if (*s == '+') ... else if (*s == '-') ...
unfoldable pub signed : List ℕ → Option ℤ
unfolding digits_loop
signed [] = some (pos 0)
signed (c ∷ cs) =
    if c == b'+'
    then Option.bind (digits_loop cs 0) (with_sign false)
    else if c == b'-'
    then Option.bind (digits_loop cs 0) (with_sign true)
    else Option.bind (digits_loop (c ∷ cs) 0) (with_sign false)

-- atoi
unfoldable pub atoi : List ℕ → Option ℤ
unfolding skip_white signed
atoi s = signed (skip_white s)

abbrev pub is_neg : ℤ → Bool
is_neg (pos n) = false
is_neg (negsuc n) = true

abbrev pub is_pos : ℤ → Bool
is_pos (pos n) = ltb 0 n
is_pos (negsuc n) = false

-- How a loop on fuel ends.
pub data Run (A : Type 0) : Type 0 where
  done : A → Run A
  out_of_fuel : Run A

infixl 5 ◌>>=◌
abbrev pub ◌>>=◌ : {A B : Type 0} → Run A → (A → Run B) → Run B
out_of_fuel >>= rest = out_of_fuel
done a >>= rest = rest a

-- Where the element at k comes from when those at i and j are exchanged.
abbrev pub swapped : ℕ → ℕ → ℕ → ℕ
swapped i j k = if k == i then j else if k == j then i else k

-- do_swap, on indexes from 1
unfoldable pub do_swap : {A : Type 0} → (ℕ → A) → ℕ → ℕ → ℕ → A
do_swap array a_idx b_idx k = array (swapped (a_idx - 1) (b_idx - 1) k)

module _ {A : Type 0} (compare : A → A → ℤ) where
  -- do_compare
  unfoldable pub do_compare : (ℕ → A) → ℕ → ℕ → ℤ
  do_compare array a_idx b_idx = compare (array (a_idx - 1)) (array (b_idx - 1))

  -- if (child <= cnt && do_compare (array, child, max, ...) > 0) max = child;
  unfoldable pub larger : (ℕ → A) → ℕ → ℕ → ℕ → ℕ
  unfolding do_compare
  larger array cnt child max =
      if leb child cnt && is_pos (do_compare array child max) then child else max

  unfoldable pub largest : (ℕ → A) → ℕ → ℕ → ℕ
  unfolding larger
  largest array cnt i = larger array cnt (2 * i + 1) (larger array cnt (2 * i) i)

  -- heapify
  unfoldable pub heapify : ℕ → (ℕ → A) → ℕ → ℕ → Run (ℕ → A)
  unfolding largest do_swap
  heapify zero array i cnt = out_of_fuel
  heapify (suc fuel) array i cnt =
      let max = largest array cnt i in
      elim (max == i) [ true ↦ done array | false ↦ heapify fuel (do_swap array i max) max cnt ]

  -- for (i = cnt / 2; i > 0; i--)
  unfoldable pub build_loop : ℕ → ℕ → ℕ → (ℕ → A) → Run (ℕ → A)
  unfolding heapify
  build_loop fuel cnt zero array = done array
  build_loop fuel cnt (suc i) array = heapify fuel array (suc i) cnt >>= build_loop fuel cnt i

  -- for (i = cnt; i > 1; i--)
  unfoldable pub extract_loop : ℕ → ℕ → (ℕ → A) → Run (ℕ → A)
  unfolding heapify do_swap
  extract_loop fuel zero array = done array
  extract_loop fuel (suc zero) array = done array
  extract_loop fuel (suc (suc i)) array =
      heapify fuel (do_swap array 1 (suc (suc i))) 1 (suc i) >>= extract_loop fuel (suc i)

  -- sort
  unfoldable pub sort : ℕ → (ℕ → A) → ℕ → Run (ℕ → A)
  unfolding build_loop extract_loop
  sort fuel array cnt = build_loop fuel cnt (cnt / 2) array >>= extract_loop fuel cnt

  -- The loop of binary_search, on the numbers of the elements at `first` and `last`.
  unfoldable pub search_loop : ℕ → A → (ℕ → A) → ℕ → ℕ → Run (Option ℕ)
  search_loop zero key array first last = out_of_fuel
  search_loop (suc fuel) key array first last = elim (ltb first last) [
    | false ↦ done none
    | true ↦
        let middle = first + (last - first) / 2 in
        let cmp = compare key (array middle) in
        elim (is_neg cmp) [
          | true ↦ search_loop fuel key array first middle
          | false ↦ elim (is_pos cmp) [
            | true ↦ search_loop fuel key array (middle + 1) last
            | false ↦ done (some middle)
          ]
        ]
  ]

  -- binary_search
  unfoldable pub binary_search : ℕ → A → (ℕ → A) → ℕ → Run (Option ℕ)
  unfolding search_loop
  binary_search fuel key array cnt = search_loop fuel key array 0 cnt
