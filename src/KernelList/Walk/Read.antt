-- ===== src/KernelList/Walk/Read.antt =====
-- Loops of CS330_projects/proj1/lib/kernel/list.c that only read: list_size, list_max, list_min.
use cs_courses.Base.{
  ℕ, zero, suc, ◌+◌, ◌%◌, ◌^◌, ◌<◌, ◌≡◌, refl, ◌≢◌, Bool, true, false, ◌==◌, List, [], ◌∷◌, ◌++◌,
  arith, if◌then◌else◌, ap, ◌∙◌, length, All, Bool-cases, inl, inr,
}
use cs_courses.KernelList.Links.{Ptr, null, Heap, ok}
use cs_courses.KernelList.{Header, list_next}
use cs_courses.KernelList.Path.{has, has-append, Linked, Distinct}
use cs_courses.KernelList.Shape.{IsList, first_or}
use cs_courses.KernelList.Ends.{list_begin-first_or}
use cs_courses.KernelList.Walk.{size_loop, list_size, max_loop, list_max, min_loop, list_min}

-- From the first of the elements list_next leads through all of them to the end.
abbrev pub Walk : Heap → Ptr → List Ptr → Type 0
Walk h t [] = Unit
Walk h t (x ∷ xs) =
    (x ≢ null) × (x ≢ t) × (h.next x ≡ first_or xs t) × (first_or xs t ≢ null) × Walk h t xs

module _ (h : Heap) (t : Ptr) where
  Walk-Linked :
      (xs : List Ptr)
      → Linked h (xs ++ t ∷ [])
      → Distinct (xs ++ t ∷ [])
      → has null (xs ++ t ∷ []) ≡ false
      → Walk h t xs
  Walk-Linked [] k d n = tt
  Walk-Linked (x ∷ []) k d n = (ground arith, ground arith, k.0, ground arith, tt)
  Walk-Linked (x ∷ y ∷ r) k d n = (
    ground arith,
    ground (arith, d.0, has-append x r (t ∷ [])),
    k.0,
    ground arith,
    Walk-Linked (y ∷ r) k.2 d.1 (ground arith),
  )

  pub Walk-inside : (x : Ptr) (xs : List Ptr) → Walk h t (x ∷ xs) → (x == t) ≡ false
  Walk-inside x xs w = ground arith

  pub list_next-Walk :
      (x : Ptr) (xs : List Ptr) → Walk h t (x ∷ xs) → list_next x h ≡ ok (first_or xs t) h
  unfolding list_next
  list_next-Walk x xs w = ground arith

  size_loop-length :
      (k : ℕ) (xs : List Ptr) (cnt : ℕ)
      → Walk h t xs
      → length xs < k
      → size_loop k t (first_or xs t) (cnt % 2 ^ 32) h ≡ ok ((cnt + length xs) % 2 ^ 32) h
  unfolding size_loop
  size_loop-length zero xs cnt w fuel = absurd (omega arith)
  size_loop-length (suc k) [] cnt w fuel = ground arith
  size_loop-length (suc k) (x ∷ xs) cnt w fuel =
      let inside = Walk-inside x xs w in
      let step : (cnt % 2 ^ 32 + 1) % 2 ^ 32 ≡ (cnt + 1) % 2 ^ 32 = omega arith in
      rw (inside, list_next-Walk x xs w, step)
        (size_loop-length k xs (cnt + 1) w.4 (omega arith) ∙ ap (λ n. ok n h) (omega arith))

pub Walk-IsList : (h : Heap) (l : Header) (xs : List Ptr) → IsList h l xs → Walk h l.tail xs
Walk-IsList h l [] is = tt
Walk-IsList h l (x ∷ xs) is =
    Walk-Linked h l.tail (x ∷ xs) is.linked.2 is.distinct.1 (ground (arith, is.nonnull))

-- list_size counts the elements, modulo 2 ^ 32, with more fuel than there are elements, and changes
-- nothing.
list_size-length :
    (fuel : ℕ) (h : Heap) (l : Header) (xs : List Ptr)
    → IsList h l xs
    → length xs < fuel
    → list_size fuel l h ≡ ok (length xs % 2 ^ 32) h
unfolding list_size
list_size-length fuel h l xs is enough = rw (list_begin-first_or h l xs is) (
    size_loop-length h l.tail fuel xs 0 (Walk-IsList h l xs is) enough
    ∙ ap (λ n. ok n h) (omega arith))

-- A strict order, as `less` is meant to be.
pub record IsStrict (less : Ptr → Ptr → Bool) : Type 0 where
  pub irrefl : (a : Ptr) → less a a ≡ false
  pub asym : (a b : Ptr) → less a b ≡ true → less b a ≡ false
  pub trans : (a b c : Ptr) → less a b ≡ true → less b c ≡ true → less a c ≡ true

-- `m` is one of the elements and no element is above it.
abbrev pub IsMax : (less : Ptr → Ptr → Bool) → Ptr → List Ptr → Type 0
IsMax less m xs = (has m xs ≡ true) × All (λ y. less m y ≡ false) xs

-- The choice that the loop of list_max makes.
unfoldable pub best_of : (Ptr → Ptr → Bool) → Ptr → List Ptr → Ptr
best_of less m [] = m
best_of less m (y ∷ ys) = best_of less (if less m y then y else m) ys

module _ (less : Ptr → Ptr → Bool) (h : Heap) (t : Ptr) where
  max_loop-best_of :
      (k : ℕ) (xs : List Ptr) (m : Ptr)
      → Walk h t xs
      → length xs < k
      → max_loop less k t m (first_or xs t) h ≡ ok (best_of less m xs) h
  unfolding max_loop best_of
  max_loop-best_of zero xs m w fuel = absurd (omega arith)
  max_loop-best_of (suc k) [] m w fuel = ground arith
  max_loop-best_of (suc k) (x ∷ xs) m w fuel =
      let inside = Walk-inside h t x xs w in
      rw (inside, list_next-Walk h t x xs w)
        (max_loop-best_of k xs (if less m x then x else m) w.4 (omega arith))

module _ (less : Ptr → Ptr → Bool) (strict : IsStrict less) where
  best_of-has : (m : Ptr) (xs : List Ptr) → has (best_of less m xs) (m ∷ xs) ≡ true
  unfolding best_of
  best_of-has m [] = ground arith
  best_of-has m (y ∷ ys) = ground (arith, best_of-has (if less m y then y else m) ys)

  not_above : (m y z : Ptr) → less m y ≡ true → less m z ≡ false → less y z ≡ false
  not_above m y z up e = elim (Bool-cases (less y z)) [
    | inl above ↦ ground (arith, strict.trans m y z)
    | inr no_more ↦ no_more
  ]

  -- Nothing that was not above an earlier choice is above the last one.
  best_of-keeps :
      (m z : Ptr) (xs : List Ptr) → less m z ≡ false → less (best_of less m xs) z ≡ false
  unfolding best_of
  best_of-keeps m z [] e = e
  best_of-keeps m z (y ∷ ys) e = elim (Bool-cases (less m y)) [
    | inl up ↦ rw up (best_of-keeps y z ys (not_above m y z up e))
    | inr down ↦ rw down (best_of-keeps m z ys e)
  ]

  best_of-All : (m : Ptr) (xs : List Ptr) → All (λ y. less (best_of less m xs) y ≡ false) xs
  unfolding best_of
  best_of-All m [] = tt
  best_of-All m (y ∷ ys) =
      let next = if less m y then y else m in
      (best_of-keeps next y ys (ground (arith, strict.irrefl y)), best_of-All next ys)

  best_of-IsMax : (m : Ptr) (xs : List Ptr) → IsMax less (best_of less m xs) (m ∷ xs)
  best_of-IsMax m xs =
      (best_of-has m xs, (best_of-keeps m m xs (strict.irrefl m), best_of-All m xs))

  -- With more fuel than elements, list_max of a list that is not empty returns an element that none
  -- of the others is above, if `less` is a strict order, and changes nothing.
  list_max-IsMax :
      (fuel : ℕ) (h : Heap) (l : Header) (x : Ptr) (xs : List Ptr)
      → IsList h l (x ∷ xs)
      → length xs < fuel
      → (m : Ptr) × (list_max less fuel l h ≡ ok m h) × IsMax less m (x ∷ xs)
  unfolding list_max
  list_max-IsMax fuel h l x xs is enough =
      let w = Walk-IsList h l (x ∷ xs) is in
      let inside = Walk-inside h l.tail x xs w in
      (
        best_of less x xs,
        rw (list_begin-first_or h l (x ∷ xs) is, inside, list_next-Walk h l.tail x xs w)
            (max_loop-best_of less h l.tail fuel xs x w.4 enough),
        best_of-IsMax x xs,
      )

abbrev pub flip : (Ptr → Ptr → Bool) → Ptr → Ptr → Bool
flip less a b = less b a

min_loop-flip :
    (less : Ptr → Ptr → Bool) (k : ℕ) (end best e : Ptr)
    → min_loop less k end best e ≡ max_loop (flip less) k end best e
unfolding min_loop max_loop
min_loop-flip less zero end best e = refl
min_loop-flip less (suc k) end best e = simp (min_loop-flip less k)

list_min-flip :
    (less : Ptr → Ptr → Bool) (fuel : ℕ) (l : Header)
    → list_min less fuel l ≡ list_max (flip less) fuel l
unfolding list_min list_max
list_min-flip less fuel l = simp (min_loop-flip less)

-- The same for list_min, which none of the others is below.
list_min-IsMax :
    (less : Ptr → Ptr → Bool) (fuel : ℕ) (h : Heap) (l : Header) (x : Ptr) (xs : List Ptr)
    → IsStrict less
    → IsList h l (x ∷ xs)
    → length xs < fuel
    → (m : Ptr) × (list_min less fuel l h ≡ ok m h) × IsMax (flip less) m (x ∷ xs)
list_min-IsMax less fuel h l x xs strict is enough =
    let (m, run, best) =
      list_max-IsMax (flip less)
        (record {
          irrefl = strict.irrefl;
          asym = λ a b. strict.asym b a;
          trans = λ a b c p q. strict.trans c b a q p;
        })
        fuel h l x xs is enough in
    (m, ap (λ c. c h) (list_min-flip less fuel l) ∙ run, best)
