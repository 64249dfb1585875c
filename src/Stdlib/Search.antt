-- ===== src/Stdlib/Search.antt =====
-- binary_search of CS330_projects/proj1/lib/stdlib.c against a search of the whole array.
use cs_courses.Base.{
  ℕ, zero, suc, ◌+◌, ◌-◌, ◌/◌, ◌≤◌, ◌<◌, ◌≡◌, refl, true, false, Option, none, some, ℤ, ltb, ltb→lt,
  Bool-cases, inl, inr, arith,
}
use cs_courses.Stdlib.{done, is_neg, is_pos, search_loop, binary_search}

module _ {A : Type 0} (compare : A → A → ℤ) where
  -- A strcmp-like comparison of elements that are in order.
  pub record IsComparison : Type 0 where
    pub below :
        (x y z : A)
        → is_neg (compare x y) ≡ true
        → is_pos (compare y z) ≡ false
        → is_neg (compare x z) ≡ true
    pub above :
        (x y z : A)
        → is_pos (compare x z) ≡ true
        → is_pos (compare y z) ≡ false
        → is_pos (compare x y) ≡ true

  -- No element is greater than a later one.
  abbrev pub IsAscending : (ℕ → A) → ℕ → Type 0
  IsAscending array cnt = (i j : ℕ) → i ≤ j → j < cnt → is_pos (compare (array i) (array j)) ≡ false

  abbrev pub Matches : A → A → Type 0
  Matches x y = (is_neg (compare x y) ≡ false) × (is_pos (compare x y) ≡ false)

  -- What a search between two indexes may answer.
  abbrev pub Answer : A → (ℕ → A) → ℕ → ℕ → Option ℕ → Type 0
  Answer key array first last none = (i : ℕ) → first ≤ i → i < last → Matches key (array i) → ⊥
  Answer key array first last (some i) = (first ≤ i) × (i < last) × Matches key (array i)

  module _ (law : IsComparison) (key : A) (array : ℕ → A) (cnt : ℕ)
      (sorted : IsAscending array cnt) where
    Answer-left :
        (first middle last : ℕ) (r : Option ℕ)
        → middle < last
        → last ≤ cnt
        → is_neg (compare key (array middle)) ≡ true
        → Answer key array first middle r
        → Answer key array first last r
    Answer-left first middle last (some i) m l neg a = (a.0, omega arith, a.2)
    Answer-left first middle last none m l neg a = λ i low high (at_neg, at_pos).
        elim (Bool-cases (ltb i middle)) [
          | inl on ↦ a i low (ltb→lt i middle on) (at_neg, at_pos)
          | inr on ↦ ground (
            arith,
            at_neg,
            law.below key (array middle) (array i) neg
                (sorted middle i (ground arith) (omega arith)),
          )
        ]

    Answer-right :
        (first middle last : ℕ) (r : Option ℕ)
        → first ≤ middle
        → middle < last
        → last ≤ cnt
        → is_pos (compare key (array middle)) ≡ true
        → Answer key array (middle + 1) last r
        → Answer key array first last r
    Answer-right first middle last (some i) f m l above a = (omega arith, a.1, a.2)
    Answer-right first middle last none f m l above a = λ i low high (at_neg, at_pos).
        elim (Bool-cases (ltb middle i)) [
          | inl on ↦ a i (ground arith) high (at_neg, at_pos)
          | inr on ↦ ground (
            arith,
            at_pos,
            law.above key (array i) (array middle) above
                (sorted i middle (ground arith) (omega arith)),
          )
        ]

    middle_lt : (first last : ℕ) → first < last → first + (last - first) / 2 < last
    middle_lt first last h = omega arith

    search_loop-Answer :
        (fuel first last : ℕ)
        → last - first < fuel
        → last ≤ cnt
        → (r : Option ℕ) × (search_loop compare fuel key array first last ≡ done r)
          × Answer key array first last r
    unfolding search_loop
    search_loop-Answer zero first last f l = ground arith
    search_loop-Answer (suc fuel) first last f l =
        let middle = first + (last - first) / 2 in
        elim (Bool-cases (ltb first last)) [
          | inr off ↦ rw (off, search_loop) (none, refl, (λ i low high m. ground arith))
          | inl on ↦
              let inside = middle_lt first last (ltb→lt first last on) in
              elim (Bool-cases (is_neg (compare key (array middle)))) [
                | inl neg ↦
                    rw (on, neg, search_loop)
                      (let (r, e, a) =
                          search_loop-Answer fuel first middle (omega arith) (omega arith) in
                        (r, e, Answer-left first middle last r inside l neg a))
                | inr nonneg ↦ elim (Bool-cases (is_pos (compare key (array middle)))) [
                  | inl above ↦
                      rw (on, nonneg, above, search_loop)
                        (let (r, e, a) =
                            search_loop-Answer fuel (middle + 1) last (omega arith) l in
                          (r, e, Answer-right first middle last r (omega arith) inside l above a))
                  | inr nonpos ↦
                      rw (on, nonneg, nonpos, search_loop)
                        (some middle, refl, (omega arith, inside, (nonneg, nonpos)))
                ]
              ]
        ]

    -- On an array in ascending order, and with a round of fuel more than it has elements,
    -- binary_search ends: with the index of an element inside the array that compares equal to the
    -- key, or with nothing, and then no element of the array compares equal to the key.
    pub binary_search-Answer :
        (fuel : ℕ)
        → cnt < fuel
        → (r : Option ℕ) × (binary_search compare fuel key array cnt ≡ done r)
          × Answer key array 0 cnt r
    unfolding binary_search
    binary_search-Answer fuel f = search_loop-Answer fuel 0 cnt (omega arith) (omega arith)
