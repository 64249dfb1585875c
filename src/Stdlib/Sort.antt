-- ===== src/Stdlib/Sort.antt =====
-- heapify and sort of CS330_projects/proj1/lib/stdlib.c: they end, and rearrange the array.
use cs_courses.Base.{
  ℕ, zero, suc, ◌+◌, ◌-◌, ◌*◌, ◌/◌, ◌≤◌, ◌<◌, ◌≡◌, refl, ap, ◌∙◌, true, false, ℤ, leb, ◌==◌,
  Bool-cases, inl, inr, arith, ◌⊎◌, leb→le,
}
use cs_courses.Stdlib.{
  done, is_pos, swapped, do_swap, do_compare, larger, largest, heapify, build_loop, extract_loop,
  sort,
}

-- `b` holds the elements of `a`, the first `cnt` of them in another order: `from` says where the
-- element at an index comes from, and `back` undoes it.
pub record Rearranged {A : Type 0} (cnt : ℕ) (a b : ℕ → A) : Type 0 where
  pub from : ℕ → ℕ
  pub back : ℕ → ℕ
  pub reads : (k : ℕ) → b k ≡ a (from k)
  pub from_back : (k : ℕ) → from (back k) ≡ k
  pub back_from : (k : ℕ) → back (from k) ≡ k
  pub outside : (k : ℕ) → cnt ≤ k → from k ≡ k

swapped-swapped : (i j k : ℕ) → swapped i j (swapped i j k) ≡ k
swapped-swapped i j k = ground arith

module _ {A : Type 0} where
  Rearranged-refl : (cnt : ℕ) (a : ℕ → A) → Rearranged cnt a a
  Rearranged-refl cnt a = record {
    from = λ k. k;
    back = λ k. k;
    reads = λ k. refl;
    from_back = λ k. refl;
    back_from = λ k. refl;
    outside = λ k h. refl;
  }

  pub Rearranged-trans :
      (cnt : ℕ) (a b c : ℕ → A) → Rearranged cnt a b → Rearranged cnt b c → Rearranged cnt a c
  Rearranged-trans cnt a b c r s = record {
    from = λ k. r.from (s.from k);
    back = λ k. s.back (r.back k);
    reads = λ k. s.reads k ∙ r.reads (s.from k);
    from_back = λ k. ap r.from (s.from_back (r.back k)) ∙ r.from_back k;
    back_from = λ k. ap s.back (r.back_from (s.from k)) ∙ s.back_from k;
    outside = λ k h. ap r.from (s.outside k h) ∙ r.outside k h;
  }

  pub Rearranged-wider : (m cnt : ℕ) (a b : ℕ → A) → m ≤ cnt → Rearranged m a b → Rearranged cnt a b
  Rearranged-wider m cnt a b h r = record {
    from = r.from;
    back = r.back;
    reads = r.reads;
    from_back = r.from_back;
    back_from = r.back_from;
    outside = λ k l. r.outside k (omega arith);
  }

  pub do_swap-Rearranged :
      (cnt : ℕ) (a : ℕ → A) (i j : ℕ)
      → 0 < i
      → i ≤ cnt
      → 0 < j
      → j ≤ cnt
      → Rearranged cnt a (do_swap a i j)
  unfolding do_swap
  do_swap-Rearranged cnt a i j i_pos i_le j_pos j_le = record {
    from = swapped (i - 1) (j - 1);
    back = swapped (i - 1) (j - 1);
    reads = λ k. refl;
    from_back = swapped-swapped (i - 1) (j - 1);
    back_from = swapped-swapped (i - 1) (j - 1);
    outside = λ k h. ground arith;
  }

pub eq→== : (m n : ℕ) → m ≡ n → (m == n) ≡ true
eq→== m n e = ground arith

pub lt→not_eq : (m n : ℕ) → m < n → (n == m) ≡ false
lt→not_eq m n h = ground arith

module _ {A : Type 0} (compare : A → A → ℤ) where
  pub larger_cases :
      (a : ℕ → A) (cnt child max : ℕ)
      → ((larger compare a cnt child max ≡ child) × (child ≤ cnt))
        ⊎ (larger compare a cnt child max ≡ max)
  unfolding larger
  larger_cases a cnt child max = elim (Bool-cases (leb child cnt)) [
    | inr off ↦ inr (rw off refl)
    | inl on ↦ elim (Bool-cases (is_pos (do_compare compare a child max))) [
      | inl greater ↦ inl (rw (on, greater) refl, leb→le child cnt on)
      | inr other ↦ inr (rw (on, other) refl)
    ]
  ]

  -- The largest of a node and its children is the node, or lies further down in the heap.
  pub largest_cases :
      (a : ℕ → A) (cnt i : ℕ)
      → 0 < i
      → (largest compare a cnt i ≡ i)
        ⊎ ((i < largest compare a cnt i) × (largest compare a cnt i ≤ cnt))
  unfolding largest
  largest_cases a cnt i h =
      let left = larger compare a cnt (2 * i) i in
      elim (larger_cases a cnt (2 * i + 1) left) [
        | inl (e, le) ↦ inr (omega arith, omega arith)
        | inr e ↦ elim (larger_cases a cnt (2 * i) i) [
          | inl (e', le) ↦ inr (omega arith, omega arith)
          | inr e' ↦ inl (e ∙ e')
        ]
      ]

  pub heapify-Rearranged :
      (fuel : ℕ) (a : ℕ → A) (i cnt : ℕ)
      → 0 < i
      → cnt - i < fuel
      → (b : ℕ → A) × (heapify compare fuel a i cnt ≡ done b) × Rearranged cnt a b
  unfolding heapify
  heapify-Rearranged zero a i cnt i_pos f = ground arith
  heapify-Rearranged (suc fuel) a i cnt i_pos f =
      let max = largest compare a cnt i in
      elim (largest_cases a cnt i i_pos) [
        | inl same ↦ rw (eq→== max i same, heapify) (a, refl, Rearranged-refl cnt a)
        | inr (lt, le) ↦
            let (b, e, r) =
              heapify-Rearranged fuel (do_swap a i max) max cnt (omega arith) (omega arith) in
            rw (lt→not_eq i max lt, heapify)
              (
                b,
                e,
                Rearranged-trans cnt a (do_swap a i max) b
                    (do_swap-Rearranged cnt a i max i_pos (omega arith) (omega arith) le) r,
              )
      ]

  build_loop-Rearranged :
      (fuel cnt i : ℕ) (a : ℕ → A)
      → cnt < fuel
      → (b : ℕ → A) × (build_loop compare fuel cnt i a ≡ done b) × Rearranged cnt a b
  unfolding build_loop
  build_loop-Rearranged fuel cnt zero a f = (a, refl, Rearranged-refl cnt a)
  build_loop-Rearranged fuel cnt (suc i) a f =
      let (b, e, r) = heapify-Rearranged fuel a (suc i) cnt (omega arith) (omega arith) in
      let (c, e', r') = build_loop-Rearranged fuel cnt i b f in
      (c, rw (e, build_loop) e', Rearranged-trans cnt a b c r r')

  extract_loop-Rearranged :
      (fuel cnt i : ℕ) (a : ℕ → A)
      → i ≤ cnt
      → cnt < fuel
      → (b : ℕ → A) × (extract_loop compare fuel i a ≡ done b) × Rearranged cnt a b
  unfolding extract_loop
  extract_loop-Rearranged fuel cnt zero a h f = (a, refl, Rearranged-refl cnt a)
  extract_loop-Rearranged fuel cnt (suc zero) a h f = (a, refl, Rearranged-refl cnt a)
  extract_loop-Rearranged fuel cnt (suc (suc i)) a h f =
      let a' = do_swap a 1 (suc (suc i)) in
      let (b, e, r) = heapify-Rearranged fuel a' 1 (suc i) (omega arith) (omega arith) in
      let (c, e', r') = extract_loop-Rearranged fuel cnt (suc i) b (omega arith) f in
      (
        c,
        rw (e, extract_loop) e',
        Rearranged-trans cnt a a' c
            (do_swap-Rearranged cnt a 1 (suc (suc i)) (omega arith) (omega arith) (omega arith) h)
            (Rearranged-trans cnt a' b c (Rearranged-wider (suc i) cnt a' b (omega arith) r) r'),
      )

  -- With a round of fuel more than there are elements, sort ends, whatever the comparison answers:
  -- the array holds the same elements, of which only the first `cnt` have changed places.
  pub sort-Rearranged :
      (fuel cnt : ℕ) (a : ℕ → A)
      → cnt < fuel
      → (b : ℕ → A) × (sort compare fuel a cnt ≡ done b) × Rearranged cnt a b
  unfolding sort
  sort-Rearranged fuel cnt a f =
      let (b, e, r) = build_loop-Rearranged fuel cnt (cnt / 2) a f in
      let (c, e', r') = extract_loop-Rearranged fuel cnt cnt b (omega arith) f in
      (c, rw (e, sort) e', Rearranged-trans cnt a b c r r')
