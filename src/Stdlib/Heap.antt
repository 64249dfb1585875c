-- ===== src/Stdlib/Heap.antt =====
-- heapify of CS330_projects/proj1/lib/stdlib.c makes a heap. Nodes are numbered from 1.
use cs_courses.Base.{
  ℕ, zero, suc, ◌+◌, ◌-◌, ◌*◌, ◌/◌, ◌≤◌, ◌<◌, ◌≡◌, refl, sym, ap, true, false, ℤ, leb, ◌==◌,
  Bool-cases, inl, inr, ◌⊎◌, arith, ==→eq,
}
use cs_courses.Stdlib.{done, is_pos, do_swap, do_compare, larger, largest, heapify}
use mathlib.Core.Path.{subst, ◌∙◌}
use cs_courses.Stdlib.Sort.{larger_cases, eq→==, lt→not_eq}

half_cases : (c i : ℕ) → c / 2 ≡ i → (c ≡ 2 * i) ⊎ (c ≡ 2 * i + 1)
half_cases c i e = omega arith

module _ {A : Type 0} (compare : A → A → ℤ) where
  -- x is not greater than y.
  abbrev pub AtMost : A → A → Type 0
  AtMost x y = is_pos (compare x y) ≡ false

  -- A strcmp-like comparison, as far as `> 0` is asked of it.
  pub record IsPreorder : Type 0 where
    pub reflexive : (x : A) → AtMost x x
    pub transitive : (x y z : A) → AtMost x y → AtMost y z → AtMost x z
    pub total : (x y : A) → is_pos (compare x y) ≡ true → AtMost y x

  abbrev pub node : (ℕ → A) → ℕ → A
  node a i = a (i - 1)

  -- No node whose parent is `from` or a later one is greater than its parent.
  abbrev pub IsHeap : (ℕ → A) → ℕ → ℕ → Type 0
  IsHeap a from cnt =
      (c : ℕ) → c ≤ cnt → 0 < c / 2 → from ≤ c / 2 → AtMost (node a c) (node a (c / 2))

  -- The same but for the children of node i, which are not greater than the parent of i.
  abbrev pub IsHeapBut : (ℕ → A) → ℕ → ℕ → ℕ → Type 0
  IsHeapBut a i from cnt =
      ((c : ℕ)
        → c ≤ cnt
        → 0 < c / 2
        → from ≤ c / 2
        → (c / 2 == i) ≡ false
        → AtMost (node a c) (node a (c / 2)))
      × ((c : ℕ)
          → c ≤ cnt
          → c / 2 ≡ i
          → 0 < i / 2
          → from ≤ i / 2
          → AtMost (node a c) (node a (i / 2)))

  node-left : (a : ℕ → A) (i j : ℕ) → node (do_swap a i j) i ≡ node a j
  unfolding do_swap
  node-left a i j = ap a (ground arith)

  pub node-right : (a : ℕ → A) (i j : ℕ) → node (do_swap a i j) j ≡ node a i
  unfolding do_swap
  node-right a i j = ap a (ground arith)

  pub node-other :
      (a : ℕ → A) (i j k : ℕ)
      → 0 < i
      → 0 < j
      → 0 < k
      → (k == i) ≡ false
      → (k == j) ≡ false
      → node (do_swap a i j) k ≡ node a k
  unfolding do_swap
  node-other a i j k i_pos j_pos k_pos k_i k_j = ap a (ground arith)

  module _ (law : IsPreorder) where
    larger-AtMost :
        (a : ℕ → A) (cnt child max : ℕ)
        → AtMost (node a max) (node a (larger compare a cnt child max))
          × (child ≤ cnt → AtMost (node a child) (node a (larger compare a cnt child max)))
    unfolding larger do_compare
    larger-AtMost a cnt child max = elim (Bool-cases (leb child cnt)) [
      | inr off ↦ rw (larger, off) (law.reflexive _, (λ h. ground arith))
      | inl on ↦ elim (Bool-cases (is_pos (compare (node a child) (node a max)))) [
        | inl greater ↦
            rw (larger, do_compare, on, greater) (law.total _ _ greater, (λ h. law.reflexive _))
        | inr other ↦ rw (larger, do_compare, on, other) (law.reflexive _, (λ h. other))
      ]
    ]

    largest-AtMost :
        (a : ℕ → A) (cnt i c : ℕ)
        → c ≤ cnt
        → c / 2 ≡ i
        → AtMost (node a c) (node a (largest compare a cnt i))
    unfolding largest
    largest-AtMost a cnt i c h e =
        let left = larger compare a cnt (2 * i) i in
        let up = larger-AtMost a cnt (2 * i + 1) left in
        elim (half_cases c i e) [
          | inl even ↦
              law.transitive _ _ _
                (subst (λ x. AtMost (node a x) (node a left)) (sym even)
                  ((larger-AtMost a cnt (2 * i) i).1 (omega arith)))
                up.0
          | inr odd ↦
              subst (λ x. AtMost (node a x) (node a (largest compare a cnt i))) (sym odd)
                (up.1 (omega arith))
        ]

    largest-root : (a : ℕ → A) (cnt i : ℕ) → AtMost (node a i) (node a (largest compare a cnt i))
    unfolding largest
    largest-root a cnt i =
        let left = larger compare a cnt (2 * i) i in
        law.transitive _ _ _ (larger-AtMost a cnt (2 * i) i).0
          (larger-AtMost a cnt (2 * i + 1) left).0

    largest_half :
        (a : ℕ → A) (cnt i : ℕ)
        → (largest compare a cnt i ≡ i)
          ⊎ ((largest compare a cnt i / 2 ≡ i) × (largest compare a cnt i ≤ cnt))
    unfolding largest
    largest_half a cnt i =
        let left = larger compare a cnt (2 * i) i in
        elim (larger_cases compare a cnt (2 * i + 1) left) [
          | inl (e, le) ↦ inr (omega arith, omega arith)
          | inr e ↦ elim (larger_cases compare a cnt (2 * i) i) [
            | inl (e', le) ↦ inr (omega arith, omega arith)
            | inr e' ↦ inl (e ∙ e')
          ]
        ]

    pub along : {x x' y y' : A} → x ≡ x' → y ≡ y' → AtMost x' y' → AtMost x y
    along p q h = rw (p, q) h

    module _ (a : ℕ → A) (i from cnt : ℕ) (i_pos : 0 < i) (but : IsHeapBut a i from cnt) where
      -- The exchange with the largest child leaves only the children of that child open.
      swap-IsHeapBut :
          (max : ℕ)
          → max ≡ largest compare a cnt i
          → max / 2 ≡ i
          → max ≤ cnt
          → IsHeapBut (do_swap a i max) max from cnt
      swap-IsHeapBut max is_max half le =
          let b = do_swap a i max in
          (
            (λ c h p f n. elim (Bool-cases (c == max)) [
              | inl at_max ↦
                  along (ap (node b) (==→eq c max at_max) ∙ node-right a i max)
                    (ap (node b) (ap (λ x. x / 2) (==→eq c max at_max) ∙ half) ∙ node-left a i max)
                    (subst (λ x. AtMost (node a i) (node a x)) (sym is_max) (largest-root a cnt i))
              | inr off_max ↦ elim (Bool-cases (c / 2 == i)) [
                | inl child ↦
                    along
                      (node-other a i max c i_pos (omega arith) (omega arith) (ground arith)
                        off_max)
                      (ap (node b) (==→eq (c / 2) i child) ∙ node-left a i max)
                      (subst (λ x. AtMost (node a c) (node a x)) (sym is_max)
                        (largest-AtMost a cnt i c h (==→eq (c / 2) i child)))
                | inr other ↦ elim (Bool-cases (c == i)) [
                  | inl at_i ↦
                      along (ap (node b) (==→eq c i at_i) ∙ node-left a i max)
                        (node-other a i max (c / 2) i_pos (omega arith) p other n)
                        (subst (λ x. AtMost (node a max) (node a (x / 2))) (sym (==→eq c i at_i))
                          (but.1 max le half (omega (arith, ==→eq c i at_i))
                            (omega (arith, ==→eq c i at_i))))
                  | inr off_i ↦
                      along (node-other a i max c i_pos (omega arith) (omega arith) off_i off_max)
                        (node-other a i max (c / 2) i_pos (omega arith) p other n)
                        (but.0 c h p f other)
                ]
              ]
            ]),
            (λ c h e p f.
                along
                  (node-other a i max c i_pos (omega arith) (omega arith) (ground arith)
                    (ground arith))
                  (ap (node b) half ∙ node-left a i max)
                  (subst (λ x. AtMost (node a c) (node a x)) e
                    (but.0 c h (omega arith) (omega arith) (ground arith)))),
          )

    -- heapify at a node that may be smaller than its children makes a heap of the nodes from `from`
    -- on: given a round of fuel for each node behind it and one more, it ends, and no node is greater
    -- than its parent.
    pub heapify-IsHeap :
        (fuel : ℕ) (a : ℕ → A) (i from cnt : ℕ)
        → 0 < i
        → cnt - i < fuel
        → IsHeapBut a i from cnt
        → (b : ℕ → A) × (heapify compare fuel a i cnt ≡ done b) × IsHeap b from cnt
    unfolding heapify
    heapify-IsHeap zero a i from cnt i_pos f but = ground arith
    heapify-IsHeap (suc fuel) a i from cnt i_pos f but =
        let max = largest compare a cnt i in
        elim (largest_half a cnt i) [
          | inl same ↦
              rw (eq→== max i same, heapify)
                (
                  a,
                  refl,
                  (λ c h p g. elim (Bool-cases (c / 2 == i)) [
                    | inl child ↦
                        subst (λ x. AtMost (node a c) (node a x))
                          (same ∙ sym (==→eq (c / 2) i child))
                          (largest-AtMost a cnt i c h (==→eq (c / 2) i child))
                    | inr other ↦ but.0 c h p g other
                  ]),
                )
          | inr (half, le) ↦
              let (b, e, r) =
                heapify-IsHeap fuel (do_swap a i max) max from cnt (omega arith) (omega arith)
                  (swap-IsHeapBut a i from cnt i_pos but max refl half le) in
              rw (lt→not_eq i max (omega arith), heapify) (b, e, r)
        ]
